-- ===== src/Simconnect/Adapter/Writes.antt =====
-- Adapter: when an action is written, and what a connection changes.
use flightdeck_os.Base.{ℕ, false, ◌≡◌, ◌↔◌, refl, none, some, ok, err, if◌then◌else◌, arith}
use flightdeck_os.Base.Floats.{Float, Trig}
use flightdeck_os.Base.Texts.{String}
use flightdeck_os.Core.Actions.{
  CockpitAction, set_beacon, set_nav_logo, SwitchPosition, NavLogoMode, sys1, sys2,
}
use flightdeck_os.Core.Adapter.{AdapterError, not_connected}
use flightdeck_os.Simconnect.Mapping.{Casts}
use flightdeck_os.Simconnect.Bindings.{lookup_write}
use flightdeck_os.Simconnect.Client.{SimConnectApi, is_negative, call, c_string, write_simvar}
use flightdeck_os.Simconnect.Adapter.{SimConnectAdapter, connect, execute}

module _ {F W : Type 0} (fl : Float F) (tr : Trig F) (cs : Casts F) (api : SimConnectApi F W) where
  -- The variable of an action, its unit, and the value it is to have.
  abbrev pub variable : CockpitAction → String × String
  variable (set_beacon _) = ("LIGHT BEACON", "bool")
  variable (set_nav_logo _) = ("L:A32NX_LIGHTS_NAV_LOGO", "number")

  abbrev pub wanted : CockpitAction → F
  wanted (set_beacon SwitchPosition.on) = fl.lit 1
  wanted (set_beacon SwitchPosition.off) = fl.lit 0
  wanted (set_nav_logo NavLogoMode.off) = fl.lit 0
  wanted (set_nav_logo sys1) = fl.lit 1
  wanted (set_nav_logo sys2) = fl.lit 2

  -- The three calls of a write, each in the world that the one before it leaves.
  abbrev pub cleared : ℕ → W → ℕ × W
  cleared handle w = api.clear_data_definition handle 2 w

  abbrev pub defined : ℕ → CockpitAction → W → ℕ × W
  defined handle action w =
      api.add_to_data_definition handle 2 (variable action).0 (variable action).1 0
        (cleared handle w).1

  abbrev pub written : ℕ → CockpitAction → W → ℕ × W
  written handle action w =
      api.set_data_on_sim_object handle 2 0 (wanted action) (defined handle action w).1

  -- With a session, an action succeeds exactly when none of the three calls of its write returns a
  -- negative result: clearing the definition, defining the action's variable with its unit, and
  -- setting it to the value the action wants. The first that does is the last that is made. Without a
  -- session nothing is called and the adapter stays as it was.
  pub execute_write :
      (a : SimConnectAdapter W) (handle : ℕ) (action : CockpitAction)
      → (((execute fl tr cs api (record a { client = some handle }) action).0 ≡ ok tt) ↔ (
          (is_negative (cleared handle a.world).0 ≡ false)
          × (is_negative (defined handle action a.world).0 ≡ false)
          × (is_negative (written handle action a.world).0 ≡ false)))
        × ((execute fl tr cs api (record a { client = some handle }) action).1.world ≡ (
            if is_negative (cleared handle a.world).0
            then (cleared handle a.world).1
            else if is_negative (defined handle action a.world).0
            then (defined handle action a.world).1
            else (written handle action a.world).1))
        × (execute fl tr cs api (record a { client = none }) action
            ≡ (err not_connected, record a { client = none }))
  unfolding execute lookup_write write_simvar call c_string
  execute_write a handle (set_beacon SwitchPosition.on) = (ground arith, ground arith, refl)
  execute_write a handle (set_beacon SwitchPosition.off) = (ground arith, ground arith, refl)
  execute_write a handle (set_nav_logo NavLogoMode.off) = (ground arith, ground arith, refl)
  execute_write a handle (set_nav_logo sys1) = (ground arith, ground arith, refl)
  execute_write a handle (set_nav_logo sys2) = (ground arith, ground arith, refl)

  -- A connection that fails leaves the session, the connected flag and the pause state as they were.
  pub connect-err :
      (a : SimConnectAdapter W) {e : AdapterError}
      → (connect fl tr cs api a).0 ≡ err e
      → ((connect fl tr cs api a).1.client ≡ a.client)
        × ((connect fl tr cs api a).1.connected ≡ a.connected)
        × ((connect fl tr cs api a).1.event_paused ≡ a.event_paused)
  unfolding connect
  connect-err a h = ground arith
