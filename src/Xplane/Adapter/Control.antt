-- ===== src/Xplane/Adapter/Control.antt =====
-- crates/fd-xplane/src/adapter.rs: the writes of the X-Plane adapter, each behind the write guard.
-- The Web API client's command activation and the UDP socket are an interface over a world `W`.
pub mod Armed
use flightdeck_os.Base.{
  ℕ, ◌+◌, Bool, true, false, not, List, [], ◌∷◌, Option, none, some, unwrap_or, Result, ok, err,
  ltb, if◌then◌else◌,
}
use flightdeck_os.Base.Floats.{Float}
use flightdeck_os.Base.Texts.{String, codes}
use flightdeck_os.Core.Actions.{CockpitAction, set_beacon, set_nav_logo, SwitchPosition}
use flightdeck_os.Core.Adapter.{
  Capability, supported, unsupported, unavailable, AdapterError, write_failed, not_connected,
  unsupported_action, state_unknown,
}
use flightdeck_os.Xplane.Protocol.{dref_set, cmnd}
use flightdeck_os.Xplane.Client.{Shared, ClientError, network, connected}
use flightdeck_os.Xplane.Guard.{ensure_armed}
use flightdeck_os.Xplane.Refs.{
  mag_variation_deg, ap_heading_status, ap_vvi_status, WriteRef, ap_heading_mag, ap_altitude,
  ap_vertical_velocity, ap_airspeed, write_path, Command, ap_heading_hold,
  ap_vertical_speed_pre_sel, command_path,
}
use flightdeck_os.Xplane.Adapter.{Units, WebHealth, XPlaneAdapter, value, beacon_state}

-- What the adapter writes through: the socket, the Web API client if one could be made, and the
-- texts of the errors.
pub record Links (F W : Type 0) : Type 0 where
  pub send_to : List ℕ → W → Result (Unit {0}) String × W
  pub activate_command : Option (String → W → Result (Unit {0}) String × W)
  pub client_text : ClientError → String
  pub adapter_text : AdapterError → String
  pub non_finite : String → F → String

-- Five seconds, in nanoseconds as the client's clock.
abbrev pub web_cooldown : ℕ
web_cooldown = 5000000000

abbrev pub beacon_on_command : String
beacon_on_command = "sim/lights/beacon_lights_on"

abbrev pub beacon_off_command : String
beacon_off_command = "sim/lights/beacon_lights_off"

-- `WebHealth`: the gate opens again at the end of the cooldown.
unfoldable pub gate : ℕ → WebHealth → Result (Unit {0}) AdapterError × WebHealth
gate now h = gated h.cooldown_until
  where
    gated : Option ℕ → Result (Unit {0}) AdapterError × WebHealth
    gated none = (ok tt, h)
    gated (some until) =
        if ltb now until
        then (err (write_failed "web api cooling down after transport failure"), h)
        else (ok tt, record h { cooldown_until = none })

unfoldable pub note_ok : ℕ → WebHealth → WebHealth
note_ok now h = record { last_ok = some now; last_error = none; cooldown_until = none }

unfoldable pub note_fail : ℕ → String → WebHealth → WebHealth
note_fail now e h = record h { last_error = some e; cooldown_until = some (now + web_cooldown) }

abbrev pub is_on : SwitchPosition → Bool
is_on SwitchPosition.on = true
is_on SwitchPosition.off = false

abbrev pub beacon_command : SwitchPosition → String
beacon_command SwitchPosition.on = beacon_on_command
beacon_command SwitchPosition.off = beacon_off_command

-- `==` on Booleans.
abbrev pub same : Bool → Bool → Bool
same true b = b
same false b = not b

unfoldable pub guard_connected : Shared → ℕ → Result (Unit {0}) AdapterError
guard_connected shared now = if connected shared now then ok tt else err not_connected

module _ {F W : Type 0} (fl : Float F) (un : Units F) (links : Links F W) where
  -- The outcome of a datagram, as the adapter's error.
  abbrev pub sent : Result (Unit {0}) String × W → Result (Unit {0}) AdapterError × W
  sent (ok u, w) = (ok u, w)
  sent (err e, w) = (err (write_failed (links.client_text (network e))), w)

  -- A datagram, when the guard is armed and the simulator is connected.
  abbrev pub send_guarded :
      ℕ → XPlaneAdapter W → List ℕ → Result (Unit {0}) AdapterError × XPlaneAdapter W
  send_guarded now a packet = armed (ensure_armed a.write_guard)
    where
      live : Result (Unit {0}) AdapterError → Result (Unit {0}) AdapterError × XPlaneAdapter W
      live (err e) = (err e, a)
      live (ok _) = let (r, w) = sent (links.send_to packet a.world) in (r, record a { world = w })

      armed : Result (Unit {0}) AdapterError → Result (Unit {0}) AdapterError × XPlaneAdapter W
      armed (err e) = (err e, a)
      armed (ok _) = live (guard_connected a.shared now)

  -- `write_ap` and `engage`.
  unfoldable pub write_ap :
      ℕ → WriteRef → ℕ → XPlaneAdapter W → Result (Unit {0}) AdapterError × XPlaneAdapter W
  write_ap now r v a = send_guarded now a (dref_set (codes (write_path r)) v)

  unfoldable pub engage :
      ℕ → Command → XPlaneAdapter W → Result (Unit {0}) AdapterError × XPlaneAdapter W
  engage now c a = send_guarded now a (cmnd (codes (command_path c)))

  unfoldable pub checked_target : String → F → XPlaneAdapter W → Option F × XPlaneAdapter W
  checked_target name v a =
      if fl.is_finite v
      then (some v, a)
      else (none, record a { last_control_error = some (links.non_finite name v) })

  -- A failure is kept in `last_control_error`.
  abbrev pub note_error : Result (Unit {0}) AdapterError × XPlaneAdapter W → XPlaneAdapter W
  note_error (ok _, a) = a
  note_error (err e, a) = record a { last_control_error = some (links.adapter_text e) }

  unfoldable pub true_to_mag : F → F → ℕ
  true_to_mag true_deg magvar_deg =
      un.to_f32 (un.rem_euclid (fl.sub true_deg magvar_deg) (fl.lit 360))

  unfoldable pub set_target_altitude : ℕ → F → XPlaneAdapter W → XPlaneAdapter W
  unfolding checked_target
  set_target_altitude now altitude_ft a = checked (checked_target "altitude" altitude_ft a)
    where
      checked : Option F × XPlaneAdapter W → XPlaneAdapter W
      checked (none, b) = b
      checked (some v, b) = note_error (write_ap now ap_altitude (un.to_f32 v) b)

  unfoldable pub set_target_speed : ℕ → F → XPlaneAdapter W → XPlaneAdapter W
  unfolding checked_target
  set_target_speed now speed_kt a = checked (checked_target "speed" speed_kt a)
    where
      checked : Option F × XPlaneAdapter W → XPlaneAdapter W
      checked (none, b) = b
      checked (some v, b) = note_error (write_ap now ap_airspeed (un.to_f32 v) b)

  -- The mode is engaged when its observed status is below two.
  abbrev pub engage_below_two :
      ℕ → Command → Option F → Result (Unit {0}) AdapterError × XPlaneAdapter W → XPlaneAdapter W
  engage_below_two now c status (err e, a) = note_error (err e, a)
  engage_below_two now c status (ok _, a) =
      if fl.lt (unwrap_or status (fl.lit 0)) (fl.lit 2) then note_error (engage now c a) else a

  unfoldable pub set_target_heading : ℕ → F → XPlaneAdapter W → XPlaneAdapter W
  unfolding checked_target
  set_target_heading now heading_deg a = checked (checked_target "heading" heading_deg a)
    where
      checked : Option F × XPlaneAdapter W → XPlaneAdapter W
      checked (none, b) = b
      checked (some v, b) =
          let magvar = unwrap_or (value fl un b.shared now mag_variation_deg) (fl.lit 0) in
          engage_below_two now ap_heading_hold (value fl un b.shared now ap_heading_status)
            (write_ap now ap_heading_mag (true_to_mag v magvar) b)

  unfoldable pub set_target_vertical_speed : ℕ → F → XPlaneAdapter W → XPlaneAdapter W
  unfolding checked_target
  set_target_vertical_speed now fpm a = checked (checked_target "vertical_speed" fpm a)
    where
      checked : Option F × XPlaneAdapter W → XPlaneAdapter W
      checked (none, b) = b
      checked (some v, b) =
          engage_below_two now ap_vertical_speed_pre_sel (value fl un b.shared now ap_vvi_status)
            (write_ap now ap_vertical_velocity (un.to_f32 v) b)

  unfoldable pub capability : ℕ → XPlaneAdapter W → CockpitAction → Capability
  capability now a (set_beacon _) = if connected a.shared now then supported else unavailable
  capability now a (set_nav_logo _) = if connected a.shared now then unsupported else unavailable

  -- The command of the Web API client, with its outcome noted.
  unfoldable pub activate :
      ℕ → String → XPlaneAdapter W → Result (Unit {0}) AdapterError × XPlaneAdapter W
  activate now name a = through links.activate_command
    where
      noted : Result (Unit {0}) String × W → Result (Unit {0}) AdapterError × XPlaneAdapter W
      noted (ok v, w) = (ok v, record a { web_health = note_ok now a.web_health; world = w })
      noted (err e, w) =
          (err (write_failed e), record a { web_health = note_fail now e a.web_health; world = w })

      through :
          Option (String → W → Result (Unit {0}) String × W)
          → Result (Unit {0}) AdapterError × XPlaneAdapter W
      through none = (err (write_failed "web api client unavailable"), a)
      through (some activate_command) = noted (activate_command name a.world)

  unfoldable pub execute_beacon :
      ℕ → SwitchPosition → XPlaneAdapter W → Result (Unit {0}) AdapterError × XPlaneAdapter W
  unfolding activate
  execute_beacon now target a = armed (ensure_armed a.write_guard)
    where
      open_gate :
          Result (Unit {0}) AdapterError × WebHealth
          → Result (Unit {0}) AdapterError × XPlaneAdapter W
      open_gate (err e, h) = (err e, record a { web_health = h })
      open_gate (ok _, h) = activate now (beacon_command target) (record a { web_health = h })

      from : Option Bool → Result (Unit {0}) AdapterError × XPlaneAdapter W
      from none = (err (state_unknown (set_beacon target)), a)
      from (some on) =
          if same on (is_on target) then (ok tt, a) else open_gate (gate now a.web_health)

      armed : Result (Unit {0}) AdapterError → Result (Unit {0}) AdapterError × XPlaneAdapter W
      armed (err e) = (err e, a)
      armed (ok _) = from (beacon_state fl un a.shared now)

  unfoldable pub execute :
      ℕ → CockpitAction → XPlaneAdapter W → Result (Unit {0}) AdapterError × XPlaneAdapter W
  unfolding execute_beacon
  execute now (set_beacon target) a = execute_beacon now target a
  execute now (set_nav_logo _) a = (err unsupported_action, a)

-- What the runtime may ask of the adapter, one call at a time.
pub data Operation (F : Type 0) : Type 0 where
  altitude speed heading vertical_speed : F → Operation F
  action : CockpitAction → Operation F

module _ {F W : Type 0} (fl : Float F) (un : Units F) (links : Links F W) where
  unfoldable pub perform : ℕ → Operation F → XPlaneAdapter W → XPlaneAdapter W
  perform now (altitude v) a = set_target_altitude fl un links now v a
  perform now (speed v) a = set_target_speed fl un links now v a
  perform now (heading v) a = set_target_heading fl un links now v a
  perform now (vertical_speed v) a = set_target_vertical_speed fl un links now v a
  perform now (action x) a = (execute fl un links now x a).1

  unfoldable pub perform_all : List (ℕ × Operation F) → XPlaneAdapter W → XPlaneAdapter W
  perform_all [] a = a
  perform_all ((now, op) ∷ ops) a = perform_all ops (perform now op a)
