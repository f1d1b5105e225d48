-- ===== src/Xplane/Adapter/Control/Armed.antt =====
-- Control: what the adapter writes while the guard is not armed, and when a beacon command is sent.
use flightdeck_os.Base.{
  Bool, ℕ, ◌+◌, true, false, ◌≡◌, refl, ◌∙◌, List, [], ◌∷◌, Option, none, some, All, unwrap_or, leb,
  ltb, Result, err, arith,
}
use flightdeck_os.Base.Floats.{Float}
use flightdeck_os.Base.Texts.{String}
use flightdeck_os.Core.Actions.{CockpitAction, set_beacon, set_nav_logo, SwitchPosition}
use flightdeck_os.Core.Adapter.{AdapterError}
use flightdeck_os.Xplane.Guard.{ensure_armed}
use flightdeck_os.Xplane.Adapter.{Units, XPlaneAdapter, beacon_state}
use flightdeck_os.Xplane.Adapter.Control.{
  Links, web_cooldown, gate, note_ok, note_fail, write_ap, engage, checked_target,
  set_target_altitude, set_target_speed, set_target_heading, set_target_vertical_speed, activate,
  execute_beacon, execute, Operation, altitude, speed, heading, vertical_speed, action, perform,
  perform_all,
}

-- What the beacon is observed to be when a switch to this position is due.
abbrev opposite : SwitchPosition → Bool
opposite SwitchPosition.on = false
opposite SwitchPosition.off = true

-- X-Plane's command for a position of the beacon switch.
abbrev wanted_command : SwitchPosition → String
wanted_command SwitchPosition.on = "sim/lights/beacon_lights_on"
wanted_command SwitchPosition.off = "sim/lights/beacon_lights_off"

module _ {F W : Type 0} (fl : Float F) (un : Units F) (links : Links F W) where
  perform-Unarmed :
      (now : ℕ) (op : Operation F) (a : XPlaneAdapter W)
      → a.write_guard.armed ≡ false
      → ((perform fl un links now op a).world ≡ a.world)
        × ((perform fl un links now op a).write_guard.armed ≡ false)
  unfolding perform set_target_altitude set_target_speed set_target_heading
      set_target_vertical_speed execute execute_beacon write_ap engage checked_target ensure_armed
  perform-Unarmed now (altitude v) a h = ground arith
  perform-Unarmed now (speed v) a h = ground arith
  perform-Unarmed now (heading v) a h = ground arith
  perform-Unarmed now (vertical_speed v) a h = ground arith
  perform-Unarmed now (action (set_beacon p)) a h = ground arith
  perform-Unarmed now (action (set_nav_logo m)) a h = (refl, h)

  -- While the guard is not armed, no sequence of targets and cockpit actions, at whatever times,
  -- writes anything: the world stays as it was, and so does the guard.
  pub perform_all-Unarmed :
      (ops : List (ℕ × Operation F)) (a : XPlaneAdapter W)
      → a.write_guard.armed ≡ false
      → ((perform_all fl un links ops a).world ≡ a.world)
        × ((perform_all fl un links ops a).write_guard.armed ≡ false)
  unfolding perform_all
  perform_all-Unarmed [] a h = (refl, h)
  perform_all-Unarmed ((now, op) ∷ ops) a h =
      let (same_world, unarmed) = perform-Unarmed now op a h in
      let (rest, still) = perform_all-Unarmed ops (perform fl un links now op a) unarmed in
      (rest ∙ same_world, still)

  -- The world after the activation of a command.
  abbrev activated : Option (String → W → Result (Unit {0}) String × W) → String → W → W
  activated none name w = w
  activated (some activate_command) name w = (activate_command name w).1

  -- A beacon action changes the world only when the guard is armed, the observed beacon is in the
  -- other position, the Web API is not cooling down; the change is then one activation of the command
  -- of the wanted position.
  pub execute_beacon-Activates :
      (now : ℕ) (target : SwitchPosition) (a : XPlaneAdapter W)
      → ¬ ((execute fl un links now (set_beacon target) a).1.world ≡ a.world)
      → (a.write_guard.armed ≡ true)
        × (beacon_state fl un a.shared now ≡ some (opposite target))
        × (leb (unwrap_or a.web_health.cooldown_until 0) now ≡ true)
        × ((execute fl un links now (set_beacon target) a).1.world
            ≡ activated links.activate_command (wanted_command target) a.world)
  unfolding execute execute_beacon ensure_armed activate gate
  execute_beacon-Activates now SwitchPosition.on a h = ground arith
  execute_beacon-Activates now SwitchPosition.off a h = ground arith

  -- The calls that the cooldown is about: actions, each at a time before its end.
  abbrev IsEarly : ℕ → ℕ × Operation F → Type 0
  IsEarly until (t, action _) = ltb t until ≡ true
  IsEarly until _ = ⊥

  early_step :
      (t : ℕ) (x : CockpitAction) (a : XPlaneAdapter W) {until : ℕ}
      → ltb t until ≡ true
      → a.web_health.cooldown_until ≡ some until
      → ((perform fl un links t (action x) a).world ≡ a.world)
        × ((perform fl un links t (action x) a).web_health.cooldown_until ≡ some until)
  unfolding perform execute execute_beacon gate ensure_armed
  early_step t (set_beacon p) a lt h = ground arith
  early_step t (set_nav_logo m) a lt h = (refl, h)

  failed :
      (now : ℕ) (target : SwitchPosition) (a : XPlaneAdapter W) {e : AdapterError}
      → (execute fl un links now (set_beacon target) a).0 ≡ err e
      → ¬ ((execute fl un links now (set_beacon target) a).1.world ≡ a.world)
      → (execute fl un links now (set_beacon target) a).1.web_health.cooldown_until
        ≡ some (now + web_cooldown)
  unfolding execute execute_beacon gate ensure_armed activate note_ok note_fail
  failed now target a h changed = ground arith

  cooling :
      (ops : List (ℕ × Operation F)) (a : XPlaneAdapter W) {until : ℕ}
      → All (IsEarly until) ops
      → a.web_health.cooldown_until ≡ some until
      → (perform_all fl un links ops a).world ≡ a.world
  unfolding perform_all
  cooling [] a early h = refl
  cooling ((t, action x) ∷ ops) a (lt, early) h =
      let (same_world, still) = early_step t x a lt h in
      cooling ops (perform fl un links t (action x) a) early still ∙ same_world
  cooling ((t, altitude _) ∷ ops) a (lt, early) h = absurd lt
  cooling ((t, speed _) ∷ ops) a (lt, early) h = absurd lt
  cooling ((t, heading _) ∷ ops) a (lt, early) h = absurd lt
  cooling ((t, vertical_speed _) ∷ ops) a (lt, early) h = absurd lt

  -- After an activation that failed, the actions of the next five seconds, in whatever order, write
  -- nothing.
  pub perform_all-Cooling :
      (now : ℕ) (target : SwitchPosition) (a : XPlaneAdapter W) (ops : List (ℕ × Operation F))
      {e : AdapterError}
      → (execute fl un links now (set_beacon target) a).0 ≡ err e
      → ¬ ((execute fl un links now (set_beacon target) a).1.world ≡ a.world)
      → All (IsEarly (now + 5000000000)) ops
      → (perform_all fl un links ops (execute fl un links now (set_beacon target) a).1).world
        ≡ (execute fl un links now (set_beacon target) a).1.world
  perform_all-Cooling now target a ops h changed early =
      cooling ops (execute fl un links now (set_beacon target) a).1 early
        (failed now target a h changed)
