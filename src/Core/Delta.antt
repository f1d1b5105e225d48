-- ===== src/Core/Delta.antt =====
-- crates/fd-core/src/delta.rs: which fields differ between two snapshots.
use mathlib.Core.List.{foldr, flat_map}
use flightdeck_os.Base.{
  ℕ, Bool, true, false, not, Option, none, some, List, [], ◌∷◌, ◌++◌, map, ◌&&◌, ltb, ◌==◌,
  if◌then◌else◌,
}
use flightdeck_os.Base.Floats.{Float}
use flightdeck_os.Core.Telemetry.{TelemetrySnapshot, Position, BTreeMap, get, state_eq}

pub data DeltaField : Type 0 where
  position altitude_msl altitude_agl groundspeed indicated_airspeed vertical_speed : DeltaField
  heading_true pitch bank on_ground gear_handle_down flaps_handle_index : DeltaField
  engine_combustion autopilot_master autothrottle_arm beacon_light : DeltaField
  sim_state sim_rate slew_active : DeltaField
  aircraft_value : ℕ → DeltaField

abbrev pub bool_eq : Bool → Bool → Bool
bool_eq true b = b
bool_eq false b = not b

-- The derived `==` on an `Option`.
abbrev pub option_eq : {A : Type 0} → (A → A → Bool) → Option A → Option A → Bool
option_eq eq none none = true
option_eq eq (some a) (some b) = eq a b
option_eq eq _ _ = false

-- The closure `chk`: the field is pushed if the values are not equal.
abbrev pub chk : Bool → DeltaField → List DeltaField
chk same field = if same then [] else field ∷ []

-- `BTreeSet::insert` on the sorted keys.
unfoldable pub insert_key : ℕ → List ℕ → List ℕ
insert_key k [] = k ∷ []
insert_key k (j ∷ js) =
    if ltb k j then k ∷ j ∷ js else if k == j then j ∷ js else j ∷ insert_key k js

unfoldable pub ext_keys : {V : Type 0} → BTreeMap V → BTreeMap V → List ℕ
unfolding insert_key
ext_keys prev next =
    foldr insert_key (foldr insert_key [] (map (λ e. e.0) prev)) (map (λ e. e.0) next)

module _ {F : Type 0} (fl : Float F) where
  open fl use {eq}

  abbrev pub position_eq : Position F → Position F → Bool
  position_eq p q = eq p.lat q.lat && eq p.lon q.lon

  abbrev pub engines_eq :
      (Option Bool × Option Bool × Option Bool × Option Bool)
      → (Option Bool × Option Bool × Option Bool × Option Bool)
      → Bool
  engines_eq (a, b, c, d) (a', b', c', d') =
      option_eq bool_eq a a'
      && option_eq bool_eq b b'
      && option_eq bool_eq c c'
      && option_eq bool_eq d d'

  unfoldable pub diff_core : TelemetrySnapshot F → TelemetrySnapshot F → List DeltaField
  diff_core p n =
      chk (option_eq position_eq p.position n.position) position
      ++ (chk (option_eq eq p.altitude_msl n.altitude_msl) altitude_msl
          ++ (chk (option_eq eq p.altitude_agl n.altitude_agl) altitude_agl
              ++ (chk (option_eq eq p.groundspeed n.groundspeed) groundspeed
                  ++ (chk (option_eq eq p.indicated_airspeed n.indicated_airspeed)
                        indicated_airspeed
                      ++ (chk (option_eq eq p.vertical_speed n.vertical_speed) vertical_speed
                          ++ (chk (option_eq eq p.heading_true n.heading_true) heading_true
                              ++ (chk (option_eq eq p.pitch n.pitch) pitch
                                  ++ (chk (option_eq eq p.bank n.bank) bank
                                      ++ (chk (option_eq bool_eq p.on_ground n.on_ground) on_ground
                                          ++ (chk
                                                (option_eq bool_eq p.gear_handle_down
                                                  n.gear_handle_down)
                                                gear_handle_down
                                              ++ (chk
                                                    (option_eq ◌==◌ p.flaps_handle_index
                                                      n.flaps_handle_index)
                                                    flaps_handle_index
                                                  ++ (chk
                                                        (option_eq engines_eq p.engine_combustion
                                                          n.engine_combustion)
                                                        engine_combustion
                                                      ++ (chk
                                                            (option_eq bool_eq p.autopilot_master
                                                            n.autopilot_master)
                                                            autopilot_master
                                                          ++ (chk
                                                            (option_eq bool_eq p.autothrottle_arm
                                                            n.autothrottle_arm)
                                                            autothrottle_arm
                                                            ++ chk
                                                            (option_eq bool_eq p.beacon_light
                                                            n.beacon_light)
                                                            beacon_light))))))))))))))

  unfoldable pub diff_timing : TelemetrySnapshot F → TelemetrySnapshot F → List DeltaField
  diff_timing p n =
      chk (state_eq p.sim_timing.state n.sim_timing.state) sim_state
      ++ (chk (option_eq eq p.sim_timing.sim_rate n.sim_timing.sim_rate) sim_rate
          ++ chk (option_eq bool_eq p.sim_timing.slew_active n.sim_timing.slew_active) slew_active)

  unfoldable pub diff_values : TelemetrySnapshot F → TelemetrySnapshot F → List ℕ → List DeltaField
  diff_values p n keys =
      flat_map
        (λ k.
          chk (option_eq eq (get k p.aircraft_values) (get k n.aircraft_values)) (aircraft_value k))
        keys

  unfoldable pub diff : TelemetrySnapshot F → TelemetrySnapshot F → List DeltaField
  unfolding diff_core diff_timing diff_values
  diff p n =
      diff_core p n
      ++ (diff_timing p n ++ diff_values p n (ext_keys p.aircraft_values n.aircraft_values))
