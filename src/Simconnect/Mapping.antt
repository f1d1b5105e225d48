-- ===== src/Simconnect/Mapping.antt =====
-- crates/fd-simconnect/src/mapping.rs: from a datum array to a snapshot. An index is that of
-- crates/fd-simconnect/src/defs.rs, and the casts of `f64` are parameters.
pub mod Observed
use flightdeck_os.Base.{
  ℕ, zero, suc, Bool, true, false, not, ◌&&◌, ◌||◌, List, [], ◌∷◌, Option, none, some, ◌>>=◌,
  unwrap_or, get_elem?, if◌then◌else◌,
}
use mathlib.Core.Option
use flightdeck_os.Base.Floats.{Float, Trig}
use flightdeck_os.Core.Telemetry.{
  SimTimestamp, Position, SimState, SimTiming, BTreeMap, TelemetrySnapshot, empty,
}

-- `f64::from_bits`, `NAN`, `fract`, `as u64` and `as u8`.
pub record Casts (F : Type 0) : Type 0 where
  pub from_bits : ℕ → F
  pub nan : F
  pub fract : F → F
  pub to_u64 : F → ℕ
  pub to_u8 : F → ℕ

-- `Option::or` and `Option::filter`.
abbrev pub or {ℓ} : {A : Type ℓ} → Option A → Option A → Option A
or none b = b
or (some a) b = some a

abbrev pub filter {ℓ} : {A : Type ℓ} → (A → Bool) → Option A → Option A
filter p none = none
filter p (some a) = if p a then some a else none

abbrev pub is_some {ℓ} : {A : Type ℓ} → Option A → Bool
is_some none = false
is_some (some _) = true

module _ {F : Type 0} (fl : Float F) (tr : Trig F) (cs : Casts F) where
  unfoldable pub as_bool : F → Option Bool
  as_bool v = if not (fl.is_finite v) then none else some (not (fl.eq v (fl.lit 0)))

  unfoldable pub as_number : F → Option F
  as_number v = if fl.is_finite v then some v else none

  -- `v(i)`.
  unfoldable pub datum : List F → ℕ → F
  datum values i = unwrap_or (get_elem? values i) cs.nan

  abbrev pub position_of : Option F → Option F → Option (Position F)
  position_of (some lat) (some lon) =
      if fl.le (fl.abs lat) (fl.lit 90) && fl.le (fl.abs lon) (fl.lit 180)
      then some (record { lat = lat; lon = lon })
      else none
  position_of _ _ = none

  abbrev pub flaps_of : F → Option ℕ
  flaps_of flaps =
      if fl.is_finite flaps
        && ((fl.le (fl.lit 0) flaps && fl.le flaps (fl.lit 4)) && fl.eq (cs.fract flaps) (fl.lit 0))
      then some (cs.to_u8 flaps)
      else none

  abbrev pub combustion_of :
      Option Bool → Option Bool → Option (Option Bool × Option Bool × Option Bool × Option Bool)
  combustion_of eng1 eng2 =
      if is_some eng1 || is_some eng2 then some (eng1, eng2, none, none) else none

  abbrev pub state_of : Option Bool → SimState
  state_of none = SimState.unknown
  state_of (some true) = SimState.paused
  state_of (some false) = SimState.running

  -- The loop over the aircraft's own values, whose ids are in order.
  unfoldable pub collect : List (ℕ × F) → BTreeMap F
  unfolding as_number
  collect [] = []
  collect ((id, raw) ∷ rest) =
      let tail = collect rest in elim (as_number raw) [ none ↦ tail | some val ↦ (id, val) ∷ tail ]

  unfoldable pub map_telemetry : List F → Option Bool → TelemetrySnapshot F
  unfolding as_bool as_number datum collect
  map_telemetry values event_paused =
      let v = datum values in
      let ms =
        Option.map (λ (s : F). cs.to_u64 (fl.mul (fl.max s (fl.lit 0)) (fl.lit 1000)))
          (as_number (v 26)) in
      record (empty (record { ms = unwrap_or ms 0 })) {
        position = position_of (as_number (v 0)) (as_number (v 1));
        altitude_msl = as_number (v 2);
        altitude_agl = as_number (v 3);
        groundspeed = as_number (v 4);
        indicated_airspeed = as_number (v 5);
        vertical_speed = as_number (v 6);
        heading_true = Option.map (λ d. tr.rem_euclid d (fl.lit 360)) (as_number (v 7));
        pitch = Option.map tr.to_degrees (as_number (v 8));
        bank = Option.map tr.to_degrees (as_number (v 9));
        on_ground = as_bool (v 10);
        gear_handle_down = as_bool (v 11);
        flaps_handle_index = flaps_of (v 12);
        engine_combustion = combustion_of (as_bool (v 13)) (as_bool (v 14));
        autopilot_master = as_bool (v 15);
        autothrottle_arm = as_bool (v 16);
        beacon_light = as_bool (v 17);
        sim_timing = record {
          state = state_of (or (as_bool (v 18)) event_paused);
          sim_rate = filter (λ r. fl.le (fl.lit 0) r) (as_number (v 19));
          slew_active = as_bool (v 20);
        };
        aircraft_values = collect ((1, v 21) ∷ (2, v 22) ∷ (3, v 23) ∷ (4, v 24) ∷ (5, v 25) ∷ []);
      }
