-- ===== src/Core/Telemetry.antt =====
-- crates/fd-core/src/telemetry.rs: the canonical snapshot. Units are newtypes over `f64` and stand
-- for their values here; `F` is the type of the floating-point values.
use flightdeck_os.Base.{
  ℕ, List, [], ◌∷◌, Bool, true, false, Option, none, some, ◌==◌, if◌then◌else◌,
}

pub record SimTimestamp : Type 0 where
  pub ms : ℕ  -- u64

pub record Position (F : Type 0) : Type 0 where
  pub lat : F
  pub lon : F

pub data SimState : Type 0 where
  running paused unknown : SimState

-- The derived `==`.
abbrev pub state_eq : SimState → SimState → Bool
state_eq SimState.running SimState.running = true
state_eq SimState.paused SimState.paused = true
state_eq SimState.unknown SimState.unknown = true
state_eq _ _ = false

pub record SimTiming (F : Type 0) : Type 0 where
  pub state : SimState
  pub sim_rate : Option F
  pub slew_active : Option Bool

pub data DataQuality : Type 0 where
  fresh warming_up stale missing invalid : DataQuality

-- `BTreeMap<u16, V>`: the entries in key order.
abbrev pub BTreeMap : Type 0 → Type 0
BTreeMap V = List (ℕ × V)

pub record TelemetrySnapshot (F : Type 0) : Type 0 where
  pub timestamp : SimTimestamp
  pub position : Option (Position F)
  pub altitude_msl : Option F
  pub altitude_agl : Option F
  pub groundspeed : Option F
  pub indicated_airspeed : Option F
  pub vertical_speed : Option F
  pub heading_true : Option F
  pub pitch : Option F
  pub bank : Option F
  pub on_ground : Option Bool
  pub gear_handle_down : Option Bool
  pub flaps_handle_index : Option ℕ  -- u8
  pub engine_combustion : Option (Option Bool × Option Bool × Option Bool × Option Bool)
  pub autopilot_master : Option Bool
  pub autothrottle_arm : Option Bool
  pub beacon_light : Option Bool
  pub sim_timing : SimTiming F
  pub aircraft_values : BTreeMap F
  pub channel_quality : BTreeMap DataQuality

-- `BTreeMap::get`.
abbrev pub get : {V : Type 0} → ℕ → BTreeMap V → Option V
get k [] = none
get k ((j, v) ∷ m) = if j == k then some v else get k m

abbrev pub empty : {F : Type 0} → SimTimestamp → TelemetrySnapshot F
empty timestamp = record {
  timestamp = timestamp;
  position = none;
  altitude_msl = none;
  altitude_agl = none;
  groundspeed = none;
  indicated_airspeed = none;
  vertical_speed = none;
  heading_true = none;
  pitch = none;
  bank = none;
  on_ground = none;
  gear_handle_down = none;
  flaps_handle_index = none;
  engine_combustion = none;
  autopilot_master = none;
  autothrottle_arm = none;
  beacon_light = none;
  sim_timing = record { state = SimState.unknown; sim_rate = none; slew_active = none };
  aircraft_values = [];
  channel_quality = [];
}
