-- ===== src/Virtual/Adapter.antt =====
-- crates/fd-virtual/src/adapter.rs, and the clock of lib.rs: the virtual simulator. `none` is a
-- panic; counters do not reach 2 ^ 64.
pub mod Masks
pub mod Windows
use flightdeck_os.Base.{
  ℕ, ◌+◌, Bool, true, false, not, List, [], ◌∷◌, Option, none, some, ◌>>=◌, Result, ok, err, ltb,
  leb, if◌then◌else◌,
}
use flightdeck_os.Base.Floats.{Float, Trig}
use flightdeck_os.Base.Texts.{String, str_eq}
use flightdeck_os.Core.Actions.{CockpitAction, set_beacon, set_nav_logo, SwitchPosition}
use flightdeck_os.Core.Adapter.{
  Capability, supported, unsupported, AdapterError, not_connected, unsupported_action,
}
use flightdeck_os.Core.Telemetry.{SimState, TelemetrySnapshot, empty}
use flightdeck_os.Virtual.Faults.{FaultConfig, no_faults, validate, normalized, bounce_active}
use flightdeck_os.Virtual.Kinematics
use flightdeck_os.Virtual.Kinematics.{KinematicState, default_limits, set_target_heading, agl_ft}
use flightdeck_os.Virtual.Systems
use flightdeck_os.Virtual.Systems.{SystemsState, cold_and_dark}

pub record VirtualClock : Type 0 where
  pub sim_ms : ℕ
  pub ticks : ℕ
  pub dt_ms : ℕ

-- `u64::saturating_add`.
abbrev pub saturating_add : ℕ → ℕ → ℕ
saturating_add a b = if ltb (a + b) 18446744073709551616 then a + b else 18446744073709551615

unfoldable pub tick_clock : VirtualClock → VirtualClock
tick_clock c = record c { sim_ms = saturating_add c.sim_ms c.dt_ms; ticks = c.ticks + 1 }

pub record VirtualSimulator (F : Type 0) : Type 0 where
  pub clock : VirtualClock
  pub kinematics : KinematicState F
  pub systems : SystemsState F
  pub faults : FaultConfig
  pub stale_latch : Option (TelemetrySnapshot F)
  pub fault_ticks : ℕ

module _ {F : Type 0} (fl : Float F) (tr : Trig F) where
  unfoldable pub new : F → F → F → F → ℕ → VirtualSimulator F
  new lat_deg lon_deg ground_elevation_ft initial_heading_deg dt_ms =
      let k = Kinematics.new fl tr lat_deg lon_deg ground_elevation_ft (default_limits fl tr) in
      let turned = set_target_heading fl tr k initial_heading_deg in
      record {
        clock = record { sim_ms = 0; ticks = 0; dt_ms = dt_ms };
        kinematics = record turned { heading_deg = tr.rem_euclid initial_heading_deg (fl.lit 360) };
        systems = cold_and_dark fl;
        faults = no_faults;
        stale_latch = none;
        fault_ticks = 0;
      }

  -- `with_faults` and `set_faults`; a configuration that does not validate is a panic.
  unfoldable pub with_faults :
      (List String → List String) → VirtualSimulator F → FaultConfig → Option (VirtualSimulator F)
  unfolding validate normalized
  with_faults sort_dedup s faults = elim (validate faults) [
    | ok _ ↦ some (record s { faults = normalized sort_dedup faults })
    | err _ ↦ none
  ]

  -- The inherent method, which `poll` and `execute` call, and the trait's.
  unfoldable pub is_connected : VirtualSimulator F → Bool
  is_connected s = leb s.faults.disconnect_until_tick s.fault_ticks

  unfoldable pub trait_is_connected : VirtualSimulator F → Bool
  trait_is_connected s = leb s.faults.disconnect_until_tick s.clock.ticks

  -- The loop over the masked fields.
  unfoldable pub mask_field : String → TelemetrySnapshot F → Option (TelemetrySnapshot F)
  mask_field name s =
      if str_eq name "position"
      then some (record s { position = none })
      else if str_eq name "altitude_msl"
      then some (record s { altitude_msl = none })
      else if str_eq name "altitude_agl"
      then some (record s { altitude_agl = none })
      else if str_eq name "groundspeed"
      then some (record s { groundspeed = none })
      else if str_eq name "ias"
      then some (record s { indicated_airspeed = none })
      else if str_eq name "vertical_speed"
      then some (record s { vertical_speed = none })
      else if str_eq name "vs"
      then some (record s { vertical_speed = none })
      else if str_eq name "heading_true"
      then some (record s { heading_true = none })
      else if str_eq name "pitch"
      then some (record s { pitch = none })
      else if str_eq name "bank"
      then some (record s { bank = none })
      else if str_eq name "on_ground"
      then some (record s { on_ground = none })
      else none

  unfoldable pub mask_fields : List String → TelemetrySnapshot F → Option (TelemetrySnapshot F)
  mask_fields [] s = some s
  mask_fields (name ∷ names) s = mask_field name s >>= mask_fields names

  abbrev pub one_if : Bool → F
  one_if b = if b then fl.lit 1 else fl.lit 0

  -- The snapshot before the faults of the last two kinds, while a bounce is on or not.
  unfoldable pub live : Bool → VirtualSimulator F → TelemetrySnapshot F
  unfolding agl_ft
  live bounce s =
      let k = s.kinematics in
      record (empty (record { ms = s.clock.sim_ms })) {
        position = some (record { lat = k.latitude_deg; lon = k.longitude_deg });
        altitude_msl = some k.altitude_ft;
        altitude_agl = some (agl_ft fl tr k);
        groundspeed = some k.groundspeed_kt;
        indicated_airspeed = some k.ias_kt;
        vertical_speed = some k.vertical_speed_fpm;
        heading_true = some k.heading_deg;
        pitch = some k.pitch_deg;
        bank = some k.bank_deg;
        on_ground = some (if bounce then false else k.on_ground);
        gear_handle_down = some true;
        flaps_handle_index = some 0;
        engine_combustion =
            some (some s.systems.engines_running, some s.systems.engines_running, none, none);
        beacon_light = some s.systems.beacon_on;
        sim_timing = record {
          state = SimState.running;
          sim_rate = some (fl.lit 1);
          slew_active = some false;
        };
        aircraft_values =
            (1, s.systems.apu_n_percent)
            ∷ (2, one_if s.systems.apu_bleed_open)
            ∷ (3, fl.lit 0)
            ∷ (4, fl.lit 0)
            ∷ (5, one_if s.systems.pack_1_pb_on)
            ∷ [];
      }

  -- The snapshot reported for `now`: the latched one with the time of now, or `now` masked.
  abbrev pub reported :
      VirtualSimulator F
      → TelemetrySnapshot F
      → Option (TelemetrySnapshot F)
      → Option (TelemetrySnapshot F)
  reported s now none = mask_fields s.faults.unknown_sensor_fields now
  reported s now (some latched) =
      if leb s.fault_ticks s.faults.stale_values_until_tick
      then some (record latched { timestamp = now.timestamp; sim_timing = now.sim_timing })
      else mask_fields s.faults.unknown_sensor_fields now

  unfoldable pub snapshot : VirtualSimulator F → Option (TelemetrySnapshot F)
  unfolding live bounce_active
  snapshot s =
      bounce_active s.faults s.fault_ticks >>= λ bounce. reported s (live bounce s) s.stale_latch

  -- The latch of the stale-values fault, when the world has advanced.
  abbrev pub latch : VirtualSimulator F → Option (TelemetrySnapshot F) → Option (VirtualSimulator F)
  latch s (some latched) = some s
  latch s none = snapshot s >>= λ now. some (record s { stale_latch = some now })

  unfoldable pub advance_world : VirtualSimulator F → Option (VirtualSimulator F)
  advance_world s = do
    let systems = Systems.advance fl s.systems s.clock.dt_ms
    k ← Kinematics.advance fl tr (fl.div (fl.lit s.clock.dt_ms) (fl.lit 1000)) s.kinematics
    let s' = record s { systems = systems; kinematics = k; clock = tick_clock s.clock }
    (if leb s'.fault_ticks s'.faults.stale_values_until_tick
        then latch s' s'.stale_latch
        else some (record s' { stale_latch = none }))

  unfoldable pub advance_tick :
      VirtualSimulator F → Option (TelemetrySnapshot F × VirtualSimulator F)
  unfolding advance_world
  advance_tick s = do
    let counted = record s { fault_ticks = s.fault_ticks + 1 }
    s' ←
        (if leb counted.fault_ticks counted.faults.telemetry_freeze_until_tick
          then some counted
          else advance_world counted)
    now ← snapshot s'
    some (now, s')

  unfoldable pub poll :
      VirtualSimulator F
      → Option (Result (List (TelemetrySnapshot F)) AdapterError × VirtualSimulator F)
  unfolding is_connected
  poll s =
      if not (is_connected s)
      then some (err not_connected, s)
      else (snapshot s >>= λ now. some (ok (now ∷ []), s))

  abbrev pub capability : VirtualSimulator F → CockpitAction → Capability
  capability s (set_beacon _) = supported
  capability s (set_nav_logo _) = unsupported

  abbrev pub is_on : SwitchPosition → Bool
  is_on SwitchPosition.on = true
  is_on SwitchPosition.off = false

  abbrev pub perform :
      VirtualSimulator F → CockpitAction → Result (Unit {0}) AdapterError × VirtualSimulator F
  perform s (set_beacon pos) =
      (ok tt, record s { systems = Systems.set_beacon s.systems (is_on pos) })
  perform s (set_nav_logo _) = (err unsupported_action, s)

  unfoldable pub execute :
      VirtualSimulator F → CockpitAction → Result (Unit {0}) AdapterError × VirtualSimulator F
  unfolding is_connected
  execute s action =
      if not (is_connected s)
      then (err not_connected, s)
      else if ltb s.clock.ticks s.faults.ignore_actions_for_ticks
      then (ok tt, s)
      else perform s action
