-- ===== src/Examples/Phases.antt =====
-- The phase engine on concrete inputs.
use flightdeck_os.Base.{ℕ, true, false, none, some, List, [], ◌∷◌, ◌≡◌, refl, map, All}
use flightdeck_os.Core.Phase.{
  cruise, PhaseTelemetry, FlightPhaseEngine, new, from_snapshot, evaluate,
}
use flightdeck_os.Core.Phase.Airborne.{begin, sample, Recalls, Run-Recalls}
use flightdeck_os.Core.Phase.Terminal.{needs_route, assess_all, assess_all-snapshots}
use flightdeck_os.Core.Telemetry.{TelemetrySnapshot, SimState}
use flightdeck_os.Examples.Data.{whole, beacon_at}

-- In the air at this time and altitude, with this climb rate.
abbrev aloft : ℕ → ℕ → ℕ → PhaseTelemetry ℕ
aloft ms altitude rate = record {
  on_ground = false;
  altitude_msl_ft = altitude;
  altitude_agl_ft = none;
  groundspeed_kt = 250;
  vertical_speed_fpm = rate;
  distance_to_dest_nm = none;
  distance_to_runway_nm = none;
  distance_from_dep_nm = none;
  active_procedure_kind = none;
  timestamp = record { ms = ms };
}

abbrev snapshots : List (TelemetrySnapshot ℕ)
snapshots = beacon_at 0 true SimState.running ∷ beacon_at 1000 true SimState.running ∷ []

assess_all-snapshots_example :
    All
      (λ a. needs_route a.phase ≡ false)
      (assess_all whole new (map (from_snapshot whole) snapshots))
assess_all-snapshots_example = assess_all-snapshots whole (λ a b h k. refl) snapshots

Run-Recalls_example :
    Recalls whole
      (aloft 1000 9000 0 ∷ aloft 0 9000 900 ∷ [])
      (evaluate whole (evaluate whole new (aloft 0 9000 900)).0 (aloft 1000 9000 0)).0
Run-Recalls_example =
    Run-Recalls whole (sample (sample begin (aloft 0 9000 900)) (aloft 1000 9000 0))

-- In cruise for long, with a climb that begins.
abbrev cruising : FlightPhaseEngine ℕ
cruising = record {
  current_phase = cruise;
  consecutive_ticks = 5;
  last_telemetry = some (aloft 0 9000 0);
  has_been_airborne = true;
}
