-- ===== src/Runtime/Ingest.antt =====
-- crates/fd-runtime/src/ingest.rs: the state events between two snapshots.
use flightdeck_os.Base.{
  Bool, true, false, not, Option, none, some, List, [], ◌∷◌, ◌++◌, is_empty, if◌then◌else◌,
}
use flightdeck_os.Base.Floats.{Float}
use flightdeck_os.Core.Delta.{diff}
use flightdeck_os.Core.Events.{EventSource, placeholder}
use flightdeck_os.Core.Telemetry.{SimState, state_eq, TelemetrySnapshot}
use flightdeck_os.Runtime.Trace.{TraceEvent, sim_state_changed, state_delta}

module _ {F : Type 0} (fl : Float F) where
  unfoldable pub ingest :
      Option (TelemetrySnapshot F) → TelemetrySnapshot F → EventSource → List (TraceEvent F)
  ingest none next source = []
  ingest (some p) next source =
      let from = p.sim_timing.state in
      let to = next.sim_timing.state in
      let changed = diff fl p next in
      (if state_eq from to then [] else sim_state_changed placeholder next.timestamp from to ∷ [])
      ++ (if is_empty changed
          then []
          else state_delta placeholder next.timestamp source changed ∷ [])

abbrev pub should_evaluate : SimState → Bool → Bool
should_evaluate SimState.running prev_paused = true
should_evaluate SimState.paused prev_paused = false
should_evaluate SimState.unknown prev_paused = not prev_paused

abbrev pub should_evaluate_phase : {F : Type 0} → TelemetrySnapshot F → Bool → Bool
should_evaluate_phase next prev_paused = should_evaluate next.sim_timing.state prev_paused
