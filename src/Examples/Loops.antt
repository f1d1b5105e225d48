-- ===== src/Examples/Loops.antt =====
-- The runtime loop on concrete inputs.
use flightdeck_os.Base.{
  true, ℕ, false, Option, none, some, List, [], ◌∷◌, ◌≡◌, refl, Result, ok, err,
}
use flightdeck_os.Core.Events.{EventSource}
use flightdeck_os.Core.Phase.{from_snapshot}
use flightdeck_os.Core.Telemetry.{SimState}
use flightdeck_os.Runtime.PhaseTracker.{PhaseTracker, IsSynced, Reports, process-Reports}
use flightdeck_os.Runtime.Executor.{submit, commit, take_completed}
use flightdeck_os.Runtime.Executor.Advance.{advance, rounds, pass}
use flightdeck_os.Sop.Engine.{report_outcomes, report_all, recheck_flow_completion}
use flightdeck_os.Sop.Engine.Process.{process, pass_steps, pass_step, pass_pending, pass_ready}
use flightdeck_os.Runtime.Replay.{ReplayStep, snapshot}
use flightdeck_os.Runtime.Session.{take_seq}
use flightdeck_os.Runtime.Trace.{TraceSink, TraceError, seq, set_seq}
use flightdeck_os.Runtime.Loop.{
  Runtime, RuntimeError, trace_error, TickStats, new, start, tick, start_flow, append, poison,
  tick_polled, snapshot_passes, snapshot_pass, phase_pass, flow_pass, stage_requests, append_events,
  conclude, sop_event_to_trace,
}
use flightdeck_os.Runtime.Loop.Poison.{Halted, tick-Halted}
use flightdeck_os.Runtime.Loop.Sequence.{
  Reach, fresh, starts, starts_flow, ticks, IsOrdered, Reach-IsOrdered,
}
use flightdeck_os.Examples.Data.{whole, scripted, Script, beacon_catalog, beacon_at, beacon_on}
use flightdeck_os.Examples.Flows.{beacon_flow}

-- A sink that keeps the numbers of its events, the latest first.
abbrev list_sink : TraceSink ℕ (List ℕ)
list_sink = record { append = λ w event. (ok tt, seq event ∷ w); finish = λ w. ok tt }

abbrev full_sink : TraceSink ℕ (List ℕ)
full_sink = record { append = λ w event. (err (TraceError.io "full"), w); finish = λ w. ok tt }

-- Nothing to poll.
abbrev fresh_runtime : Runtime ℕ Script (List ℕ)
fresh_runtime = new [] [] 0 beacon_catalog 150

-- With a flow.
abbrev flow_runtime : Runtime ℕ Script (List ℕ)
flow_runtime = (start_flow fresh_runtime beacon_flow).1

abbrev begun_runtime : Runtime ℕ Script (List ℕ)
begun_runtime = record flow_runtime { session = record { id = 0; next_seq = 1 }; trace = 0 ∷ [] }

abbrev nothing : Result TickStats RuntimeError
nothing = ok (record { snapshots = 0; events = 0 })

begins : start whole scripted list_sink flow_runtime ≡ some (ok tt, begun_runtime)
unfolding start append start_flow take_seq seq
begins = refl

ticked :
    tick whole scripted list_sink begun_runtime EventSource.replay ≡ some (nothing, begun_runtime)
unfolding tick tick_polled snapshot_passes append_events conclude commit take_completed start_flow
ticked = refl

begun-Reach : Reach whole scripted list_sink (λ w. w) (λ w event. refl) beacon_catalog begun_runtime
begun-Reach =
    ticks (starts (starts_flow (fresh [] [] refl 0 150) beacon_flow) begins) EventSource.replay
      ticked

Reach-IsOrdered_example :
    IsOrdered whole scripted list_sink (λ w. w) (λ w event. refl) begun_runtime
Reach-IsOrdered_example =
    Reach-IsOrdered whole scripted list_sink (λ w. w) (λ w event. refl) begun-Reach

-- A sink that is full, and an action that cannot be traced: no tick has appended anything yet.
abbrev acting_runtime : Runtime ℕ Script (List ℕ)
acting_runtime = new ((beacon_at 0 false SimState.running ∷ []) ∷ []) [] 0 beacon_catalog 150

abbrev tracker : PhaseTracker ℕ
tracker = flightdeck_os.Runtime.PhaseTracker.new

process-Reports_example :
    let (event, tracker') =
      flightdeck_os.Runtime.PhaseTracker.process whole tracker
        (beacon_at 0 false SimState.running) in
    IsSynced tracker' × Reports event tracker.engine.current_phase tracker'.engine.current_phase
process-Reports_example = process-Reports whole (beacon_at 0 false SimState.running) tracker refl

-- The first snapshot of a flow yields events, which a full sink refuses.
abbrev doomed_runtime : Runtime ℕ Script (List ℕ)
doomed_runtime = (start_flow acting_runtime beacon_flow).1

abbrev failed_tick : Option (Result TickStats RuntimeError × Runtime ℕ Script (List ℕ))
failed_tick = tick whole scripted full_sink doomed_runtime EventSource.replay

abbrev runtime_of :
    {A : Type 0} → Option (A × Runtime ℕ Script (List ℕ)) → Runtime ℕ Script (List ℕ)
runtime_of none = doomed_runtime
runtime_of (some (result, rt)) = rt

fails : failed_tick ≡ some (err (trace_error (TraceError.io "full")), runtime_of failed_tick)
unfolding tick tick_polled snapshot_passes snapshot_pass phase_pass advance rounds pass flow_pass
    process start stage_requests append_events append poison start_flow take_seq submit set_seq
    pass_steps pass_step pass_pending recheck_flow_completion report_outcomes sop_event_to_trace
    flightdeck_os.Sop.Engine.new flightdeck_os.Sop.Engine.Process.start report_all
    flightdeck_os.Runtime.Ingest.ingest flightdeck_os.Runtime.PhaseTracker.process
    flightdeck_os.Runtime.PhaseTracker.reported flightdeck_os.Core.Phase.evaluate
    flightdeck_os.Core.Phase.is_teleport flightdeck_os.Core.Phase.evaluate_steady
    flightdeck_os.Core.Phase.hysteresis flightdeck_os.Core.Phase.infer_raw_phase from_snapshot
    flightdeck_os.Core.Phase.infer_on_ground
fails = refl

tick-Halted_example :
    Halted whole scripted full_sink "trace corrupted: trace io error: full" (runtime_of failed_tick)
tick-Halted_example =
    tick-Halted whole scripted full_sink doomed_runtime (runtime_of failed_tick) EventSource.replay
      (TraceError.io "full") fails

abbrev beacon_script : List (ReplayStep ℕ)
beacon_script =
    snapshot (beacon_at 0 false SimState.running)
    ∷ ReplayStep.action (record { ms = 500 }) beacon_on
    ∷ snapshot (beacon_at 1000 true SimState.running)
    ∷ []
