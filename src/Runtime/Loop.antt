-- ===== src/Runtime/Loop.antt =====
-- crates/fd-runtime/src/runtime.rs: the runtime loop over an adapter with the state `S` and a trace
-- sink with the state `W`. The outer `none` of an operation is a panic.
pub mod Sequence
pub mod Poison
pub mod Flow
use flightdeck_os.Base.{
  ℕ, ◌+◌, Bool, true, false, not, Option, none, some, List, [], ◌∷◌, ◌++◌, map, ◌>>=◌, unwrap_or,
  Result, ok, err, if◌then◌else◌, length,
}
use flightdeck_os.Base.Floats.{Float}
use flightdeck_os.Base.Texts.{String}
use flightdeck_os.Core.Actions.{ActionCatalog, ActionId, Actor, CockpitAction}
use flightdeck_os.Core.Adapter.{SimulatorAdapter, AdapterError, not_connected}
use flightdeck_os.Core.Events.{EventSource, placeholder}
use flightdeck_os.Core.Telemetry.{SimTimestamp, SimState, state_eq, TelemetrySnapshot}
use flightdeck_os.Runtime.Executor.{ActionExecutor, Status, submit, commit, take_completed}
use flightdeck_os.Runtime.Executor.Advance.{advance}
use flightdeck_os.Runtime.Ingest.{ingest, should_evaluate_phase}
use flightdeck_os.Runtime.PhaseTracker.{PhaseTracker}
use flightdeck_os.Runtime.Session.{Session, with_id, take_seq}
use flightdeck_os.Runtime.Trace.{
  TraceEvent, TraceSink, TraceError, corrupt, error_text, set_seq, session_start, session_end,
}
use flightdeck_os.Sop.Engine.{
  FlowEngine, FlowDefinition, FlowActionRequest, SopEvent, report_outcomes, assign_action_id,
}
use flightdeck_os.Sop.Engine.Process.{process}

pub data RuntimeError : Type 0 where
  adapter_error : AdapterError → RuntimeError
  trace_error : TraceError → RuntimeError
  poisoned : String → RuntimeError

pub record TickStats : Type 0 where
  pub snapshots : ℕ  -- u64
  pub events : ℕ  -- u64

pub record Runtime (F S W : Type 0) : Type 0 where
  pub adapter : S
  pub session : Session
  pub phase : PhaseTracker F
  pub executor : ActionExecutor F
  pub catalog : ActionCatalog F
  pub trace : W
  pub last : Option (TelemetrySnapshot F)
  pub flows : Option (FlowEngine F)
  pub flow_outcomes : List (ActionId × Status)
  pub poisoned : Option TraceError

abbrev pub new : {F S W : Type 0} → S → W → ℕ → ActionCatalog F → ℕ → Runtime F S W
new ad sink session_id catalog deadline = record {
  adapter = ad;
  session = with_id session_id;
  phase = flightdeck_os.Runtime.PhaseTracker.new;
  executor = flightdeck_os.Runtime.Executor.new deadline;
  catalog = catalog;
  trace = sink;
  last = none;
  flows = none;
  flow_outcomes = [];
  poisoned = none;
}

-- `sop_event_to_trace`.
unfoldable pub sop_event_to_trace : {F : Type 0} → SopEvent → SimTimestamp → TraceEvent F
sop_event_to_trace (SopEvent.flow_started flow) ts = TraceEvent.flow_started placeholder ts flow
sop_event_to_trace (SopEvent.step_ready flow step) ts =
    TraceEvent.step_ready placeholder ts flow step
sop_event_to_trace (SopEvent.step_waiting_for_verification flow step) ts =
    TraceEvent.step_waiting_for_verification placeholder ts flow step
sop_event_to_trace (SopEvent.step_action_requested flow step action) ts =
    TraceEvent.step_action_requested placeholder ts flow step action
sop_event_to_trace (SopEvent.step_verified flow step) ts =
    TraceEvent.step_verified placeholder ts flow step
sop_event_to_trace (SopEvent.step_failed flow step reason) ts =
    TraceEvent.step_failed placeholder ts flow step reason
sop_event_to_trace (SopEvent.flow_completed flow) ts = TraceEvent.flow_completed placeholder ts flow
sop_event_to_trace (SopEvent.flow_failed flow) ts = TraceEvent.flow_failed placeholder ts flow

-- The loop over the requests of a flow pass: each is staged and its id noted in the flow.
module _ {F : Type 0} (ts : SimTimestamp) where
  unfoldable pub stage_requests :
      List FlowActionRequest
      → Session
      → ActionExecutor F
      → FlowEngine F
      → Option (List (TraceEvent F) × Session × ActionExecutor F × FlowEngine F)
  stage_requests [] session executor flow = some ([], session, executor, flow)
  stage_requests (req ∷ reqs) session executor flow = do
    (seq, session') ← take_seq session
    (id, event, executor') ← submit executor req.action Actor.runtime ts seq
    (events, session'', executor'', flow') ←
        stage_requests reqs session' executor' (assign_action_id flow req.step_id id)
    some (event ∷ events, session'', executor'', flow')

-- `phase_paused`.
abbrev pub phase_paused : {F : Type 0} → Option (TelemetrySnapshot F) → Bool
phase_paused none = false
phase_paused (some last) = state_eq last.sim_timing.state SimState.paused

-- Steps 1 to 3 of a tick, for one snapshot.
module _ {F S W : Type 0} (fl : Float F) (ad : SimulatorAdapter F S) where
  unfoldable pub phase_pass :
      Runtime F S W → TelemetrySnapshot F → List (TraceEvent F) × PhaseTracker F
  phase_pass rt snapshot =
      if should_evaluate_phase snapshot (phase_paused rt.last)
      then (let (event, phase) = flightdeck_os.Runtime.PhaseTracker.process fl rt.phase snapshot in
          (elim event [ none ↦ [] | some e ↦ e ∷ [] ], phase))
      else ([], rt.phase)

  -- Step 3b, when a flow is active.
  unfoldable pub flow_pass :
      Option (FlowEngine F)
      → Runtime F S W
      → TelemetrySnapshot F
      → Option (List (TraceEvent F) × Runtime F S W)
  flow_pass none rt snapshot = some ([], rt)
  flow_pass (some flow) rt snapshot = do
    let ts = snapshot.timestamp
    let (flow1, reports) = report_outcomes flow rt.flow_outcomes
    let (flow2, out) = process fl flow1 snapshot
    (requested, session, executor, flow3) ←
        stage_requests ts out.requests rt.session rt.executor flow2
    some (
      map (λ e. sop_event_to_trace e ts) (reports ++ out.events) ++ requested,
      record rt { session = session; executor = executor; flows = some flow3 },
    )

  unfoldable pub snapshot_pass :
      EventSource
      → Runtime F S W
      → TelemetrySnapshot F
      → Option (List (TraceEvent F) × Runtime F S W)
  unfolding phase_pass
  snapshot_pass source rt snapshot = do
    let ingested = ingest fl rt.last snapshot source
    let (changed, phase) = phase_pass rt snapshot
    (acted, executor, adapter') ← advance ad rt.catalog snapshot rt.executor rt.adapter
    let acting = record rt { phase = phase; executor = executor; adapter = adapter' }
    (flown, after) ← flow_pass acting.flows acting snapshot
    some (ingested ++ (changed ++ (acted ++ flown)), record after { last = some snapshot })

  -- The loop over the polled snapshots.
  unfoldable pub snapshot_passes :
      EventSource
      → Runtime F S W
      → List (TelemetrySnapshot F)
      → Option (List (TraceEvent F) × Runtime F S W)
  snapshot_passes source rt [] = some ([], rt)
  snapshot_passes source rt (snapshot ∷ snapshots) = do
    (events, rt') ← snapshot_pass source rt snapshot
    (rest, rt'') ← snapshot_passes source rt' snapshots
    some (events ++ rest, rt'')

module _ {F S W : Type 0} where
  unfoldable pub poison : Runtime F S W → TraceError → Runtime F S W
  poison rt e = record rt { poisoned = some (corrupt (error_text e)) }

  -- `check_poisoned`, in front of the rest of an operation.
  abbrev pub unless_poisoned :
      {A : Type 0}
      → Runtime F S W
      → Option (Result A RuntimeError × Runtime F S W)
      → Option (Result A RuntimeError × Runtime F S W)
  unless_poisoned rt rest = elim rt.poisoned [
    | some e ↦ some (err (RuntimeError.poisoned (error_text e)), rt)
    | none ↦ rest
  ]

  unfoldable pub start_flow :
      Runtime F S W → FlowDefinition F → Result (Unit {0}) RuntimeError × Runtime F S W
  start_flow rt flow = elim rt.poisoned [
    | some e ↦ (err (RuntimeError.poisoned (error_text e)), rt)
    | none ↦ elim rt.flows [
      | some _ ↦ (err (RuntimeError.poisoned "a flow is already active"), rt)
      | none ↦ (ok tt, record rt { flows = some (flightdeck_os.Sop.Engine.new flow) })
    ]
  ]

  abbrev pub take_completed_actions : Runtime F S W → List (ActionId × Status) × Runtime F S W
  take_completed_actions rt =
      let (drained, executor) = take_completed rt.executor in
      (drained, record rt { executor = executor })

  -- Step 5, after a trace that succeeded.
  unfoldable pub conclude : Runtime F S W → Runtime F S W
  conclude rt =
      let executor = commit rt.executor in
      let (drained, executor') = take_completed executor in
      elim rt.flows [
        | none ↦ record rt { executor = executor }
        | some _ ↦ record rt { executor = executor'; flow_outcomes = drained }
      ]

module _ {F S W : Type 0} (fl : Float F) (ad : SimulatorAdapter F S) (sink : TraceSink F W) where
  -- One event under a number: the append, and the poisoning of a failure.
  unfoldable pub append :
      Runtime F S W → TraceEvent F → Result (Unit {0}) RuntimeError × Runtime F S W
  unfolding poison
  append rt event =
      let (result, w) = sink.append rt.trace event in
      let written = record rt { trace = w } in
      elim result [ ok _ ↦ (ok tt, written) | err e ↦ (err (trace_error e), poison written e) ]

  unfoldable pub start : Runtime F S W → Option (Result (Unit {0}) RuntimeError × Runtime F S W)
  start rt = unless_poisoned rt do
    let (result, s) = ad.connect rt.adapter
    let connected = record rt { adapter = s }
    elim result [
      | err e ↦ some (err (adapter_error e), connected)
      | ok _ ↦ do
        (seq, session) ← take_seq connected.session
        some (append (record connected { session = session }) (session_start seq session.id))
    ]

  unfoldable pub submit_action :
      Runtime F S W
      → CockpitAction
      → Actor
      → SimTimestamp
      → Option (Result ActionId RuntimeError × Runtime F S W)
  submit_action rt action actor at = unless_poisoned rt do
    (seq, session) ← take_seq rt.session
    (id, event, executor) ← submit rt.executor action actor at seq
    let (result, rt') = append (record rt { session = session; executor = executor }) event
    some (elim result [
      | err e ↦ (err e, rt')
      | ok _ ↦ (ok id, record rt' { executor = commit rt'.executor })
    ])

  -- Step 4: the buffered events under their final numbers, up to the first failure.
  unfoldable pub append_events :
      Runtime F S W → List (TraceEvent F) → Option (Result ℕ RuntimeError × Runtime F S W)
  append_events rt [] = some (ok 0, rt)
  append_events rt (event ∷ events) = do
    (seq, session) ← take_seq rt.session
    let (result, rt') = append (record rt { session = session }) (set_seq event seq)
    let later = append_events rt' events
    elim result [
      | err e ↦ some (err e, rt')
      | ok _ ↦ do (rest, rt'') ← later; some (elim rest [ err e ↦ err e | ok n ↦ ok (1 + n) ], rt'')
    ]

  -- A tick from the poll on.
  unfoldable pub tick_polled :
      EventSource
      → Runtime F S W
      → List (TelemetrySnapshot F)
      → Option (Result TickStats RuntimeError × Runtime F S W)
  tick_polled source rt snapshots = do
    (events, rt') ← snapshot_passes fl ad source rt snapshots
    (result, rt'') ← append_events rt' events
    some (elim result [
      | err e ↦ (err e, rt'')
      | ok n ↦ (ok (record { snapshots = length snapshots; events = n }), conclude rt'')
    ])

  unfoldable pub tick :
      Runtime F S W → EventSource → Option (Result TickStats RuntimeError × Runtime F S W)
  tick rt source = unless_poisoned rt (
      if not (ad.is_connected rt.adapter)
      then some (err (adapter_error not_connected), rt)
      else (let (result, s) = ad.poll rt.adapter in
          let polled = record rt { adapter = s } in
          elim result [
            | err e ↦ some (err (adapter_error e), polled)
            | ok snapshots ↦ tick_polled source polled snapshots
          ]))

  unfoldable pub finish : Runtime F S W → Option (Result (Unit {0}) RuntimeError × Runtime F S W)
  finish rt = unless_poisoned rt do
    (seq, session) ← take_seq rt.session
    let (result, rt') = append (record rt { session = session }) (session_end seq)
    some (elim result [
      | err e ↦ (err e, rt')
      | ok _ ↦ elim (sink.finish rt'.trace) [
        | err e ↦ (err (trace_error e), rt')
        | ok _ ↦ (ok tt, rt')
      ]
    ])
