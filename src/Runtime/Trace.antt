-- ===== src/Runtime/Trace.antt =====
-- crates/fd-runtime/src/trace.rs: the event vocabulary of the trace, and the sink's contract.
use flightdeck_os.Base.{ℕ, List, Result}
use flightdeck_os.Base.Texts.{String, str_append}
use flightdeck_os.Core.Actions.{
  ActionId, Actor, CockpitAction, ActionRejectionReason, ActionFailure,
}
use flightdeck_os.Core.Adapter.{AdapterError}
use flightdeck_os.Core.Delta.{DeltaField}
use flightdeck_os.Core.Events.{EventSeq, EventSource}
use flightdeck_os.Core.Phase.{FlightPhase, PhaseConfidence, Evidence}
use flightdeck_os.Core.Telemetry.{SimTimestamp, SimState}
use flightdeck_os.Sop.Engine.{StepFailure}

-- A `SessionId` is its `u64`. A failed step's reason is the failure that the
-- code prints.
pub data TraceEvent (F : Type 0) : Type 0 where
  session_start : EventSeq → ℕ → TraceEvent F
  session_end : EventSeq → TraceEvent F
  state_delta : EventSeq → SimTimestamp → EventSource → List DeltaField → TraceEvent F
  phase_change :
      EventSeq
      → SimTimestamp
      → FlightPhase
      → FlightPhase
      → PhaseConfidence
      → Evidence F
      → TraceEvent F
  sim_state_changed : EventSeq → SimTimestamp → SimState → SimState → TraceEvent F
  action_requested : EventSeq → SimTimestamp → CockpitAction → Actor → ActionId → TraceEvent F
  action_validated action_dispatched action_verified :
      EventSeq → SimTimestamp → ActionId → TraceEvent F
  action_rejected : EventSeq → SimTimestamp → ActionId → ActionRejectionReason → TraceEvent F
  action_failed : EventSeq → SimTimestamp → ActionId → ActionFailure AdapterError → TraceEvent F
  flow_started flow_completed flow_failed : EventSeq → SimTimestamp → String → TraceEvent F
  step_ready step_waiting_for_verification step_verified :
      EventSeq → SimTimestamp → String → String → TraceEvent F
  step_action_requested : EventSeq → SimTimestamp → String → String → CockpitAction → TraceEvent F
  step_failed : EventSeq → SimTimestamp → String → String → StepFailure → TraceEvent F
  mission_phase_changed : EventSeq → SimTimestamp → String → String → String → TraceEvent F
  mission_completed : EventSeq → SimTimestamp → TraceEvent F
  mission_failed : EventSeq → SimTimestamp → String → TraceEvent F

pub data TraceError : Type 0 where
  io serde corrupt : String → TraceError

-- `to_string`.
abbrev pub error_text : TraceError → String
error_text (io e) = str_append "trace io error: " e
error_text (serde e) = str_append "trace serialization error: " e
error_text (corrupt e) = str_append "trace corrupted: " e

-- The trait `TraceSink`, over the sink's own state `W`.
pub record TraceSink (F W : Type 0) : Type 0 where
  pub append : W → TraceEvent F → Result (Unit {0}) TraceError × W
  pub finish : W → Result (Unit {0}) TraceError

module _ {F : Type 0} where
  unfoldable pub seq : TraceEvent F → EventSeq
  seq (session_start n _) = n
  seq (session_end n) = n
  seq (state_delta n _ _ _) = n
  seq (phase_change n _ _ _ _ _) = n
  seq (sim_state_changed n _ _ _) = n
  seq (action_requested n _ _ _ _) = n
  seq (action_validated n _ _) = n
  seq (action_dispatched n _ _) = n
  seq (action_verified n _ _) = n
  seq (action_rejected n _ _ _) = n
  seq (action_failed n _ _ _) = n
  seq (flow_started n _ _) = n
  seq (flow_completed n _ _) = n
  seq (flow_failed n _ _) = n
  seq (step_ready n _ _ _) = n
  seq (step_waiting_for_verification n _ _ _) = n
  seq (step_verified n _ _ _) = n
  seq (step_action_requested n _ _ _ _) = n
  seq (step_failed n _ _ _ _) = n
  seq (mission_phase_changed n _ _ _ _) = n
  seq (mission_completed n _) = n
  seq (mission_failed n _ _) = n

  unfoldable pub set_seq : TraceEvent F → EventSeq → TraceEvent F
  set_seq (session_start _ i) n = session_start n i
  set_seq (session_end _) n = session_end n
  set_seq (state_delta _ t s c) n = state_delta n t s c
  set_seq (phase_change _ t a b c e) n = phase_change n t a b c e
  set_seq (sim_state_changed _ t a b) n = sim_state_changed n t a b
  set_seq (action_requested _ t a r i) n = action_requested n t a r i
  set_seq (action_validated _ t i) n = action_validated n t i
  set_seq (action_dispatched _ t i) n = action_dispatched n t i
  set_seq (action_verified _ t i) n = action_verified n t i
  set_seq (action_rejected _ t i r) n = action_rejected n t i r
  set_seq (action_failed _ t i f) n = action_failed n t i f
  set_seq (flow_started _ t f) n = flow_started n t f
  set_seq (flow_completed _ t f) n = flow_completed n t f
  set_seq (flow_failed _ t f) n = flow_failed n t f
  set_seq (step_ready _ t f s) n = step_ready n t f s
  set_seq (step_waiting_for_verification _ t f s) n = step_waiting_for_verification n t f s
  set_seq (step_verified _ t f s) n = step_verified n t f s
  set_seq (step_action_requested _ t f s a) n = step_action_requested n t f s a
  set_seq (step_failed _ t f s r) n = step_failed n t f s r
  set_seq (mission_phase_changed _ t a b d) n = mission_phase_changed n t a b d
  set_seq (mission_completed _ t) n = mission_completed n t
  set_seq (mission_failed _ t r) n = mission_failed n t r
