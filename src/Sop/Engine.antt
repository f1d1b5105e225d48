-- ===== src/Sop/Engine.antt =====
-- crates/fd-sop/src/engine.rs: the flow engine's state and the report of action outcomes. The two parallel vectors of a flow, its step
-- definitions and their states, are built together by `new` and never resized: one list of pairs.
pub mod Process
pub mod Order
pub mod Completion
pub mod Dependencies
use flightdeck_os.Base.{
  ◌≡◌, Bool, true, false, not, ◌&&◌, ◌||◌, Option, none, some, List, [], ◌∷◌, ◌++◌, map, all, any,
  find, if◌then◌else◌, ◌==◌,
}
use flightdeck_os.Base.Floats.{Float}
use flightdeck_os.Base.Texts.{String, str_eq}
use flightdeck_os.Aircraft.Condition.{Condition}
use flightdeck_os.Core.Actions.{
  ActionId, CockpitAction, ActionStatus, ActionFailure, ActionRejectionReason,
}
use flightdeck_os.Core.Adapter.{AdapterError}
use flightdeck_os.Core.Telemetry.{TelemetrySnapshot}

pub data Role : Type 0 where
  captain first_officer user : Role

pub data StepKind (F : Type 0) : Type 0 where
  observe : Condition F → StepKind F
  action : CockpitAction → StepKind F

pub record StepDef (F : Type 0) : Type 0 where
  pub id : String
  pub actor : Role
  pub depends_on : List String
  pub kind : StepKind F

pub record FlowDefinition (F : Type 0) : Type 0 where
  pub id : String
  pub title : String
  pub scope_note : String
  pub steps : List (StepDef F)

-- The reason of a failed step, which the code prints.
pub data StepFailure : Type 0 where
  action_failed : ActionFailure AdapterError → StepFailure
  action_rejected : ActionRejectionReason → StepFailure
  timed_out : StepFailure

pub data SopEvent : Type 0 where
  flow_started flow_completed flow_failed : String → SopEvent
  step_ready step_waiting_for_verification step_verified : String → String → SopEvent
  step_action_requested : String → String → CockpitAction → SopEvent
  step_failed : String → String → StepFailure → SopEvent

pub record FlowActionRequest : Type 0 where
  pub step_id : String
  pub action : CockpitAction

pub record FlowTickOutput : Type 0 where
  pub events : List SopEvent
  pub requests : List FlowActionRequest

pub data StepStatus : Type 0 where
  pending ready waiting_for_verification verified failed aborted : StepStatus

pub data FlowStatus : Type 0 where
  not_started running completed failed : FlowStatus

pub record StepState : Type 0 where
  pub status : StepStatus
  pub action_id : Option ActionId
  pub waiting_emitted : Bool

abbrev pub Step : Type 0 → Type 0
Step F = StepDef F × StepState

pub record FlowEngine (F : Type 0) : Type 0 where
  pub flow : FlowDefinition F
  pub steps : List (Step F)
  pub status : FlowStatus
  pub started : Bool

abbrev pub initial_state : StepState
initial_state = record { status = pending; action_id = none; waiting_emitted = false }

abbrev pub is_verified : StepStatus → Bool
is_verified verified = true
is_verified _ = false

abbrev pub is_failed : StepStatus → Bool
is_failed StepStatus.failed = true
is_failed _ = false

abbrev pub aborted_if_active : StepStatus → StepStatus
aborted_if_active StepStatus.failed = StepStatus.failed
aborted_if_active verified = verified
aborted_if_active _ = aborted

abbrev pub id_matches : Option ActionId → ActionId → Bool
id_matches none id = false
id_matches (some i) id = i == id

-- What an outcome makes of a step that waits for it.
unfoldable pub settle : String → String → ActionStatus AdapterError → StepStatus × List SopEvent
settle flow step ActionStatus.verified = (verified, step_verified flow step ∷ [])
settle flow step (ActionStatus.failed f) =
    (StepStatus.failed, step_failed flow step (action_failed f) ∷ [])
settle flow step (ActionStatus.rejected r) =
    (StepStatus.failed, step_failed flow step (action_rejected r) ∷ [])
settle flow step ActionStatus.timed_out = (StepStatus.failed, step_failed flow step timed_out ∷ [])
settle flow step _ = (waiting_for_verification, [])

abbrev pub is_waiting : StepStatus → Bool
is_waiting waiting_for_verification = true
is_waiting _ = false

module _ {F : Type 0} where
  unfoldable pub new : FlowDefinition F → FlowEngine F
  new flow = record {
    flow = flow;
    steps = map (λ def. (def, initial_state)) flow.steps;
    status = not_started;
    started = false;
  }

  -- The first step of that name is given the id.
  unfoldable pub assign : String → ActionId → List (Step F) → List (Step F)
  assign step_id id [] = []
  assign step_id id ((def, st) ∷ steps) =
      if str_eq def.id step_id
      then (def, record st { action_id = some id }) ∷ steps
      else (def, st) ∷ assign step_id id steps

  unfoldable pub assign_action_id : FlowEngine F → String → ActionId → FlowEngine F
  assign_action_id engine step_id id = record engine { steps = assign step_id id engine.steps }

  unfoldable pub report_step :
      String → ActionId × ActionStatus AdapterError → Step F → Step F × List SopEvent
  unfolding settle
  report_step flow (id, status) (def, st) =
      if id_matches st.action_id id && is_waiting st.status
      then (let (status', events) = settle flow def.id status in
          ((def, record st { status = status' }), events))
      else ((def, st), [])

  -- The inner loop: one outcome against every step.
  unfoldable pub report_steps :
      String → ActionId × ActionStatus AdapterError → List (Step F) → List (Step F) × List SopEvent
  report_steps flow outcome [] = ([], [])
  report_steps flow outcome (step ∷ steps) =
      let (step', events) = report_step flow outcome step in
      let (steps', rest) = report_steps flow outcome steps in (step' ∷ steps', events ++ rest)

  unfoldable pub report_all :
      String
      → List (ActionId × ActionStatus AdapterError)
      → List (Step F)
      → List (Step F) × List SopEvent
  report_all flow [] steps = (steps, [])
  report_all flow (outcome ∷ outcomes) steps =
      let (steps', events) = report_steps flow outcome steps in
      let (steps'', rest) = report_all flow outcomes steps' in (steps'', events ++ rest)

abbrev pub is_running : FlowStatus → Bool
is_running running = true
is_running _ = false

module _ {F : Type 0} where
  abbrev pub abort : List (Step F) → List (Step F)
  abort [] = []
  abort ((def, st) ∷ steps) =
      (def, record st { status = aborted_if_active st.status }) ∷ abort steps

  unfoldable pub recheck_flow_completion : FlowEngine F → FlowEngine F × List SopEvent
  recheck_flow_completion engine =
      if not (is_running engine.status)
      then (engine, [])
      else if any (λ s. is_failed s.1.status) engine.steps
      then (
        record engine { status = FlowStatus.failed; steps = abort engine.steps },
        flow_failed engine.flow.id ∷ [],
      )
      else if all (λ s. is_verified s.1.status) engine.steps
      then (record engine { status = completed }, flow_completed engine.flow.id ∷ [])
      else (engine, [])

  unfoldable pub report_outcomes :
      FlowEngine F → List (ActionId × ActionStatus AdapterError) → FlowEngine F × List SopEvent
  report_outcomes engine outcomes =
      let (steps, events) = report_all engine.flow.id outcomes engine.steps in
      let (engine', rest) = recheck_flow_completion (record engine { steps = steps }) in
      (engine', events ++ rest)
