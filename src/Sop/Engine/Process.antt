-- ===== src/Sop/Engine/Process.antt =====
-- crates/fd-sop/src/engine.rs, `process`: one pass over the flow against a snapshot.
use flightdeck_os.Base.{
  Bool, true, false, not, List, [], ◌∷◌, ◌++◌, all, ◌≡◌, arith, inl, inr, Bool-cases, if◌then◌else◌,
}
use flightdeck_os.Base.Floats.{Float}
use flightdeck_os.Base.Texts.{String, str_eq}
use flightdeck_os.Aircraft.Condition.{satisfies, evaluate}
use flightdeck_os.Core.Telemetry.{TelemetrySnapshot}
use flightdeck_os.Sop.Engine.{
  StepKind, observe, action, StepDef, StepState, Step, StepStatus, pending, ready,
  waiting_for_verification, verified, is_verified, SopEvent, flow_started, step_ready,
  step_waiting_for_verification, step_verified, step_action_requested, FlowActionRequest,
  FlowTickOutput, FlowStatus, running, completed, failed, FlowEngine, recheck_flow_completion,
}

-- What one step contributes to a pass.
pub record StepPass : Type 0 where
  pub state : StepState
  pub events : List SopEvent
  pub requests : List FlowActionRequest

module _ {F : Type 0} where
  -- Whether the first step of that name (`position_of`) was verified when the pass began.
  abbrev pub is_met : List (Step F) → String → Bool
  is_met [] name = false
  is_met ((def, st) ∷ steps) name =
      if str_eq def.id name then is_verified st.status else is_met steps name

  abbrev pub deps_ok : List (Step F) → StepDef F → Bool
  deps_ok steps def = all (is_met steps) def.depends_on

abbrev pub keep : StepState → StepPass
keep st = record { state = st; events = []; requests = [] }

module _ {F : Type 0} (fl : Float F) (flow : String) (snap : TelemetrySnapshot F) where
  -- A ready step whose condition holds is verified; otherwise it says once that it waits.
  unfoldable pub pass_observe : StepDef F → StepState → Bool → StepPass
  pass_observe def st true = record {
    state = record st { status = verified };
    events = step_verified flow def.id ∷ [];
    requests = [];
  }
  pass_observe def st false =
      if not st.waiting_emitted
      then record {
        state = record st { waiting_emitted = true };
        events = step_waiting_for_verification flow def.id ∷ [];
        requests = [];
      }
      else keep st

  abbrev pub pass_kind : StepKind F → StepDef F → StepState → StepPass
  pass_kind (observe condition) def st =
      pass_observe def st (satisfies (evaluate fl condition snap))
  pass_kind (action act) def st = record {
    state = record st { status = waiting_for_verification };
    events = step_action_requested flow def.id act ∷ [];
    requests = record { step_id = def.id; action = act } ∷ [];
  }

  unfoldable pub pass_ready : StepDef F → StepState → StepPass
  unfolding pass_observe
  pass_ready def st = pass_kind def.kind def st

  -- A pending step first becomes ready.
  unfoldable pub pass_pending : Bool → StepDef F → StepState → StepPass
  unfolding pass_ready
  pass_pending false def st = keep st
  pass_pending true def st =
      let p = pass_ready def (record st { status = ready }) in
      record p { events = step_ready flow def.id ∷ p.events }

  abbrev pub pass_status : StepStatus → Bool → StepDef F → StepState → StepPass
  pass_status pending ok def st = pass_pending ok def st
  pass_status ready ok def st = pass_ready def st
  pass_status _ ok def st = keep st

  unfoldable pub pass_step : List (Step F) → Step F → StepPass
  pass_step before (def, st) = pass_status st.status (deps_ok before def) def st

  -- The loop over the steps. `before` is the flow as the pass began: `verified` is read from it.
  unfoldable pub pass_steps : List (Step F) → List (Step F) → List (Step F) × FlowTickOutput
  pass_steps before [] = ([], record { events = []; requests = [] })
  pass_steps before ((def, st) ∷ steps) =
      let p = pass_step before (def, st) in
      let (steps', out) = pass_steps before steps in
      (
        (def, p.state) ∷ steps',
        record { events = p.events ++ out.events; requests = p.requests ++ out.requests },
      )

abbrev pub is_over : FlowStatus → Bool
is_over failed = true
is_over completed = true
is_over _ = false

module _ {F : Type 0} (fl : Float F) where
  unfoldable pub start : FlowEngine F → FlowEngine F × List SopEvent
  start engine =
      if not engine.started
      then (record engine { started = true; status = running }, flow_started engine.flow.id ∷ [])
      else (engine, [])

  unfoldable pub process : FlowEngine F → TelemetrySnapshot F → FlowEngine F × FlowTickOutput
  process engine snap =
      if is_over engine.status
      then (engine, record { events = []; requests = [] })
      else (let (begun, opening) = start engine in
          let (steps, out) = pass_steps fl engine.flow.id snap begun.steps begun.steps in
          let (engine', closing) = recheck_flow_completion (record begun { steps = steps }) in
          (
            engine',
            record { events = opening ++ (out.events ++ closing); requests = out.requests },
          ))

  -- The engine after the loop of a pass, before the recheck.
  abbrev pub after_loop : FlowEngine F → TelemetrySnapshot F → FlowEngine F
  after_loop engine snap =
      let begun = (start engine).0 in
      record begun { steps = (pass_steps fl engine.flow.id snap begun.steps begun.steps).0 }

  -- The rule for facts about a pass: it does nothing to a flow that is over, and otherwise ends in
  -- the recheck.
  pub process_cases :
      (P : FlowEngine F → Type 0) (engine : FlowEngine F) (snap : TelemetrySnapshot F)
      → (is_over engine.status ≡ true → P engine)
      → (is_over engine.status ≡ false → P (recheck_flow_completion (after_loop engine snap)).0)
      → P (process engine snap).0
  unfolding process
  process_cases P engine snap over on = elim (Bool-cases (is_over engine.status)) [
    | inl e ↦ rw e (over e)
    | inr e ↦ rw e (on e)
  ]

  pub start-steps : (engine : FlowEngine F) → (start engine).0.steps ≡ engine.steps
  unfolding start
  start-steps engine = ground arith
