-- ===== src/Sop/Engine/Dependencies.antt =====
-- crates/fd-sop/src/engine.rs: a step begins only when every step it depends on is verified.
use flightdeck_os.Base.{
  ◌≡◌, refl, Bool, true, false, List, [], ◌∷◌, map, all, arith, Bool-cases, inl, inr, All, All-mono,
  sym, ◌∙◌, if_true, if_false, All-append, Any, Any-mono,
}
use flightdeck_os.Base.Floats.{Float}
use flightdeck_os.Base.Texts.{String, str_eq, str_eq_iff}
use flightdeck_os.Core.Actions.{ActionId, ActionStatus}
use flightdeck_os.Core.Adapter.{AdapterError}
use flightdeck_os.Core.Telemetry.{TelemetrySnapshot}
use flightdeck_os.Sop.Engine.{
  is_verified, FlowDefinition, StepDef, action, StepState, Step, StepStatus, ready,
  waiting_for_verification, verified, failed, initial_state, FlowActionRequest, FlowEngine, new,
  assign, assign_action_id, report_step, report_steps, report_all, abort, recheck_flow_completion,
  report_outcomes,
}
use flightdeck_os.Sop.Engine.Process.{
  is_met, deps_ok, pass_observe, pass_ready, pass_pending, pass_step, pass_steps, start, process,
  after_loop, process_cases, start-steps,
}
use flightdeck_os.Sop.Engine.Order.{
  Evolves, report_all-Evolves, assign-Evolves, abort-Evolves, pass_steps-Evolves,
}
use flightdeck_os.Sop.Engine.Completion.{Reach, fresh, assigns, reports, processes}

-- A step that has left `Pending` and was not aborted.
abbrev pub is_begun : StepStatus → Bool
is_begun ready = true
is_begun waiting_for_verification = true
is_begun verified = true
is_begun failed = true
is_begun _ = false

-- Every begun step of `xs` has its dependencies met in `before`.
abbrev Respects : {F : Type 0} → List (Step F) → List (Step F) → Type 0
Respects before xs = All (λ s. is_begun s.1.status ≡ true → deps_ok before s.0 ≡ true) xs

is_verified_eq : (s : StepStatus) → is_verified s ≡ true → s ≡ verified
is_verified_eq s h = ground (arith, h)

-- A step of the flow has this id, and its status is verified.
abbrev pub IsVerifiedIn : {F : Type 0} → List (Step F) → String → Type 0
IsVerifiedIn xs name = Any (λ s. (s.0.id ≡ name) × (s.1.status ≡ verified)) xs

-- Each dependency of the step is verified in the flow.
abbrev pub AreVerified : {F : Type 0} → List (Step F) → StepDef F → Type 0
AreVerified xs def = All (IsVerifiedIn xs) def.depends_on

-- The request is for the action of this step, whose dependencies are verified.
abbrev pub Asks : {F : Type 0} → List (Step F) → StepDef F → FlowActionRequest → Type 0
Asks xs def r = (def.id ≡ r.step_id) × (def.kind ≡ action r.action) × AreVerified xs def

module _ {F : Type 0} where
  is_met_mono :
      (xs ys : List (Step F)) (name : String)
      → Evolves xs ys
      → is_met xs name ≡ true
      → is_met ys name ≡ true
  is_met_mono [] ys name e h = cc
  is_met_mono (x ∷ xs) [] name e h = absurd e
  is_met_mono ((def, st) ∷ xs) ((def', st') ∷ ys) name e h =
      ground (arith, is_met_mono xs ys name, e.0, e.1.stays_verified, e.2)

  is_met-verified :
      (xs : List (Step F)) (name : String) → is_met xs name ≡ true → IsVerifiedIn xs name
  is_met-verified [] name h = cc
  is_met-verified ((def, st) ∷ xs) name h = elim (Bool-cases (str_eq def.id name)) [
    | inl e ↦ inl ((str_eq_iff def.id name).0 e, is_verified_eq st.status (sym (if_true _ _ e) ∙ h))
    | inr e ↦ inr (is_met-verified xs name (sym (if_false _ _ e) ∙ h))
  ]

  all-verified :
      (xs : List (Step F)) (names : List String)
      → all (is_met xs) names ≡ true
      → All (IsVerifiedIn xs) names
  all-verified xs [] h = tt
  all-verified xs (n ∷ names) h =
      (is_met-verified xs n (ground (arith, h)), all-verified xs names (ground (arith, h)))

  all_met_mono :
      (xs ys : List (Step F)) (names : List String)
      → Evolves xs ys
      → all (is_met xs) names ≡ true
      → all (is_met ys) names ≡ true
  all_met_mono xs ys [] e h = refl
  all_met_mono xs ys (n ∷ names) e h =
      ground (arith, is_met_mono xs ys n e, all_met_mono xs ys names e)

  Respects-mono : (xs ys zs : List (Step F)) → Evolves xs ys → Respects xs zs → Respects ys zs
  Respects-mono xs ys zs e h = All-mono (λ s k b. all_met_mono xs ys s.0.depends_on e (k b)) zs h

  new-Respects :
      (before : List (Step F)) (defs : List (StepDef F))
      → Respects before (map (λ def. (def, initial_state)) defs)
  new-Respects before [] = tt
  new-Respects before (def ∷ defs) = ((λ e. cc), new-Respects before defs)

  assign-Respects :
      (before : List (Step F)) (id : String) (n : ActionId) (xs : List (Step F))
      → Respects before xs
      → Respects before (assign id n xs)
  unfolding assign
  assign-Respects before id n [] h = tt
  assign-Respects before id n ((def, st) ∷ xs) h = elim (Bool-cases (str_eq def.id id)) [
    | inl e ↦ rw e h
    | inr e ↦ rw e (h.0, assign-Respects before id n xs h.1)
  ]

  abort-Respects : (before xs : List (Step F)) → Respects before xs → Respects before (abort xs)
  abort-Respects before [] h = tt
  abort-Respects before ((def, st) ∷ xs) h = (ground (arith, h.0), abort-Respects before xs h.1)

  report_steps-Respects :
      (before : List (Step F)) (flow : String) (o : ActionId × ActionStatus AdapterError)
      → (xs : List (Step F)) → Respects before xs
      → Respects before (report_steps flow o xs).0
  unfolding report_steps report_step
  report_steps-Respects before flow o [] h = tt
  report_steps-Respects before flow (id, status) ((def, st) ∷ xs) h =
      (ground (arith, h.0), report_steps-Respects before flow (id, status) xs h.1)

  report_all-Respects :
      (before : List (Step F)) (flow : String) (os : List (ActionId × ActionStatus AdapterError))
      → (xs : List (Step F)) → Respects before xs
      → Respects before (report_all flow os xs).0
  unfolding report_all
  report_all-Respects before flow [] xs h = h
  report_all-Respects before flow (o ∷ os) xs h =
      report_all-Respects before flow os (report_steps flow o xs).0
        (report_steps-Respects before flow o xs h)

-- In the flow `engine`, every begun step has its dependencies met.
abbrev InOrder : {F : Type 0} → FlowEngine F → Type 0
InOrder engine = Respects engine.steps engine.steps

module _ {F : Type 0} where
  recheck-InOrder :
      (engine : FlowEngine F) → InOrder engine → InOrder (recheck_flow_completion engine).0
  unfolding recheck_flow_completion
  recheck-InOrder engine h =
      let xs = engine.steps in
      ground (
        arith,
        h,
        Respects-mono xs (abort xs) (abort xs) (abort-Evolves xs) (abort-Respects xs xs h),
      )

  report_outcomes-InOrder :
      (engine : FlowEngine F) (os : List (ActionId × ActionStatus AdapterError))
      → InOrder engine
      → InOrder (report_outcomes engine os).0
  unfolding report_outcomes
  report_outcomes-InOrder engine os h =
      let ys = (report_all engine.flow.id os engine.steps).0 in
      recheck-InOrder (record engine { steps = ys })
        (Respects-mono engine.steps ys ys (report_all-Evolves engine.flow.id os engine.steps)
          (report_all-Respects engine.steps engine.flow.id os engine.steps h))

  assign-InOrder :
      (engine : FlowEngine F) (id : String) (n : ActionId)
      → InOrder engine
      → InOrder (assign_action_id engine id n)
  unfolding assign_action_id
  assign-InOrder engine id n h =
      let ys = assign id n engine.steps in
      Respects-mono engine.steps ys ys (assign-Evolves id n engine.steps)
        (assign-Respects engine.steps id n engine.steps h)

-- The step a request comes from: it has this id and action, and its dependencies are met.
abbrev Own : {F : Type 0} → List (Step F) → StepDef F → FlowActionRequest → Type 0
Own before def r = (def.id ≡ r.step_id) × (def.kind ≡ action r.action) × (deps_ok before def ≡ true)

-- The request comes from one of the steps `xs` of the flow `before`.
abbrev IsDue : {F : Type 0} → List (Step F) → List (Step F) → FlowActionRequest → Type 0
IsDue before xs r = Any (λ s. Own before s.0 r) xs

module _ {F : Type 0} (fl : Float F) (flow : String) (snap : TelemetrySnapshot F) where
  pass_step-Respects :
      (before : List (Step F)) (def : StepDef F) (st : StepState)
      → (is_begun st.status ≡ true → deps_ok before def ≡ true)
      → is_begun (pass_step fl flow snap before (def, st)).state.status ≡ true
      → deps_ok before def ≡ true
  unfolding pass_step pass_pending
  pass_step-Respects before def st h b = ground (arith, h)

  pass_steps-Respects :
      (before xs : List (Step F))
      → Respects before xs
      → Respects before (pass_steps fl flow snap before xs).0
  unfolding pass_steps
  pass_steps-Respects before [] h = tt
  pass_steps-Respects before ((def, st) ∷ xs) h =
      (pass_step-Respects before def st h.0, pass_steps-Respects before xs h.1)

  kind-Own :
      (before : List (Step F)) (def : StepDef F) (st : StepState)
      → deps_ok before def ≡ true
      → All (Own before def) (pass_ready fl flow snap def st).requests
  unfolding pass_ready pass_observe
  kind-Own before def st ok = ground arith

  pass_step-Own :
      (before : List (Step F)) (def : StepDef F) (st : StepState)
      → (is_begun st.status ≡ true → deps_ok before def ≡ true)
      → All (Own before def) (pass_step fl flow snap before (def, st)).requests
  unfolding pass_step pass_pending
  pass_step-Own before def st h = ground (arith, h, kind-Own before def)

  pass_steps-IsDue :
      (before xs : List (Step F))
      → Respects before xs
      → All (IsDue before xs) (pass_steps fl flow snap before xs).1.requests
  unfolding pass_steps
  pass_steps-IsDue before [] h = tt
  pass_steps-IsDue before ((def, st) ∷ xs) h =
      let own = (pass_step fl flow snap before (def, st)).requests in
      let rest = (pass_steps fl flow snap before xs).1.requests in
      All-append (IsDue before ((def, st) ∷ xs)) own rest
        (All-mono (λ r o. inl o) own (pass_step-Own before def st h.0))
        (All-mono (λ r o. inr o) rest (pass_steps-IsDue before xs h.1))

module _ {F : Type 0} (fl : Float F) where
  start-InOrder : (engine : FlowEngine F) → InOrder engine → InOrder (start fl engine).0
  start-InOrder engine h = rw (start-steps fl engine) h

  process-InOrder :
      (engine : FlowEngine F) (snap : TelemetrySnapshot F)
      → InOrder engine
      → InOrder (process fl engine snap).0
  process-InOrder engine snap h =
      process_cases fl InOrder engine snap (λ _. h)
        λ _.
          let xs = (start fl engine).0.steps in
          let ys = (after_loop fl engine snap).steps in
          let id = engine.flow.id in
          recheck-InOrder (after_loop fl engine snap) (
            Respects-mono xs ys ys (pass_steps-Evolves fl id snap xs xs)
              (pass_steps-Respects fl id snap xs xs (start-InOrder engine h)))

  Reach-InOrder :
      {flow : FlowDefinition F} {engine : FlowEngine F} → Reach fl flow engine → InOrder engine
  unfolding new
  Reach-InOrder {flow} fresh = new-Respects (new flow).steps flow.steps
  Reach-InOrder (assigns {engine} r id n) = assign-InOrder engine id n (Reach-InOrder r)
  Reach-InOrder (reports {engine} r os) = report_outcomes-InOrder engine os (Reach-InOrder r)
  Reach-InOrder (processes {engine} r snap) = process-InOrder engine snap (Reach-InOrder r)

  process-IsDue :
      (engine : FlowEngine F) (snap : TelemetrySnapshot F)
      → InOrder engine
      → All (IsDue engine.steps engine.steps) (process fl engine snap).1.requests
  unfolding process start
  process-IsDue engine snap h =
      ground (arith, pass_steps-IsDue fl engine.flow.id snap engine.steps engine.steps h)

  -- In every flow engine that its operations can build, each step that was begun and not aborted has
  -- all its dependencies verified: for each of their names a step of the flow has it as its id and is
  -- verified. Each action that a pass then requests is the action of one of the flow's steps whose
  -- dependencies are all verified.
  pub process-requests :
      {flow : FlowDefinition F} {engine : FlowEngine F}
      → Reach fl flow engine
      → (snap : TelemetrySnapshot F)
      → All (λ s. is_begun s.1.status ≡ true → AreVerified engine.steps s.0) engine.steps
        × All
            (λ r. Any (λ s. Asks engine.steps s.0 r) engine.steps)
            (process fl engine snap).1.requests
  process-requests {engine} r snap =
      let h = Reach-InOrder r in
      let xs = engine.steps in
      (
        All-mono (λ s k b. all-verified xs s.0.depends_on (k b)) xs h,
        All-mono
            (λ q.
              Any-mono {P = λ s. Own xs s.0 q} {Q = λ s. Asks xs s.0 q}
                (λ s o. (o.0, o.1, all-verified xs s.0.depends_on o.2)) xs)
            (process fl engine snap).1.requests (process-IsDue engine snap h),
      )
