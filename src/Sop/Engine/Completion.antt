-- ===== src/Sop/Engine/Completion.antt =====
-- crates/fd-sop/src/engine.rs: what the status of a flow says of its steps.
use mathlib.Core.Path.{subst}
use flightdeck_os.Base.{
  ◌≡◌, ◌≢◌, refl, sym, ◌∙◌, ◌⊎◌, Bool, true, false, List, [], ◌∷◌, map, all, any, arith, Bool-cases,
  inl, inr, All, All-mono,
}
use flightdeck_os.Base.Floats.{Float}
use flightdeck_os.Base.Texts.{String, str_eq}
use flightdeck_os.Core.Actions.{ActionId, ActionStatus}
use flightdeck_os.Core.Adapter.{AdapterError}
use flightdeck_os.Core.Telemetry.{TelemetrySnapshot}
use flightdeck_os.Sop.Engine.{
  FlowDefinition, StepDef, Step, StepStatus, pending, verified, aborted, is_verified, is_failed,
  is_waiting, initial_state, FlowStatus, not_started, running, completed, failed, FlowEngine, new,
  assign, assign_action_id, report_step, report_steps, report_all, abort, recheck_flow_completion,
  report_outcomes,
}
use flightdeck_os.Sop.Engine.Process.{is_over, start, process, after_loop, process_cases}

abbrev pub is_terminal : StepStatus → Bool
is_terminal verified = true
is_terminal StepStatus.failed = true
is_terminal aborted = true
is_terminal _ = false

abbrev pub all_verified : {F : Type 0} → List (Step F) → Bool
all_verified steps = all (λ s. is_verified s.1.status) steps

abbrev pub any_failed : {F : Type 0} → List (Step F) → Bool
any_failed steps = any (λ s. is_failed s.1.status) steps

-- What each status of a flow means for its steps.
abbrev pub Fits : {F : Type 0} → FlowStatus → List (Step F) → Type 0
Fits not_started steps = All (λ s. s.1.status ≡ pending) steps
Fits running steps = (any_failed steps ≡ false) × (all_verified steps ≡ false)
Fits completed steps = all_verified steps ≡ true
Fits failed steps = (any_failed steps ≡ true) × All (λ s. is_terminal s.1.status ≡ true) steps

status_cases : (status : FlowStatus) → (status ≡ running) ⊎ (status ≡ running → ⊥)
status_cases running = inl refl
status_cases not_started = inr (λ e. cc)
status_cases completed = inr (λ e. cc)
status_cases failed = inr (λ e. cc)

false_ne_true : false ≡ true → ⊥
false_ne_true e = cc

-- A flow that has started is no longer `NotStarted`, and its status fits its steps.
pub record IsSound {F : Type 0} (engine : FlowEngine F) : Type 0 where
  pub begun : engine.started ≡ true → engine.status ≢ not_started
  pub idle : engine.started ≡ false → engine.status ≡ not_started
  pub fits : Fits engine.status engine.steps

started_of_running :
    {F : Type 0} (engine : FlowEngine F)
    → IsSound engine
    → engine.status ≡ running
    → engine.started ≡ true
started_of_running engine h e = elim (Bool-cases engine.started) [
  | inl t ↦ t
  | inr f ↦ cc (h.idle f)
]

module _ {F : Type 0} where
  new-IsSound : (flow : FlowDefinition F) → IsSound (new flow)
  unfolding new
  new-IsSound flow = record { begun = λ e. cc; idle = λ e. refl; fits = pending_steps flow.steps }
    where
      pending_steps :
          (defs : List (StepDef F))
          → All {A = Step F} (λ s. s.1.status ≡ pending) (map (λ def. (def, initial_state)) defs)
      pending_steps = elim [ [] ↦ tt | def ∷ (defs → ih) ↦ (refl, ih) ]

  abort_fails : (xs : List (Step F)) → any_failed xs ≡ true → any_failed (abort xs) ≡ true
  abort_fails [] h = h
  abort_fails ((def, st) ∷ xs) h = ground (arith, abort_fails xs)

  abort_ends : (xs : List (Step F)) → All (λ s. is_terminal s.1.status ≡ true) (abort xs)
  abort_ends [] = tt
  abort_ends ((def, st) ∷ xs) = (ground arith, abort_ends xs)

  -- Whatever the steps of a running flow are, the recheck gives the status that fits them.
  recheck_running :
      (engine : FlowEngine F)
      → engine.status ≡ running
      → Fits (recheck_flow_completion engine).0.status (recheck_flow_completion engine).0.steps
  unfolding recheck_flow_completion
  recheck_running engine e = ground (arith, abort_fails engine.steps, abort_ends engine.steps)

  -- Outcomes change no step that does not wait for one.
  report_steps_idle :
      (flow : String) (o : ActionId × ActionStatus AdapterError) (xs : List (Step F))
      → All (λ s. is_waiting s.1.status ≡ false) xs
      → report_steps flow o xs ≡ (xs, [])
  unfolding report_steps report_step
  report_steps_idle flow o [] h = refl
  report_steps_idle flow (id, status) ((def, st) ∷ xs) h =
      ground (arith, report_steps_idle flow (id, status) xs)

  report_all_idle :
      (flow : String) (os : List (ActionId × ActionStatus AdapterError)) (xs : List (Step F))
      → All (λ s. is_waiting s.1.status ≡ false) xs
      → report_all flow os xs ≡ (xs, [])
  unfolding report_all
  report_all_idle flow [] xs h = refl
  report_all_idle flow (o ∷ os) xs h =
      rw (report_steps_idle flow o xs h) (rw (report_all_idle flow os xs h) refl)

  not_waiting :
      (status : FlowStatus) (xs : List (Step F))
      → (status ≡ running → ⊥)
      → Fits status xs
      → All (λ s. is_waiting s.1.status ≡ false) xs
  not_waiting not_started xs r h = All-mono (λ s e. ground arith) xs h
  not_waiting running xs r h = absurd (r refl)
  not_waiting completed xs r h = verified_steps xs h
    where
      verified_steps :
          (xs : List (Step F))
          → all_verified xs ≡ true
          → All {A = Step F} (λ s. is_waiting s.1.status ≡ false) xs
      verified_steps = elim [
        | [] ↦ λ h. tt
        | s ∷ (xs → ih) ↦ λ h. (ground arith, ih (ground arith))
      ]
  not_waiting failed xs r h = All-mono (λ s e. ground arith) xs h.1

  recheck_begun :
      (engine : FlowEngine F)
      → engine.status ≢ not_started
      → (recheck_flow_completion engine).0.status ≢ not_started
  unfolding recheck_flow_completion
  recheck_begun engine h = ground arith

  recheck_started :
      (engine : FlowEngine F) → (recheck_flow_completion engine).0.started ≡ engine.started
  unfolding recheck_flow_completion
  recheck_started engine = ground arith

  recheck-IsSound :
      (engine : FlowEngine F)
      → engine.status ≡ running
      → engine.started ≡ true
      → IsSound (recheck_flow_completion engine).0
  recheck-IsSound engine e started = record {
    begun = λ _. recheck_begun engine (λ q. cc);
    idle = λ q. absurd (false_ne_true (sym (sym (recheck_started engine ∙ started) ∙ q)));
    fits = recheck_running engine e;
  }

  -- In a flow that does not run, outcomes change nothing.
  report_outcomes_idle :
      (engine : FlowEngine F) (os : List (ActionId × ActionStatus AdapterError))
      → IsSound engine
      → (engine.status ≡ running → ⊥)
      → (report_outcomes engine os).0 ≡ engine
  unfolding report_outcomes recheck_flow_completion
  report_outcomes_idle engine os h r = ground (
    arith,
    report_all_idle engine.flow.id os engine.steps
        (not_waiting engine.status engine.steps r h.fits),
  )

  report_outcomes-IsSound :
      (engine : FlowEngine F) (os : List (ActionId × ActionStatus AdapterError))
      → IsSound engine
      → IsSound (report_outcomes engine os).0
  unfolding report_outcomes
  report_outcomes-IsSound engine os h = elim (status_cases engine.status) [
    | inl e ↦ recheck-IsSound _ e (started_of_running engine h e)
    | inr r ↦ subst IsSound (sym (report_outcomes_idle engine os h r)) h
  ]

  assign_any :
      (id : String) (n : ActionId) (xs : List (Step F))
      → any_failed (assign id n xs) ≡ any_failed xs
  unfolding assign
  assign_any id n [] = refl
  assign_any id n ((def, st) ∷ xs) = ground (arith, assign_any id n xs)

  assign_all :
      (id : String) (n : ActionId) (xs : List (Step F))
      → all_verified (assign id n xs) ≡ all_verified xs
  unfolding assign
  assign_all id n [] = refl
  assign_all id n ((def, st) ∷ xs) = ground (arith, assign_all id n xs)

  assign_All :
      (Q : StepStatus → Type 0) (id : String) (n : ActionId) (xs : List (Step F))
      → All (λ s. Q s.1.status) xs
      → All {A = Step F} (λ s. Q s.1.status) (assign id n xs)
  unfolding assign
  assign_All Q id n [] h = tt
  assign_All Q id n ((def, st) ∷ xs) h = elim (Bool-cases (str_eq def.id id)) [
    | inl e ↦ rw e h
    | inr e ↦ rw e (h.0, assign_All Q id n xs h.1)
  ]

  assign-Fits :
      (status : FlowStatus) (id : String) (n : ActionId) (xs : List (Step F))
      → Fits status xs
      → Fits status (assign id n xs)
  assign-Fits not_started id n xs h = assign_All (λ st. st ≡ pending) id n xs h
  assign-Fits running id n xs h = (assign_any id n xs ∙ h.0, assign_all id n xs ∙ h.1)
  assign-Fits completed id n xs h = assign_all id n xs ∙ h
  assign-Fits failed id n xs h =
      (assign_any id n xs ∙ h.0, assign_All (λ st. is_terminal st ≡ true) id n xs h.1)

  assign_action_id-IsSound :
      (engine : FlowEngine F) (id : String) (n : ActionId)
      → IsSound engine
      → IsSound (assign_action_id engine id n)
  unfolding assign_action_id
  assign_action_id-IsSound engine id n h = record {
    begun = h.begun;
    idle = h.idle;
    fits = assign-Fits engine.status id n engine.steps h.fits;
  }

module _ {F : Type 0} (fl : Float F) where
  start_running :
      (engine : FlowEngine F)
      → IsSound engine
      → is_over engine.status ≡ false
      → ((start fl engine).0.status ≡ running) × ((start fl engine).0.started ≡ true)
  unfolding start
  start_running engine h e = ground (arith, h.begun)

  process-IsSound :
      (engine : FlowEngine F) (snap : TelemetrySnapshot F)
      → IsSound engine
      → IsSound (process fl engine snap).0
  process-IsSound engine snap h =
      process_cases fl IsSound engine snap (λ _. h)
        λ e.
          let (r, s) = start_running engine h e in recheck-IsSound (after_loop fl engine snap) r s

-- How a flow engine comes about: the engine's operations, in any order.
pub data Reach {F : Type 0} (fl : Float F) (flow : FlowDefinition F) : FlowEngine F → Type 0 where
  fresh : Reach fl flow (new flow)
  assigns :
      {engine : FlowEngine F}
      → Reach fl flow engine
      → (id : String) (n : ActionId) → Reach fl flow (assign_action_id engine id n)
  reports :
      {engine : FlowEngine F}
      → Reach fl flow engine
      → (os : List (ActionId × ActionStatus AdapterError))
      → Reach fl flow (report_outcomes engine os).0
  processes :
      {engine : FlowEngine F}
      → Reach fl flow engine
      → (snap : TelemetrySnapshot F) → Reach fl flow (process fl engine snap).0

-- In every flow engine that its operations can build, the status fits the steps: all steps are
-- pending before the start, a running flow has a step left and none failed, a flow is completed only
-- with every step verified, and a failed flow has a failed step and no step left active.
pub Reach-IsSound :
    {F : Type 0} {fl : Float F} {flow : FlowDefinition F} {engine : FlowEngine F}
    → Reach fl flow engine
    → IsSound engine
Reach-IsSound {flow} fresh = new-IsSound flow
Reach-IsSound (assigns {engine} r id n) = assign_action_id-IsSound engine id n (Reach-IsSound r)
Reach-IsSound (reports {engine} r os) = report_outcomes-IsSound engine os (Reach-IsSound r)
Reach-IsSound {fl} (processes {engine} r snap) = process-IsSound fl engine snap (Reach-IsSound r)
