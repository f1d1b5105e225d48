-- ===== src/Sop/Engine/Order.antt =====
-- crates/fd-sop/src/engine.rs: no operation takes a step back. The definitions of the steps stay, a
-- verified step stays verified, and a step's stage never falls.
use mathlib.Core.Path.{subst}
use flightdeck_os.Base.{ℕ, ◌≤◌, ◌≡◌, refl, true, List, [], ◌∷◌, arith, Bool-cases, inl, inr}
use flightdeck_os.Base.Floats.{Float}
use flightdeck_os.Base.Texts.{String, str_eq}
use flightdeck_os.Core.Actions.{ActionId, ActionStatus}
use flightdeck_os.Core.Adapter.{AdapterError}
use flightdeck_os.Core.Telemetry.{TelemetrySnapshot}
use flightdeck_os.Sop.Engine.{
  StepDef, StepState, Step, StepStatus, pending, ready, waiting_for_verification, is_verified,
  FlowEngine, assign, report_step, report_steps, report_all, abort, recheck_flow_completion,
  report_outcomes,
}
use flightdeck_os.Sop.Engine.Process.{
  pass_pending, pass_step, pass_steps, start, process, after_loop, process_cases, start-steps,
}

-- How far a step has come; the three ends of a step are one stage.
abbrev pub stage : StepStatus → ℕ
stage pending = 0
stage ready = 1
stage waiting_for_verification = 2
stage _ = 3

pub record Later (before after : StepStatus) : Type 0 where
  pub stays_verified : is_verified before ≡ true → is_verified after ≡ true
  pub no_lower : stage before ≤ stage after

abbrev pub Evolves : {F : Type 0} → List (Step F) → List (Step F) → Type 0
Evolves [] [] = Unit {0}
Evolves ((def, st) ∷ xs) ((def', st') ∷ ys) =
    (def ≡ def') × Later st.status st'.status × Evolves xs ys
Evolves _ _ = ⊥

module _ {F : Type 0} where
  pub Evolves-refl : (xs : List (Step F)) → Evolves xs xs
  Evolves-refl [] = tt
  Evolves-refl ((def, st) ∷ xs) = (refl, ground arith, Evolves-refl xs)

  pub Evolves-trans : (xs ys zs : List (Step F)) → Evolves xs ys → Evolves ys zs → Evolves xs zs
  Evolves-trans [] [] [] h k = tt
  Evolves-trans ((d, s) ∷ xs) ((d', s') ∷ ys) ((d'', s'') ∷ zs) h k =
      (cc, ground arith, Evolves-trans xs ys zs h.2 k.2)
  Evolves-trans [] (y ∷ ys) zs h k = absurd h
  Evolves-trans (x ∷ xs) [] zs h k = absurd h
  Evolves-trans [] [] (z ∷ zs) h k = absurd k
  Evolves-trans (x ∷ xs) (y ∷ ys) [] h k = absurd k

  pub assign-Evolves :
      (id : String) (n : ActionId) (xs : List (Step F)) → Evolves xs (assign id n xs)
  unfolding assign
  assign-Evolves id n [] = tt
  assign-Evolves id n ((def, st) ∷ xs) = elim (Bool-cases (str_eq def.id id)) [
    | inl e ↦ rw e (refl, ground arith, Evolves-refl xs)
    | inr e ↦ rw e (refl, ground arith, assign-Evolves id n xs)
  ]

  pub abort-Evolves : (xs : List (Step F)) → Evolves xs (abort xs)
  abort-Evolves [] = tt
  abort-Evolves ((def, st) ∷ xs) = (refl, ground arith, abort-Evolves xs)

  report_steps-Evolves :
      (flow : String) (o : ActionId × ActionStatus AdapterError) (xs : List (Step F))
      → Evolves xs (report_steps flow o xs).0
  unfolding report_steps report_step
  report_steps-Evolves flow o [] = tt
  report_steps-Evolves flow (id, status) ((def, st) ∷ xs) =
      (ground arith, ground arith, report_steps-Evolves flow (id, status) xs)

  pub report_all-Evolves :
      (flow : String) (os : List (ActionId × ActionStatus AdapterError)) (xs : List (Step F))
      → Evolves xs (report_all flow os xs).0
  unfolding report_all
  report_all-Evolves flow [] xs = Evolves-refl xs
  report_all-Evolves flow (o ∷ os) xs =
      let ys = (report_steps flow o xs).0 in
      Evolves-trans xs ys _ (report_steps-Evolves flow o xs) (report_all-Evolves flow os ys)

  recheck-Evolves :
      (engine : FlowEngine F) → Evolves engine.steps (recheck_flow_completion engine).0.steps
  unfolding recheck_flow_completion
  recheck-Evolves engine = ground (arith, Evolves-refl engine.steps, abort-Evolves engine.steps)

  -- Reported outcomes keep the definitions of the steps and every verified step verified, and lower
  -- no step's stage.
  pub report_outcomes-Evolves :
      (engine : FlowEngine F) (os : List (ActionId × ActionStatus AdapterError))
      → Evolves engine.steps (report_outcomes engine os).0.steps
  unfolding report_outcomes
  report_outcomes-Evolves engine os =
      let reported = (report_all engine.flow.id os engine.steps).0 in
      Evolves-trans engine.steps reported _ (report_all-Evolves engine.flow.id os engine.steps)
        (recheck-Evolves (record engine { steps = reported }))

module _ {F : Type 0} (fl : Float F) (flow : String) (snap : TelemetrySnapshot F) where
  pass_step-Later :
      (before : List (Step F)) (def : StepDef F) (st : StepState)
      → Later st.status (pass_step fl flow snap before (def, st)).state.status
  unfolding pass_step pass_pending
  pass_step-Later before def st = ground arith

  pub pass_steps-Evolves :
      (before xs : List (Step F)) → Evolves xs (pass_steps fl flow snap before xs).0
  unfolding pass_steps
  pass_steps-Evolves before [] = tt
  pass_steps-Evolves before ((def, st) ∷ xs) =
      (refl, pass_step-Later before def st, pass_steps-Evolves before xs)

module _ {F : Type 0} (fl : Float F) where
  -- A pass keeps the definitions of the steps, keeps every verified step verified and lowers no
  -- step's stage.
  pub process-Evolves :
      (engine : FlowEngine F) (snap : TelemetrySnapshot F)
      → Evolves engine.steps (process fl engine snap).0.steps
  process-Evolves engine snap =
      process_cases fl (λ e. Evolves engine.steps e.steps) engine snap
        (λ _. Evolves-refl engine.steps)
        (λ _.
          let e = after_loop fl engine snap in
          Evolves-trans engine.steps e.steps _
            (subst (λ xs. Evolves xs e.steps) (start-steps fl engine)
              (pass_steps-Evolves fl engine.flow.id snap (start fl engine).0.steps
                (start fl engine).0.steps))
            (recheck-Evolves e))
