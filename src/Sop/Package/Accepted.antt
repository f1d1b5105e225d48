-- ===== src/Sop/Package/Accepted.antt =====
-- crates/fd-sop/src/package.rs, `resolve_flow`: it returns, and what a flow that it accepts has.
use mathlib.Core.Path.{subst}
use mathlib.Core.Option.{none-ne-some}
use flightdeck_os.Base.{
  ℕ, zero, suc, ◌+◌, ◌<◌, ◌≡◌, refl, sym, ap, ◌∙◌, Bool, true, false, ◌||◌, Option, none, some,
  List, [], ◌∷◌, Result, ok, err, length, get_elem?, any, is_empty, if◌then◌else◌, inl, inr, arith,
  if_true, if_false, Bool-cases, Option-cases, true_ne_false, eq_of_some, >>=-some, >>=-eq-some,
}
use flightdeck_os.Base.Floats.{Float}
use flightdeck_os.Base.Texts.{String, str_eq}
use flightdeck_os.Sop.Engine.{StepDef, FlowDefinition}
use flightdeck_os.Sop.Package.{
  RawStep, RawFlowDef, SopError, and_then, contains, resolve_step, resolve_steps, missing_in,
  missing_or, missing, accept, searched_flow, unless_missing, check_steps, resolve_flow, is_blank,
}
use flightdeck_os.Sop.Package.Cycles.{Search, position}
use flightdeck_os.Sop.Package.Frames.{Grounded}
use flightdeck_os.Sop.Package.Iteration.{Known}
use flightdeck_os.Sop.Package.Roots.{Decided, check_cycles-Decides}

-- What holds of the value of a result, if it has one.
Holds : {A E : Type 0} → (A → Type 0) → Result A E → Type 0
Holds P (ok a) = P a
Holds P (err e) = Unit

Holds-and_then :
    {A B E : Type 0} (P : A → Type 0) (Q : B → Type 0) (r : Result A E) (f : A → Result B E)
    → Holds P r
    → ((a : A) → P a → Holds Q (f a))
    → Holds Q (and_then r f)
unfolding Holds and_then
Holds-and_then P Q (ok a) f h k = k a h
Holds-and_then P Q (err e) f h k = tt

Holds-any : {A E : Type 0} (r : Result A E) → Holds (λ a. Unit) r
unfolding Holds
Holds-any (ok a) = tt
Holds-any (err e) = tt

Holds-ok : {A : Type 0} (E : Type 0) (P : A → Type 0) (a : A) → P a → Holds {E = E} P (ok a)
unfolding Holds
Holds-ok E P a h = h

Holds-value : {A : Type 0} (E : Type 0) (P : A → Type 0) (a : A) → Holds {E = E} P (ok a) → P a
unfolding Holds
Holds-value E P a h = h

Holds-err : {A E : Type 0} (P : A → Type 0) (e : E) → Holds P (err e)
unfolding Holds
Holds-err P e = tt

Holds-if :
    {A E : Type 0} (P : A → Type 0) (b : Bool) (r t : Result A E)
    → Holds P r
    → Holds P t
    → Holds P (if b then r else t)
Holds-if P true r t h k = h
Holds-if P false r t h k = k

-- A name that stands among the steps' identifiers has a position.
position-some :
    {F : Type 0} (steps : List (StepDef F)) (id : String) (ss : List (StepDef F))
    → any (λ s. str_eq s.id id) ss ≡ true
    → (b : ℕ) × (position steps id ss ≡ some b)
position-some steps id [] e = absurd (true_ne_false (sym e))
position-some steps id (s ∷ ss) e = elim (Bool-cases (str_eq s.id id)) [
  | inl c ↦ (0, if_true _ _ c)
  | inr c ↦
      let (b, q) =
        position-some steps id ss (ap (λ x. x || any (λ t. str_eq t.id id) ss) (sym c) ∙ e) in
      (b + 1, if_false _ _ c ∙ >>=-some _ q)
]

position-lt :
    {F : Type 0} (steps : List (StepDef F)) (id : String) (ss : List (StepDef F)) (b : ℕ)
    → position steps id ss ≡ some b
    → b < length ss
position-lt steps id [] b e = absurd (none-ne-some _ e)
position-lt steps id (s ∷ ss) b e = elim (Bool-cases (str_eq s.id id)) [
  | inl c ↦ let first : 0 ≡ b = eq_of_some (sym (if_true _ _ c) ∙ e) in omega (arith, first)
  | inr c ↦
      let (i, q, r) =
        >>=-eq-some (position steps id ss) (λ i. some (i + 1)) (sym (if_false _ _ c) ∙ e) in
      omega (arith, position-lt steps id ss i q, eq_of_some r)
]

missing_in-known :
    (seen deps : List String) (j : ℕ) (dep : String)
    → missing_in seen deps ≡ none
    → get_elem? deps j ≡ some dep
    → contains dep seen ≡ true
missing_in-known seen [] j dep n e = absurd (none-ne-some _ e)
missing_in-known seen (d ∷ deps) zero dep n e = elim (Bool-cases (contains d seen)) [
  | inl c ↦ subst (λ x. contains x seen ≡ true) (eq_of_some e) c
  | inr c ↦ absurd (none-ne-some _ (sym n ∙ if_false _ _ c))
]
missing_in-known seen (d ∷ deps) (suc j) dep n e = elim (Bool-cases (contains d seen)) [
  | inl c ↦ missing_in-known seen deps j dep (sym (if_true _ _ c) ∙ n) e
  | inr c ↦ absurd (none-ne-some _ (sym n ∙ if_false _ _ c))
]

missing_or-none :
    (id : String) (m : Option String) (rest : Option (String × String))
    → missing_or id m rest ≡ none
    → (m ≡ none) × (rest ≡ none)
missing_or-none id none rest e = (refl, e)
missing_or-none id (some dep) rest e = absurd (none-ne-some _ (sym e))

or_swap : (a b c : Bool) → ((a || b) || c) ≡ true → (b || (a || c)) ≡ true
or_swap true true c e = refl
or_swap true false c e = refl
or_swap false true c e = refl
or_swap false false c e = e

module _ {F : Type 0} where
  Named : String → StepDef F → Type 0
  Named id step = step.id ≡ id

  abbrev pub has_id : String → List (StepDef F) → Bool
  has_id id steps = any (λ s. str_eq s.id id) steps

  missing-known :
      (seen : List String) (steps : List (StepDef F)) (a : ℕ) (step : StepDef F) (j : ℕ)
      (dep : String)
      → missing seen steps ≡ none
      → get_elem? steps a ≡ some step
      → get_elem? step.depends_on j ≡ some dep
      → contains dep seen ≡ true
  unfolding missing
  missing-known seen [] a step j dep n e d = absurd (none-ne-some _ e)
  missing-known seen (s ∷ ss) zero step j dep n e d =
      missing_in-known seen s.depends_on j dep (missing_or-none s.id _ _ n).0
        (ap (λ t. get_elem? t.depends_on j) (eq_of_some e) ∙ d)
  missing-known seen (s ∷ ss) (suc a) step j dep n e d =
      missing-known seen ss a step j dep (missing_or-none s.id _ _ n).1 e d

  -- The identifiers seen are those seen before and those of the steps.
  abbrev pub Seen : List String → List (StepDef F) × List String → Type 0
  Seen seen (steps, seen') =
      (d : String) → contains d seen' ≡ true → (contains d seen || has_id d steps) ≡ true

  module _ (canon trim : String → String) (fl : Float F) where
    resolve_step-id :
        (flow_id : String) (raw : RawStep F)
        → Holds (Named raw.id) (resolve_step canon trim fl flow_id raw)
    unfolding resolve_step Named
    resolve_step-id flow_id raw =
        Holds-and_then (λ actor. Unit) (Named raw.id) _ _ (Holds-any _)
          (λ actor h. Holds-if (Named raw.id) (contains raw.id raw.depends_on) _ _ (Holds-err _ _) (
            Holds-if (Named raw.id) (is_blank canon trim raw.id) _ _ (Holds-err _ _) (
              Holds-and_then (λ kind. Unit) (Named raw.id) _ _ (Holds-any _)
                (λ kind h'. Holds-ok _ _ _ refl))))

    resolve_steps-Seen :
        (flow_id : String) (raws : List (RawStep F)) (seen : List String)
        → Holds (Seen seen) (resolve_steps canon trim fl flow_id seen raws)
    unfolding resolve_steps has_id Seen Named
    resolve_steps-Seen flow_id [] seen = Holds-ok _ _ _ (λ d e. ap (λ b. b || false) e)
    resolve_steps-Seen flow_id (rs ∷ raws) seen =
        Holds-if (Seen seen) (contains rs.id seen) _ _ (Holds-err _ _) (
          Holds-and_then (Named rs.id) (Seen seen) _ _ (resolve_step-id flow_id rs) (λ step i.
            Holds-and_then (Seen (rs.id ∷ seen)) (Seen seen) _ _
              (resolve_steps-Seen flow_id raws (rs.id ∷ seen))
              (λ r h. Holds-ok _ _ _ (λ d e.
                subst (λ id. (contains d seen || (str_eq id d || has_id d r.0)) ≡ true) (sym i)
                  (or_swap (str_eq rs.id d) (contains d seen) (has_id d r.0) (h d e))))))

  -- Where no dependency is missing, each is the identifier of a step.
  pub missing-Known :
      (steps : List (StepDef F)) (seen : List String)
      → Seen [] (steps, seen)
      → missing seen steps ≡ none
      → Known steps
  unfolding Known Seen has_id
  missing-Known steps seen h n a step j dep e d =
      let (b, q) =
        position-some steps dep steps (h dep (missing-known seen steps a step j dep n e d)) in
      (b, q, position-lt steps dep steps b q)

  -- The flow that a resolution accepts.
  abbrev pub IsFlow : Result (FlowDefinition F) SopError → Type 0
  IsFlow (ok flow) = (a : ℕ) → a < length flow.steps → Grounded flow.steps a
  IsFlow (err e) = Unit

  abbrev pub Returns : Option (Result (FlowDefinition F) SopError) → Type 0
  Returns r = (x : Result (FlowDefinition F) SopError) × (r ≡ some x) × IsFlow x

  module _ (canon trim : String → String) (fl : Float F) (raw : RawFlowDef F) where
    accept-Returns :
        (steps : List (StepDef F)) → Known steps → Returns (accept canon trim fl raw steps)
    accept-Returns steps known =
        let (x, e, d) = check_cycles-Decides steps known in
        (searched_flow canon trim fl raw steps x, >>=-some _ e, flow x d)
      where
        flow :
            (x : Result Search (List String))
            → Decided steps x
            → IsFlow (searched_flow canon trim fl raw steps x)
        flow (ok s) d = d
        flow (err ids) d = tt

    check_steps-Returns :
        (r : Result (List (StepDef F) × List String) SopError)
        → Holds (Seen []) r
        → Returns (check_steps canon trim fl raw r)
    check_steps-Returns (err e) h = (err e, refl, tt)
    check_steps-Returns (ok (steps, seen)) h = elim (Option-cases (missing seen steps)) [
      | inl n ↦
          let (x, e, d) = accept-Returns steps (missing-Known steps seen (Holds-value _ _ _ h) n) in
          (x, ap (unless_missing canon trim fl raw steps) n ∙ e, d)
      | inr (m, q) ↦ (_, ap (unless_missing canon trim fl raw steps) q, tt)
    ]

    -- The resolution of a flow returns, whatever the flow: it never panics, and the search for cycles
    -- ends. In a flow that it accepts no step is in a cycle: from none of its steps leads an endless
    -- chain of dependencies, by the identifiers that the steps depend on.
    pub resolve_flow-Returns : Returns (resolve_flow canon trim fl raw)
    unfolding resolve_flow
    resolve_flow-Returns =
        elim (Bool-cases (is_blank canon trim raw.id || is_blank canon trim raw.title)) [
          | inl c ↦ (_, if_true _ _ c, tt)
          | inr c ↦ elim (Bool-cases (is_empty raw.steps)) [
            | inl c' ↦ (_, if_false _ _ c ∙ if_true _ _ c', tt)
            | inr c' ↦
                let (x, e, d) =
                  check_steps-Returns (resolve_steps canon trim fl raw.id [] raw.steps)
                    (resolve_steps-Seen canon trim fl raw.id raw.steps []) in
                (x, if_false _ _ c ∙ (if_false _ _ c' ∙ e), d)
          ]
        ]
