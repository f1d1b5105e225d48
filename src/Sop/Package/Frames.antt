-- ===== src/Sop/Package/Frames.antt =====
-- crates/fd-sop/src/package.rs, `resolve_flow`: the invariant of the search for cycles, and what its
-- iterations cost.
use mathlib.Core.Path.{subst}
use mathlib.Core.Option.{none-ne-some}
use flightdeck_os.Base.{
  ℕ, zero, suc, ◌<◌, ◌≡◌, ◌≢◌, refl, sym, ap, ◌∙◌, Option, none, some, List, [], ◌∷◌, length,
  get_elem?, get_elem?-some_lt, ◌==◌, ◌⊎◌, inl, inr, ==_iff, Bool-cases, true_ne_false, eq_of_some,
}
use flightdeck_os.Base.Texts.{String}
use flightdeck_os.Sop.Engine.{StepDef}
use flightdeck_os.Sop.Package.Cycles.{Mark, set, Search, index_of}

pub set-same :
    {A : Type 0} (xs : List A) (i : ℕ) (m : A) {x : A}
    → get_elem? xs i ≡ some x
    → get_elem? (set xs i m) i ≡ some m
set-same [] i m e = absurd (none-ne-some _ e)
set-same (y ∷ ys) zero m e = refl
set-same (y ∷ ys) (suc i) m e = set-same ys i m e

pub set-other :
    {A : Type 0} (xs : List A) (i j : ℕ) (m : A) → j ≢ i → get_elem? (set xs i m) j ≡ get_elem? xs j
set-other [] i j m n = refl
set-other (y ∷ ys) zero zero m n = absurd (n refl)
set-other (y ∷ ys) zero (suc j) m n = refl
set-other (y ∷ ys) (suc i) zero m n = refl
set-other (y ∷ ys) (suc i) (suc j) m n = set-other ys i j m (λ e. n (ap suc e))

module _ {F : Type 0} (steps : List (StepDef F)) where
  -- The dependency numbered `j` of the step `a` is the step `b`.
  pub record Depends (a j b : ℕ) : Type 0 where
    pub step : StepDef F
    pub at : get_elem? steps a ≡ some step
    pub dep : String
    pub listed : get_elem? step.depends_on j ≡ some dep
    pub found : index_of steps dep ≡ some b

  -- A step all of whose dependencies are grounded: no chain of dependencies from it is endless.
  pub data Grounded : ℕ → Type 0 where
    grounded : {a : ℕ} → ((j b : ℕ) → Depends a j b → Grounded b) → Grounded a

  abbrev pub HasMark : List Mark → ℕ → Mark → Type 0
  HasMark marks a m = get_elem? marks a ≡ some m

  -- Every step that is done is grounded.
  abbrev pub DoneGrounded : List Mark → Type 0
  DoneGrounded marks = (a : ℕ) → HasMark marks a Mark.done → Grounded a

  -- The dependencies that a frame has followed are done, but for the one whose frame is above it.
  abbrev pub Followed : List Mark → Option ℕ → ℕ → ℕ → Type 0
  Followed marks child node i =
      (j b : ℕ) → j < i → Depends node j b → (HasMark marks b Mark.done) ⊎ (child ≡ some b)

  -- So for the frames of a stack; at the bottom, the root is done or its frame is above.
  abbrev pub Stacked : ℕ → List Mark → Option ℕ → List (ℕ × ℕ) → Type 0
  Stacked root marks child [] = HasMark marks root Mark.done ⊎ (child ≡ some root)
  Stacked root marks child ((node, i) ∷ rest) =
      Followed marks child node i × Stacked root marks (some node) rest

  -- The steps being visited are on the stack.
  abbrev pub OnStack : List (ℕ × ℕ) → ℕ → Type 0
  OnStack [] a = ⊥
  OnStack ((node, i) ∷ rest) a = (a ≡ node) ⊎ OnStack rest a

  -- A chain of dependencies from a step to another.
  pub data Reaches : ℕ → ℕ → Type 0 where
    directly : {a b : ℕ} (j : ℕ) → Depends a j b → Reaches a b
    onward : {a b c : ℕ} (j : ℕ) → Depends a j b → Reaches b c → Reaches a c

  -- Some step depends on itself, by a chain of dependencies.
  abbrev pub Cyclic : Type 0
  Cyclic = (a : ℕ) × Reaches a a

  -- Each frame's step depends on that of the frame above it.
  abbrev pub Linked : ℕ → List (ℕ × ℕ) → Type 0
  Linked node [] = Unit
  Linked node ((n, i) ∷ rest) = ((j : ℕ) × Depends n j node) × Linked n rest

  abbrev pub Links : List (ℕ × ℕ) → Type 0
  Links [] = Unit
  Links ((node, i) ∷ rest) = Linked node rest

  Reaches-append : {a b c : ℕ} → Reaches a b → (j : ℕ) → Depends b j c → Reaches a c
  Reaches-append (directly k e) j d = onward k e (directly j d)
  Reaches-append (onward k e r) j d = onward k e (Reaches-append r j d)

  -- A step on the stack reaches what the top depends on.
  pub Linked-Reaches :
      (frames : List (ℕ × ℕ)) (node i a j b : ℕ)
      → Linked node frames
      → OnStack ((node, i) ∷ frames) a
      → Depends node j b
      → Reaches a b
  Linked-Reaches [] node i a j b h (inl q) d = subst (λ n. Reaches n b) (sym q) (directly j d)
  Linked-Reaches ((n, k) ∷ rest) node i a j b h (inl q) d =
      subst (λ n. Reaches n b) (sym q) (directly j d)
  Linked-Reaches [] node i a j b h (inr o) d = absurd o
  Linked-Reaches ((n, k) ∷ rest) node i a j b h (inr o) d =
      Reaches-append (Linked-Reaches rest n k a h.0.0 node h.1 o h.0.1) j d

  abbrev pub Started : List (ℕ × ℕ) → Type 0
  Started [] = Unit
  Started ((node, i) ∷ rest) = (0 < i) × Started rest

  -- Only the top of the stack can be unvisited yet.
  abbrev pub Fresh : List Mark → List (ℕ × ℕ) → Type 0
  Fresh marks [] = Unit
  Fresh marks ((node, i) ∷ rest) = (i ≡ 0 → HasMark marks node Mark.unvisited) × Started rest

  abbrev pub InRange : List (ℕ × ℕ) → Type 0
  InRange [] = Unit
  InRange ((node, i) ∷ rest) = (node < length steps) × InRange rest

  -- Marks where what was done still is.
  abbrev pub Later : List Mark → List Mark → Type 0
  Later marks marks' = (a : ℕ) → HasMark marks a Mark.done → HasMark marks' a Mark.done

  pub record Searches (base : List Mark) (root : ℕ) (s : Search) : Type 0 where
    pub sound : DoneGrounded s.marks
    pub stacked : Stacked root s.marks none s.stack
    pub on_stack : (a : ℕ) → HasMark s.marks a Mark.visiting → OnStack s.stack a
    pub fresh : Fresh s.marks s.stack
    pub in_range : InRange s.stack
    pub linked : Links s.stack
    pub kept : Later base s.marks
    pub sized : length s.marks ≡ length steps

  pub Depends-next :
      {node j b : ℕ} {step : StepDef F} {dep : String} {next : ℕ}
      → get_elem? steps node ≡ some step
      → get_elem? step.depends_on j ≡ some dep
      → index_of steps dep ≡ some next
      → Depends node j b
      → b ≡ next
  Depends-next {node} {j} {b} {step} {dep} {next} e₁ e₂ e₃ d =
      let same_step : d.step ≡ step = eq_of_some (sym d.at ∙ e₁) in
      let same_dep : d.dep ≡ dep =
        eq_of_some (sym d.listed ∙ (ap (λ s. get_elem? s.depends_on j) same_step ∙ e₂)) in
      eq_of_some (sym d.found ∙ (ap (index_of steps) same_dep ∙ e₃))

  pub Depends-lt :
      {node j b : ℕ} {step : StepDef F}
      → get_elem? steps node ≡ some step
      → Depends node j b
      → j < length step.depends_on
  Depends-lt {node} {j} {b} {step} e d =
      get_elem?-some_lt step.depends_on j
        (sym (ap (λ s. get_elem? s.depends_on j) (eq_of_some (sym d.at ∙ e))) ∙ d.listed)

  pub Stacked-Later :
      (root : ℕ) (marks marks' : List Mark) (frames : List (ℕ × ℕ)) (child : Option ℕ)
      → Later marks marks'
      → Stacked root marks child frames
      → Stacked root marks' child frames
  Stacked-Later root marks marks' [] child f (inl d) = inl (f root d)
  Stacked-Later root marks marks' [] child f (inr c) = inr c
  Stacked-Later root marks marks' ((node, i) ∷ rest) child f (g, h) = (
    (λ j b l d. elim (g j b l d) [ inl x ↦ inl (f b x) | inr c ↦ inr c ]),
    Stacked-Later root marks marks' rest (some node) f h,
  )

  -- The frame above is gone once its step is done.
  pub Stacked-pop :
      (root : ℕ) (marks : List Mark) (frames : List (ℕ × ℕ)) (node : ℕ)
      → HasMark marks node Mark.done
      → Stacked root marks (some node) frames
      → Stacked root marks none frames
  Stacked-pop root marks [] node d (inl r) = inl r
  Stacked-pop root marks [] node d (inr c) =
      inl (subst (λ n. HasMark marks n Mark.done) (eq_of_some c) d)
  Stacked-pop root marks ((n, i) ∷ rest) node d (g, h) = (
    (λ j b l e. elim (g j b l e) [
      | inl x ↦ inl x
      | inr c ↦ inl (subst (λ n. HasMark marks n Mark.done) (eq_of_some c) d)
    ]),
    h,
  )

  -- Marking a step that is not done keeps what is done.
  pub Later-set :
      (marks : List Mark) (i : ℕ) (m old : Mark)
      → HasMark marks i old
      → (old ≢ Mark.done) ⊎ (m ≡ Mark.done)
      → Later marks (set marks i m)
  Later-set marks i m old e c a d = elim (Bool-cases (a == i)) [
    | inl q ↦ elim c [
      | inl n ↦
          let same : a ≡ i = (==_iff a i).0 q in
          absurd (n (eq_of_some (sym e ∙ subst (λ k. HasMark marks k Mark.done) same d)))
      | inr f ↦
          let same : a ≡ i = (==_iff a i).0 q in
          subst (λ k. HasMark (set marks i m) k Mark.done) (sym same)
            (set-same marks i m e ∙ ap some f)
    ]
    | inr q ↦ set-other marks i a m (λ r. true_ne_false (sym ((==_iff a i).1 r) ∙ q)) ∙ d
  ]

  -- A mark after `set`: the new one, or an old one elsewhere.
  pub set-cases :
      (marks : List Mark) (i a : ℕ) (m old found : Mark)
      → HasMark marks i old
      → HasMark (set marks i m) a found
      → ((a ≡ i) × (found ≡ m)) ⊎ ((a ≢ i) × HasMark marks a found)
  set-cases marks i a m old found e h = elim (Bool-cases (a == i)) [
    | inl q ↦
        let same : a ≡ i = (==_iff a i).0 q in
        inl (
          same,
          eq_of_some
              (sym (subst (λ k. HasMark (set marks i m) k found) same h) ∙ set-same marks i m e),
        )
    | inr q ↦
        let differ : a ≢ i = λ r. true_ne_false (sym ((==_iff a i).1 r) ∙ q) in
        inr (differ, sym (set-other marks i a m differ) ∙ h)
  ]
