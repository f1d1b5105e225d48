-- ===== src/Sop/Package/Iteration.antt =====
-- crates/fd-sop/src/package.rs, `resolve_flow`: one iteration of the search for cycles.
use mathlib.Core.Path.{subst}
use mathlib.Core.Option.{none-ne-some}
use flightdeck_os.Base.{
  ℕ, ◌+◌, ◌-◌, ◌≤◌, ◌<◌, ◌≡◌, refl, sym, ap, ◌∙◌, Option, none, some, List, [], ◌∷◌, Result, ok,
  err, length, get_elem?, get_elem?-lt, get_elem?-some_lt, ltb, ◌==◌, if◌then◌else◌, ◌⊎◌, inl, inr,
  arith, ==_iff, ltb_iff, if_true, if_false, Bool-cases, true_ne_false, >>=-some,
}
use flightdeck_os.Base.Texts.{String}
use flightdeck_os.Sop.Engine.{StepDef}
use flightdeck_os.Sop.Package.Cycles.{
  Mark, is_visiting, set, Search, index_of, leave, follow, proceed, Searched,
}
use flightdeck_os.Sop.Package.Cost.{
  stack_cost, open_cost, left, open_cost-set, width-at, length-set,
}
use flightdeck_os.Sop.Package.Frames.{
  Linked, Links, Cyclic, Linked-Reaches, Grounded, grounded, Depends, Searches, set-same, HasMark,
  DoneGrounded, Followed, Stacked, OnStack, Started, Fresh, InRange, Depends-next, Depends-lt,
  Later, Stacked-Later, Stacked-pop, Later-set, set-cases,
}

module _ {F : Type 0} (steps : List (StepDef F)) where
  -- Each dependency is the identifier of a step.
  unfoldable pub Known : Type 0
  Known =
      (a : ℕ) (step : StepDef F) (j : ℕ) (dep : String)
      → get_elem? steps a ≡ some step
      → get_elem? step.depends_on j ≡ some dep
      → (b : ℕ) × (index_of steps dep ≡ some b) × (b < length steps)

  -- The marks before the loop from a root.
  module _ (base : List Mark) where
    -- What an iteration leads to, with less than `bound` left to do.
    abbrev pub Next : ℕ → ℕ → Result Search (List String) → Type 0
    Next root bound (ok s) = Searches steps base root s × (left steps s < bound)
    Next root bound (err ids) = Cyclic steps

    abbrev pub Leads : ℕ → ℕ → Searched steps → Type 0
    Leads root bound r = (x : Result Search (List String)) × (r ≡ some x) × Next root bound x

    -- The state of an iteration once its node is marked.
    pub record Proceeds (root : ℕ) (s : Search) (step : StepDef F) (node i : ℕ)
        (rest : List (ℕ × ℕ)) : Type 0 where
      pub at : get_elem? steps node ≡ some step
      pub marked : (m : Mark) × HasMark steps s.marks node m
      pub sound : DoneGrounded steps s.marks
      pub followed : Followed steps s.marks none node i
      pub stacked : Stacked steps root s.marks (some node) rest
      pub on_stack :
          (a : ℕ) → HasMark steps s.marks a Mark.visiting → OnStack steps ((node, i) ∷ rest) a
      pub started : Started steps rest
      pub in_range : InRange steps rest
      pub linked : Linked steps node rest
      pub kept : Later steps base s.marks
      pub sized : length s.marks ≡ length steps

    -- What is left to do from there.
    abbrev pub to_do : Search → StepDef F → ℕ → List (ℕ × ℕ) → ℕ
    to_do s step i rest =
        stack_cost steps rest + open_cost steps steps s.marks + (length step.depends_on - i + 1)

    leave-Searches :
        (root : ℕ) (s : Search) (step : StepDef F) (node i : ℕ) (rest : List (ℕ × ℕ))
        → Proceeds root s step node i rest
        → length step.depends_on ≤ i
        → Searches steps base root (leave steps s node rest)
    leave-Searches root s step node i rest h l =
        let (old, e) = h.marked in
        let later = Later-set steps s.marks node Mark.done old e (inr refl) in
        let at_node = set-same s.marks node Mark.done e in
        record {
          sound = λ a d. elim (set-cases steps s.marks node a Mark.done old Mark.done e d) [
            | inl (q, _) ↦ subst (Grounded steps) (sym q) (
                grounded (λ j b dep.
                  elim (h.followed j b (omega (arith, l, Depends-lt steps h.at dep)) dep) [
                    | inl done ↦ h.sound b done
                    | inr c ↦ absurd (none-ne-some _ c)
                  ]))
            | inr (_, d') ↦ h.sound a d'
          ];
          stacked = Stacked-pop steps root (set s.marks node Mark.done) rest node at_node (
              Stacked-Later steps root s.marks (set s.marks node Mark.done) rest (some node) later
                h.stacked);
          on_stack = λ a v. elim (set-cases steps s.marks node a Mark.done old Mark.visiting e v) [
            | inl (_, q) ↦ absurd (true_ne_false (ap is_visiting q))
            | inr (n, v') ↦ elim (h.on_stack a v') [ inl q ↦ absurd (n q) | inr x ↦ x ]
          ];
          fresh = fresh rest h.started;
          in_range = h.in_range;
          linked = links rest h.linked;
          kept = λ a d. later a (h.kept a d);
          sized = length-set steps s.marks node Mark.done ∙ h.sized;
        }
      where
        links : (frames : List (ℕ × ℕ)) → Linked steps node frames → Links steps frames
        links [] x = tt
        links ((n, k) ∷ r) (d, x) = x

        fresh :
            (frames : List (ℕ × ℕ))
            → Started steps frames
            → Fresh steps (set s.marks node Mark.done) frames
        fresh [] x = tt
        fresh ((n, k) ∷ r) (x, y) = ((λ z. absurd (omega (arith, x, z))), y)

    -- One more dependency, the step `next`, is followed.
    follow_one :
        (root : ℕ) (s : Search) (step : StepDef F) (node i : ℕ) (rest : List (ℕ × ℕ))
        → Proceeds root s step node i rest
        → (dep : String) (next : ℕ) (child : Option ℕ) → get_elem? step.depends_on i ≡ some dep
        → index_of steps dep ≡ some next
        → HasMark steps s.marks next Mark.done ⊎ (child ≡ some next)
        → Followed steps s.marks child node (i + 1)
    follow_one root s step node i rest h dep next child ed en c j b l d =
        elim (Bool-cases (j == i)) [
          | inl q ↦
              let same : j ≡ i = (==_iff j i).0 q in
              let to_next : b ≡ next =
                Depends-next steps h.at ed en (subst (λ k. Depends steps node k b) same d) in
              elim c [
                | inl done ↦ inl (subst (λ n. HasMark steps s.marks n Mark.done) (sym to_next) done)
                | inr e ↦ inr (e ∙ ap some (sym to_next))
              ]
          | inr q ↦
              let before : j < i = ground (arith, l, q) in
              elim (h.followed j b before d) [
                | inl done ↦ inl done
                | inr e ↦ absurd (none-ne-some _ e)
              ]
        ]

    to_next :
        {node i next : ℕ} {step : StepDef F} {dep : String}
        → get_elem? steps node ≡ some step
        → get_elem? step.depends_on i ≡ some dep
        → index_of steps dep ≡ some next
        → Depends steps node i next
    to_next {step = step} {dep = dep} es ed en = record {
      step = step;
      at = es;
      dep = dep;
      listed = ed;
      found = en;
    }

    follow-Searches :
        (root : ℕ) (s : Search) (step : StepDef F) (node i : ℕ) (rest : List (ℕ × ℕ))
        → Proceeds root s step node i rest
        → i < length step.depends_on
        → (dep : String) (next : ℕ) (mark : Mark) → get_elem? step.depends_on i ≡ some dep
        → index_of steps dep ≡ some next
        → next < length steps
        → HasMark steps s.marks next mark
        → (bound : ℕ) → to_do s step i rest ≤ bound
        → Next root bound (
            if is_visiting mark
            then err (step.id ∷ dep ∷ [])
            else ok (follow steps s node i rest next mark))
    follow-Searches root s step node i rest h l dep next Mark.visiting ed en ln em bound le = (
      next,
      Linked-Reaches steps rest node i next i next h.linked (h.on_stack next em)
          (to_next h.at ed en),
    )
    follow-Searches root s step node i rest h l dep next Mark.unvisited ed en ln em bound le = (
      record {
        sound = h.sound;
        stacked = (
          (λ j b z d. absurd (omega (arith, z))),
          (follow_one root s step node i rest h dep next (some next) ed en (inr refl), h.stacked),
        );
        on_stack = λ a v. inr (h.on_stack a v);
        fresh = ((λ _. em), (omega arith, h.started));
        in_range = (ln, (get_elem?-some_lt steps node h.at, h.in_range));
        linked = ((i, to_next h.at ed en), h.linked);
        kept = h.kept;
        sized = h.sized;
      },
      ground (arith, le, l, width-at steps steps node step h.at),
    )
    follow-Searches root s step node i rest h l dep next Mark.done ed en ln em bound le = (
      record {
        sound = h.sound;
        stacked = (follow_one root s step node i rest h dep next none ed en (inl em), h.stacked);
        on_stack = h.on_stack;
        fresh = ((λ z. absurd (omega (arith, z))), h.started);
        in_range = (get_elem?-some_lt steps node h.at, h.in_range);
        linked = h.linked;
        kept = h.kept;
        sized = h.sized;
      },
      ground (arith, le, l, width-at steps steps node step h.at),
    )

    pub proceed-Leads :
        (known : Known)
        → (root : ℕ) (s : Search) (step : StepDef F) (node i : ℕ) (rest : List (ℕ × ℕ))
        → Proceeds root s step node i rest
        → (bound : ℕ) → to_do s step i rest ≤ bound
        → Leads root bound (proceed steps s step node i rest)
    unfolding proceed Known
    proceed-Leads known root s step node i rest h bound le =
        elim (Bool-cases (ltb i (length step.depends_on))) [
          | inl c ↦
              let l = (ltb_iff i (length step.depends_on)).0 c in
              let (dep, ed) = get_elem?-lt step.depends_on i l in
              let (next, en, ln) = known node step i dep h.at ed in
              let (mark, em) = get_elem?-lt s.marks next (omega (arith, ln, h.sized)) in
              (
                _,
                if_true _ _ c ∙ (>>=-some _ ed ∙ (>>=-some _ en ∙ >>=-some _ em)),
                follow-Searches root s step node i rest h l dep next mark ed en ln em bound le,
              )
          | inr c ↦
              let l : length step.depends_on ≤ i = ground (arith, c) in
              (
                ok (leave steps s node rest),
                if_false _ _ c,
                (
                  leave-Searches root s step node i rest h l,
                  omega (arith, le, open_cost-set steps steps s.marks node Mark.done refl),
                ),
              )
        ]
