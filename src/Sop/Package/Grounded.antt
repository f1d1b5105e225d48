-- ===== src/Sop/Package/Grounded.antt =====
-- crates/fd-sop/src/package.rs, `resolve_flow`: the search for cycles ends, and the steps in which it
-- finds none have none.
use flightdeck_os.Base.{
  ℕ, zero, suc, ◌+◌, ◌-◌, ◌≤◌, ◌<◌, ◌≡◌, ◌≢◌, refl, sym, ap, ◌∙◌, false, some, List, [], ◌∷◌,
  Result, ok, err, get_elem?, get_elem?-lt, ◌==◌, inl, inr, arith, ==_iff, if_true, if_false,
  Bool-cases, true_ne_false, >>=-some,
}
use flightdeck_os.Base.Texts.{String}
use flightdeck_os.Sop.Engine.{StepDef}
use flightdeck_os.Sop.Package.Cycles.{
  Mark, is_visiting, is_unvisited, set, Search, enter, visit, explore, turn, continue_with,
  Searched,
}
use flightdeck_os.Sop.Package.Iteration.{Known, Next, Leads, Proceeds, proceed-Leads}
use flightdeck_os.Sop.Package.Cost.{width, frame_cost, left, open_cost-visit, width-at, length-set}
use flightdeck_os.Sop.Package.Frames.{
  Cyclic, Searches, set-same, HasMark, Stacked-Later, Later-set, set-cases,
}

module _ {F : Type 0} (steps : List (StepDef F)) where
  -- The marks before the loop from a root.
  module _ (base : List Mark) where
    state : List Mark → List ℕ → List (ℕ × ℕ) → Search
    state marks path stack = record { marks = marks; stack_path = path; stack = stack }

    enter-Proceeds :
        (root : ℕ) (marks : List Mark) (path : List ℕ) (node i : ℕ) (rest : List (ℕ × ℕ))
        → Searches steps base root (state marks path ((node, i) ∷ rest))
        → i ≡ 0
        → (step : StepDef F) → get_elem? steps node ≡ some step
        → Proceeds steps base root
            (enter steps (state marks path ((node, i) ∷ rest)) node)
            step
            node
            i
            rest
    unfolding state
    enter-Proceeds root marks path node i rest h z step es =
        let e = h.fresh.0 z in
        let not_done : Mark.unvisited ≢ Mark.done = λ q. true_ne_false (ap is_unvisited q) in
        let later = Later-set steps marks node Mark.visiting Mark.unvisited e (inl not_done) in
        record {
          at = es;
          marked = (Mark.visiting, set-same marks node Mark.visiting e);
          sound = λ a d.
              elim (set-cases steps marks node a Mark.visiting Mark.unvisited Mark.done e d) [
                | inl (_, q) ↦ absurd (true_ne_false (sym (ap is_visiting q)))
                | inr (_, d') ↦ h.sound a d'
              ];
          followed = λ j b l d. absurd (omega (arith, l, z));
          stacked =
              Stacked-Later steps root marks (set marks node Mark.visiting) rest (some node) later
                h.stacked.1;
          on_stack = λ a v.
              elim (set-cases steps marks node a Mark.visiting Mark.unvisited Mark.visiting e v) [
                | inl (q, _) ↦ inl q
                | inr (_, v') ↦ h.on_stack a v'
              ];
          started = h.fresh.1;
          in_range = h.in_range.1;
          linked = h.linked;
          kept = λ a d. later a (h.kept a d);
          sized = length-set steps marks node Mark.visiting ∙ h.sized;
        }

    stay-Proceeds :
        (root : ℕ) (marks : List Mark) (path : List ℕ) (node i : ℕ) (rest : List (ℕ × ℕ))
        → Searches steps base root (state marks path ((node, i) ∷ rest))
        → (step : StepDef F) → get_elem? steps node ≡ some step
        → (mark : Mark) → HasMark steps marks node mark
        → Proceeds steps base root (state marks path ((node, i) ∷ rest)) step node i rest
    unfolding state
    stay-Proceeds root marks path node i rest h step es mark em = record {
      at = es;
      marked = (mark, em);
      sound = h.sound;
      followed = h.stacked.0;
      stacked = h.stacked.1;
      on_stack = h.on_stack;
      started = h.fresh.1;
      in_range = h.in_range.1;
      linked = h.linked;
      kept = h.kept;
      sized = h.sized;
    }

    Leads-of :
        {root bound : ℕ} {r r' : Searched steps}
        → r' ≡ r
        → Leads steps base root bound r
        → Leads steps base root bound r'
    Leads-of p (x, e, n) = (x, p ∙ e, n)

    visit-Leads :
        (known : Known steps)
        → (root : ℕ) (marks : List Mark) (path : List ℕ) (node i : ℕ) (rest : List (ℕ × ℕ))
        → Searches steps base root (state marks path ((node, i) ∷ rest))
        → Leads steps base root
            (left steps (state marks path ((node, i) ∷ rest)))
            (visit steps (state marks path ((node, i) ∷ rest)) node i rest)
    unfolding visit state
    visit-Leads known root marks path node i rest h =
        let (step, es) = get_elem?-lt steps node h.in_range.0 in
        let s = state marks path ((node, i) ∷ rest) in
        elim (Bool-cases (i == 0)) [
          | inl c ↦
              let z = (==_iff i 0).0 c in
              let e = h.fresh.0 z in
              Leads-of (>>=-some _ es ∙ (>>=-some _ e ∙ if_true _ _ c)) (
                proceed-Leads steps base known root (enter steps s node) step node i rest
                  (enter-Proceeds root marks path node i rest h z step es) _
                  (omega (
                    arith,
                    z,
                    width-at steps steps node step es,
                    open_cost-visit steps steps marks node Mark.visiting refl h.in_range.0 e,
                  )))
          | inr c ↦
              let (mark, em) = get_elem?-lt marks node (omega (arith, h.sized, h.in_range.0)) in
              Leads-of (>>=-some _ es ∙ (>>=-some _ em ∙ if_false _ _ c)) (
                proceed-Leads steps base known root s step node i rest
                  (stay-Proceeds root marks path node i rest h step es mark em) _
                  (omega (arith, further c, width-at steps steps node step es)))
        ]
      where
        further :
            (i == 0) ≡ false
            → frame_cost steps (width steps node steps) i ≡ width steps node steps - i + 1
        further c = if_false _ _ c

    -- What the loop leads to: nothing is left on the stack.
    abbrev pub Ended : ℕ → Result Search (List String) → Type 0
    Ended root (ok s) = Searches steps base root s × (s.stack ≡ [])
    Ended root (err ids) = Cyclic steps

    abbrev pub EndsIn : ℕ → Searched steps → Type 0
    EndsIn root r = (x : Result Search (List String)) × (r ≡ some x) × Ended root x

    continue-Ends :
        (root bound : ℕ) (again : Search → Searched steps)
        → ((s : Search) → Searches steps base root s → left steps s < bound → EndsIn root (again s))
        → (x : Result Search (List String)) → Next steps base root bound x
        → EndsIn root (continue_with steps again x)
    continue-Ends root bound again f (ok s) (h, l) = f s h l
    continue-Ends root bound again f (err ids) h = (err ids, refl, h)

    turn-Ends :
        (known : Known steps)
        → (root bound : ℕ) (again : Search → Searched steps)
        → ((s : Search) → Searches steps base root s → left steps s < bound → EndsIn root (again s))
        → (marks : List Mark) (path : List ℕ) (stack : List (ℕ × ℕ))
        → Searches steps base root (state marks path stack)
        → left steps (state marks path stack) ≤ bound
        → EndsIn root (turn steps again (state marks path stack) stack)
    unfolding state
    turn-Ends known root bound again f marks path [] h l =
        (ok (state marks path []), refl, (h, refl))
    turn-Ends known root bound again f marks path ((node, i) ∷ rest) h l =
        let (x, e, n) = visit-Leads known root marks path node i rest h in
        let (y, e', d) =
          continue-Ends root _ again (λ s h' l'. f s h' (omega (arith, l, l'))) x n in
        (y, >>=-some _ e ∙ e', d)

    -- The loop from a root returns within as many iterations as are left.
    pub explore-Ends :
        (known : Known steps)
        → (root fuel : ℕ) (s : Search) → Searches steps base root s
        → left steps s < fuel
        → EndsIn root (explore steps fuel s)
    unfolding explore state
    explore-Ends known root zero s h l = absurd (omega (arith, l))
    explore-Ends known root (suc fuel) s h l =
        turn-Ends known root fuel (explore steps fuel) (explore-Ends known root fuel) s.marks
          s.stack_path s.stack h (omega (arith, l))
