-- ===== src/Sop/Package/Roots.antt =====
-- crates/fd-sop/src/package.rs, `resolve_flow`: the search for cycles over all roots.
use mathlib.Core.Path.{subst}
use mathlib.Core.Option.{none-ne-some}
use flightdeck_os.Base.{
  ℕ, zero, suc, ◌+◌, ◌≤◌, ◌<◌, ◌≡◌, refl, sym, ap, ◌∙◌, none, some, List, [], ◌∷◌, Result, ok, err,
  length, get_elem?, get_elem?-lt, ◌==◌, inl, inr, arith, ==_iff, Bool-cases, true_ne_false,
  eq_of_some, >>=-some,
}
use flightdeck_os.Base.Texts.{String}
use flightdeck_os.Sop.Engine.{StepDef}
use flightdeck_os.Sop.Package.Cycles.{
  Mark, is_visiting, is_unvisited, Search, continue_with, Searched, cost, begin, search_from,
  unmarked, check_cycles,
}
use flightdeck_os.Sop.Package.Cost.{open_cost}
use flightdeck_os.Sop.Package.Frames.{
  Cyclic, Grounded, Searches, HasMark, DoneGrounded, Stacked, OnStack,
}
use flightdeck_os.Sop.Package.Iteration.{Known}
use flightdeck_os.Sop.Package.Grounded.{Ended, explore-Ends}

module _ {F : Type 0} (steps : List (StepDef F)) where
  -- Between two roots: every step below `upto` is done, and none is being visited.
  record Between (upto : ℕ) (s : Search) : Type 0 where
    sound : DoneGrounded steps s.marks
    settled : (a : ℕ) → ¬ HasMark steps s.marks a Mark.visiting
    finished : (a : ℕ) → a < upto → HasMark steps s.marks a Mark.done
    sized : length s.marks ≡ length steps

  open_cost-cost : (ss : List (StepDef F)) (ms : List Mark) → open_cost steps ss ms ≤ cost steps ss
  open_cost-cost [] ms = omega arith
  open_cost-cost (s ∷ ss) [] = omega arith
  open_cost-cost (s ∷ ss) (m ∷ ms) = ground (arith, open_cost-cost ss ms)

  rooted : Search → ℕ → Search
  rooted s root = record s { stack = (root, 0) ∷ [] }

  rooted-Searches :
      (root : ℕ) (s : Search)
      → Between root s
      → root < length steps
      → HasMark steps s.marks root Mark.unvisited
      → Searches steps s.marks root (rooted s root)
  unfolding rooted
  rooted-Searches root s h l e = record {
    sound = h.sound;
    stacked = ((λ j b z d. absurd (omega (arith, z))), inr refl);
    on_stack = λ a v. absurd (h.settled a v);
    fresh = ((λ _. e), tt);
    in_range = (l, tt);
    linked = tt;
    kept = λ a d. d;
    sized = h.sized;
  }

  Ended-Between :
      (root : ℕ) (s s' : Search)
      → Between root s
      → Searches steps s.marks root s'
      → s'.stack ≡ []
      → Between (root + 1) s'
  Ended-Between root s s' h h' e = record {
    sound = h'.sound;
    settled = λ a v. subst (λ stack. OnStack steps stack a) e (h'.on_stack a v);
    finished = λ a l. elim (Bool-cases (a == root)) [
      | inl q ↦
          subst (λ k. HasMark steps s'.marks k Mark.done) (sym ((==_iff a root).0 q)) root_done
      | inr q ↦ h'.kept a (h.finished a (ground (arith, l, q)))
    ];
    sized = h'.sized;
  }
    where
      root_done : HasMark steps s'.marks root Mark.done
      root_done = elim (subst (Stacked steps root s'.marks none) e h'.stacked) [
        | inl d ↦ d
        | inr c ↦ absurd (none-ne-some _ c)
      ]

  -- What the search leads to: every step below `upto` is done, or a cycle is found.
  abbrev Settled : ℕ → Result Search (List String) → Type 0
  Settled upto (ok s) = Between upto s
  Settled upto (err ids) = Cyclic steps

  abbrev Settles : ℕ → Searched steps → Type 0
  Settles upto r = (x : Result Search (List String)) × (r ≡ some x) × Settled upto x

  begin-Settles :
      (known : Known steps)
      → (root : ℕ) (s : Search) (mark : Mark) → Between root s
      → root < length steps
      → HasMark steps s.marks root mark
      → Settles (root + 1) (begin steps s root mark)
  unfolding rooted
  begin-Settles known root s Mark.unvisited h l e =
      let (x, e', d) =
        explore-Ends steps s.marks known root (cost steps steps + 1) (rooted s root)
          (rooted-Searches root s h l e) (ground (arith, open_cost-cost steps s.marks)) in
      (x, e', settled x d)
    where
      settled :
          (x : Result Search (List String)) → Ended steps s.marks root x → Settled (root + 1) x
      settled (ok s') (h', empty) = Ended-Between root s s' h h' empty
      settled (err ids) d = d
  begin-Settles known root s Mark.visiting h l e = absurd (h.settled root e)
  begin-Settles known root s Mark.done h l e = (
    ok s,
    refl,
    record {
      sound = h.sound;
      settled = h.settled;
      finished = λ a l'. elim (Bool-cases (a == root)) [
        | inl q ↦ subst (λ k. HasMark steps s.marks k Mark.done) (sym ((==_iff a root).0 q)) e
        | inr q ↦ h.finished a (ground (arith, l', q))
      ];
      sized = h.sized;
    },
  )

  continue-Settles :
      (upto : ℕ) (again : Search → Searched steps)
      → ((s : Search) → Between upto s → Settles (length steps) (again s))
      → (x : Result Search (List String)) → Settled upto x
      → Settles (length steps) (continue_with steps again x)
  continue-Settles upto again f (ok s) b = f s b
  continue-Settles upto again f (err ids) b = (err ids, refl, b)

  search_from-Settles :
      (known : Known steps)
      → (root count : ℕ) (s : Search) → Between root s
      → root + count ≡ length steps
      → Settles (length steps) (search_from steps root count s)
  unfolding search_from
  search_from-Settles known root zero s h l =
      (ok s, refl, subst (λ n. Between n s) (omega (arith, l)) h)
  search_from-Settles known root (suc count) s h l =
      let (mark, e) = get_elem?-lt s.marks root (omega (arith, l, h.sized)) in
      let (x, e₁, d) = begin-Settles known root s mark h (omega (arith, l)) e in
      let (y, e₂, d') =
        continue-Settles (root + 1) (search_from steps (root + 1) count)
          (λ s' b. search_from-Settles known (root + 1) count s' b (omega (arith, l))) x d in
      (y, >>=-some _ e ∙ (>>=-some _ e₁ ∙ e₂), d')

  get-unmarked :
      {A : Type 0} (xs : List A) (a : ℕ) (m : Mark)
      → get_elem? (unmarked steps xs) a ≡ some m
      → m ≡ Mark.unvisited
  get-unmarked [] a m e = absurd (none-ne-some _ e)
  get-unmarked (x ∷ xs) zero m e = sym (eq_of_some e)
  get-unmarked (x ∷ xs) (suc a) m e = get-unmarked xs a m e

  length-unmarked : {A : Type 0} (xs : List A) → length (unmarked steps xs) ≡ length xs
  length-unmarked [] = refl
  length-unmarked (x ∷ xs) = ap suc (length-unmarked xs)

  -- Every step of the list is grounded, or a cycle was found and there is one.
  abbrev pub Decided : Result Search (List String) → Type 0
  Decided (ok s) = (a : ℕ) → a < length steps → Grounded steps a
  Decided (err ids) = Cyclic steps

  -- Where each dependency is the identifier of a step, the search for cycles returns: no index is
  -- out of bounds, and its loops end within their fuel. When it accepts, then from no step leads an
  -- endless chain of dependencies; when it reports a cycle, then some step depends on itself by a
  -- chain of dependencies.
  pub check_cycles-Decides :
      Known steps → (x : Result Search (List String)) × (check_cycles steps ≡ some x) × Decided x
  unfolding check_cycles
  check_cycles-Decides known =
      let (x, e, d) =
        search_from-Settles known 0 (length steps) _
          (record {
            sound =
                λ a m. absurd (true_ne_false (sym (ap is_unvisited (get-unmarked steps a _ m))));
            settled = λ a m. true_ne_false (ap is_visiting (get-unmarked steps a _ m));
            finished = λ a l. absurd (omega (arith, l));
            sized = length-unmarked steps;
          })
          (omega arith) in
      (x, e, acyclic x d)
    where
      acyclic : (x : Result Search (List String)) → Settled (length steps) x → Decided x
      acyclic (ok s) b = λ a l. b.sound a (b.finished a l)
      acyclic (err ids) b = b
