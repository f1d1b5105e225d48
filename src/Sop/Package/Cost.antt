-- ===== src/Sop/Package/Cost.antt =====
-- crates/fd-sop/src/package.rs, `resolve_flow`: what the iterations of the search for cycles cost.
use mathlib.Core.Option.{none-ne-some}
use flightdeck_os.Base.{
  ℕ, zero, suc, ◌+◌, ◌-◌, ◌≤◌, ◌<◌, ◌≡◌, refl, sym, ap, false, some, List, [], ◌∷◌, length,
  get_elem?, ◌==◌, if◌then◌else◌, arith, true_ne_false, eq_of_some,
}
use flightdeck_os.Sop.Engine.{StepDef}
use flightdeck_os.Sop.Package.Cycles.{Mark, is_visiting, is_unvisited, set, Search}
use flightdeck_os.Sop.Package.Frames.{HasMark}

module _ {F : Type 0} (steps : List (StepDef F)) where
  -- What is left to do: the frames' further iterations, and those of the unvisited steps.
  abbrev pub width : ℕ → List (StepDef F) → ℕ
  width a [] = 0
  width zero (s ∷ ss) = length s.depends_on
  width (suc a) (s ∷ ss) = width a ss

  abbrev pub frame_cost : ℕ → ℕ → ℕ
  frame_cost d i = if i == 0 then 0 else d - i + 1

  abbrev pub stack_cost : List (ℕ × ℕ) → ℕ
  stack_cost [] = 0
  stack_cost ((node, i) ∷ rest) = frame_cost (width node steps) i + stack_cost rest

  abbrev pub open_cost : List (StepDef F) → List Mark → ℕ
  open_cost [] ms = 0
  open_cost (s ∷ ss) [] = 0
  open_cost (s ∷ ss) (m ∷ ms) =
      (if is_unvisited m then length s.depends_on + 1 else 0) + open_cost ss ms

  abbrev pub left : Search → ℕ
  left s = stack_cost s.stack + open_cost steps s.marks

  pub open_cost-set :
      (ss : List (StepDef F)) (ms : List Mark) (i : ℕ) (m : Mark)
      → is_unvisited m ≡ false
      → open_cost ss (set ms i m) ≤ open_cost ss ms
  open_cost-set [] ms i m n = omega arith
  open_cost-set (s ∷ ss) [] i m n = omega arith
  open_cost-set (s ∷ ss) (x ∷ ms) zero m n = ground (arith, n)
  open_cost-set (s ∷ ss) (x ∷ ms) (suc i) m n = omega (arith, open_cost-set ss ms i m n)

  pub open_cost-visit :
      (ss : List (StepDef F)) (ms : List Mark) (i : ℕ) (m : Mark)
      → is_unvisited m ≡ false
      → i < length ss
      → HasMark steps ms i Mark.unvisited
      → open_cost ss (set ms i m) + (width i ss + 1) ≤ open_cost ss ms
  open_cost-visit [] ms i m n l e = absurd (omega (arith, l))
  open_cost-visit (s ∷ ss) [] i m n l e = absurd (none-ne-some _ e)
  open_cost-visit (s ∷ ss) (Mark.unvisited ∷ ms) zero m n l e = ground (arith, n)
  open_cost-visit (s ∷ ss) (Mark.visiting ∷ ms) zero m n l e =
      absurd (true_ne_false (ap is_visiting (eq_of_some e)))
  open_cost-visit (s ∷ ss) (Mark.done ∷ ms) zero m n l e =
      absurd (true_ne_false (sym (ap is_unvisited (eq_of_some e))))
  open_cost-visit (s ∷ ss) (x ∷ ms) (suc i) m n l e =
      omega (arith, open_cost-visit ss ms i m n (omega (arith, l)) e)

  pub width-at :
      (ss : List (StepDef F)) (i : ℕ) (s : StepDef F)
      → get_elem? ss i ≡ some s
      → width i ss ≡ length s.depends_on
  width-at [] i s e = absurd (none-ne-some _ e)
  width-at (t ∷ ss) zero s e = ap (λ u. length u.depends_on) (eq_of_some e)
  width-at (t ∷ ss) (suc i) s e = width-at ss i s e

  pub length-set : (ms : List Mark) (i : ℕ) (m : Mark) → length (set ms i m) ≡ length ms
  length-set [] i m = refl
  length-set (x ∷ ms) zero m = refl
  length-set (x ∷ ms) (suc i) m = ap suc (length-set ms i m)
