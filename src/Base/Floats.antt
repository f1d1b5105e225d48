-- ===== src/Base/Floats.antt =====
-- `f64` as a parameter: the operations that the code applies to floating-point values, and the
-- documented facts about them that theorems name as hypotheses.
use Prim.Native.Nat.{ℕ, ◌<◌}
use mathlib.Core.Path.{◌≡◌}
use mathlib.Core.Bool.{Bool}
use flightdeck_os.Base.Tests.{ltb}

pub record Float (F : Type 0) : Type 0 where
  -- The literal `n.0`, and `n / 10`.
  pub lit : ℕ → F
  pub tenth : ℕ → F
  pub neg : F → F
  -- `<`, `<=` and `==`; each is false at a NaN, so none is defined by another.
  pub lt : F → F → Bool
  pub le : F → F → Bool
  pub eq : F → F → Bool
  pub is_finite : F → Bool
  pub add : F → F → F
  pub sub : F → F → F
  pub mul : F → F → F
  pub div : F → F → F
  pub abs : F → F
  pub max : F → F → F
  pub min : F → F → F

-- Whole numbers below 2 ^ 53 are represented exactly, so literals compare as numbers.
abbrev pub ExactLiterals : {F : Type 0} → Float F → Type 0
ExactLiterals fl =
    (a b : ℕ) → a < 9007199254740992 → b < 9007199254740992 → fl.lt (fl.lit a) (fl.lit b) ≡ ltb a b

-- The trigonometry of `f64`, and literals with three decimals.
pub record Trig (F : Type 0) : Type 0 where
  pub thousandth : ℕ → F
  pub sin : F → F
  pub cos : F → F
  pub asin : F → F
  pub atan2 : F → F → F
  pub sqrt : F → F
  pub powi : F → ℕ → F
  pub to_radians : F → F
  pub to_degrees : F → F
  pub rem_euclid : F → F → F
