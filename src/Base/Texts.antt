-- ===== src/Base/Texts.antt =====
-- Equality of texts, as Rust's `==` on `String`.
use Prim.Native.String.{String as Text, ◌++◌ as text_append}
use text.Mathlib.Text.{◌==◌ as text_beq}
use text.Mathlib.TextEquality.{eq_iff}
use Prim.Native.Char.{code}
use Prim.Native.Nat.{ℕ}
use mathlib.Core.List.{List, [], ◌∷◌}
use mathlib.Core.Path.{◌≡◌}
use mathlib.Core.Logic.{◌↔◌}
use mathlib.Core.Bool.{Bool, true}
pub use Prim.Native.String.{String}

abbrev pub str_eq : Text → Text → Bool
str_eq = text_beq

pub str_eq_iff : (s t : Text) → (str_eq s t ≡ true) ↔ (s ≡ t)
str_eq_iff s t = eq_iff s t

-- The code points of a text.
abbrev pub codes : Text → List ℕ
codes Text.[] = []
codes (Text.◌∷◌ c s) = code c ∷ codes s

abbrev pub str_append : Text → Text → Text
str_append = text_append
