-- ===== src/Base/Parts.antt =====
-- The option monad: `none` is the abort of a Rust panic, or a loop cut short by its fuel.
use mathlib.Core.Path.{◌≡◌, refl, ap, subst}
use mathlib.Core.Bool.{Bool, true, false}
use mathlib.Core.Option.{Option, none, some}
use flightdeck_os.Base.Tests.{if◌then◌else◌}

infixl 5 ◌>>=◌
abbrev pub ◌>>=◌ {ℓ κ} : {A : Type ℓ} {B : Type κ} → Option A → (A → Option B) → Option B
none >>= f = none
some a >>= f = f a

-- `Result<A, E>`.
pub data Result {ℓ κ} (A : Type ℓ) (E : Type κ) : Type (ℓ ⊔ κ) where
  ok : A → Result A E
  err : E → Result A E

-- `Option::unwrap_or`.
abbrev pub unwrap_or {ℓ} : {A : Type ℓ} → Option A → A → A
unwrap_or none d = d
unwrap_or (some a) d = a

pub >>=-eq-some {ℓ κ} :
    {A : Type ℓ} {B : Type κ} (m : Option A) (f : A → Option B) {b : B}
    → (m >>= f) ≡ some b
    → (a : A) × (m ≡ some a) × (f a ≡ some b)
>>=-eq-some none f h = cc
>>=-eq-some (some a) f h = (a, refl, h)

pub >>=-some {ℓ κ} :
    {A : Type ℓ} {B : Type κ} {m : Option A} (f : A → Option B) {a : A}
    → m ≡ some a
    → (m >>= f) ≡ f a
>>=-some f h = ap (λ o. o >>= f) h

pub eq_of_some {ℓ} : {A : Type ℓ} {a b : A} → some a ≡ some b → a ≡ b
eq_of_some h = cc

-- What holds of a result, if there is one.
abbrev pub Ends : {A : Type 0} → (A → Type 0) → Option A → Type 0
Ends P none = Unit
Ends P (some a) = P a

pub Ends->>= :
    {A B : Type 0} (P : A → Type 0) (Q : B → Type 0) (m : Option A) (f : A → Option B)
    → Ends P m
    → ((a : A) → P a → Ends Q (f a))
    → Ends Q (m >>= f)
Ends->>= P Q none f h k = tt
Ends->>= P Q (some a) f h k = k a h

pub Ends->>=_all :
    {A B : Type 0} (Q : B → Type 0) (m : Option A) (f : A → Option B)
    → ((a : A) → Ends Q (f a))
    → Ends Q (m >>= f)
Ends->>=_all Q none f k = tt
Ends->>=_all Q (some a) f k = k a

pub Ends-elim :
    {A E B : Type 0} (Q : B → Type 0) (r : Result A E) (f : A → Option B) (g : E → Option B)
    → ((a : A) → Ends Q (f a))
    → ((e : E) → Ends Q (g e))
    → Ends Q (elim r [ ok a ↦ f a | err e ↦ g e ])
Ends-elim Q (ok a) f g k l = k a
Ends-elim Q (err e) f g k l = l e

pub Ends-if :
    {B : Type 0} (Q : B → Type 0) (b : Bool) (m n : Option B)
    → Ends Q m
    → Ends Q n
    → Ends Q (if b then m else n)
Ends-if Q true m n h k = h
Ends-if Q false m n h k = k

pub Ends-eq : {B : Type 0} (Q : B → Type 0) {m : Option B} {b : B} → Ends Q m → m ≡ some b → Q b
Ends-eq Q h e = subst (Ends Q) e h

-- There is a result, and it satisfies `P`.
abbrev pub Returns : {A : Type 0} → (A → Type 0) → Option A → Type 0
Returns P none = ⊥
Returns P (some a) = P a

pub Returns-if :
    {A : Type 0} (P : A → Type 0) (b : Bool) (m n : Option A)
    → (b ≡ true → Returns P m)
    → (b ≡ false → Returns P n)
    → Returns P (if b then m else n)
Returns-if P true m n h k = h refl
Returns-if P false m n h k = k refl

pub Returns->>= :
    {A B : Type 0} (P : A → Type 0) (Q : B → Type 0) (m : Option A) (f : A → Option B)
    → Returns P m
    → ((a : A) → P a → Returns Q (f a))
    → Returns Q (m >>= f)
Returns->>= P Q none f h k = absurd h
Returns->>= P Q (some a) f h k = k a h

pub Returns-some :
    {A : Type 0} (P : A → Type 0) (m : Option A) → Returns P m → (a : A) × (m ≡ some a) × P a
Returns-some P none h = absurd h
Returns-some P (some a) h = (a, refl, h)
