-- ===== src/Prelude/Basic.antt =====
-- The conditional, tests on numbers, splits on computed values, and the result of code that fails.
use Prim.Native.Nat.{ℕ, compare, Ordering}
use mathlib.Core.Path.{◌≡◌, refl}
use mathlib.Core.Logic.{◌⊎◌, inl, inr}
use mathlib.Core.Bool.{Bool, true, false}
use mathlib.Core.Option.{Option, none, some}

abbrev pub ltb : ℕ → ℕ → Bool
ltb a b = elim (compare a b) [ Ordering.lt ↦ true | _ ↦ false ]

abbrev pub leb : ℕ → ℕ → Bool
leb a b = elim (compare a b) [ Ordering.gt ↦ false | _ ↦ true ]

infix 1 if◌then◌else◌
abbrev pub if◌then◌else◌ {ℓ} : {A : Type ℓ} → Bool → A → A → A
if true then x else y = x
if false then x else y = y

pub Bool-cases : (b : Bool) → (b ≡ true) ⊎ (b ≡ false)
Bool-cases true = inl refl
Bool-cases false = inr refl

pub Option-cases {ℓ} : {A : Type ℓ} (o : Option A) → (o ≡ none) ⊎ ((a : A) × (o ≡ some a))
Option-cases none = inl refl
Option-cases (some a) = inr (a, refl)

-- A chain of steps that may fail.
infixl 5 ◌>>=◌
unfoldable pub ◌>>=◌ {ℓ κ} : {A : Type ℓ} {B : Type κ} → Option A → (A → Option B) → Option B
none >>= f = none
some a >>= f = f a

pub option_bind-some {ℓ κ} :
    {A : Type ℓ} {B : Type κ} {value : B} (first : Option A) (after : A → Option B)
    → (first >>= after) ≡ some value
    → (a : A) × (first ≡ some a) × (after a ≡ some value)
unfolding ◌>>=◌
option_bind-some none after h = cc h
option_bind-some (some a) after h = (a, refl, h)

pub same_some {ℓ} : {A : Type ℓ} {a b : A} → some a ≡ some b → a ≡ b
same_some h = cc h
