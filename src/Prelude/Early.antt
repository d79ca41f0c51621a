-- ===== src/Prelude/Early.antt =====
-- A computation that may end early with its result, as a function with early returns does.
pub mod Rules
use mathlib.Core.Bool.{Bool, true, false}
use mathlib.Core.Option.{Option, none, some}

pub data Early {κ ℓ} (R : Type κ) (A : Type ℓ) : Type (κ ⊔ ℓ) where
  stop : R → Early R A
  next : A → Early R A

module _ {κ} {R : Type κ} where
  infixl 5 ◌>>=◌ ◌>>◌
  unfoldable pub ◌>>=◌ {ℓ μ} : {A : Type ℓ} {B : Type μ} → Early R A → (A → Early R B) → Early R B
  stop r >>= rest = stop r
  next a >>= rest = rest a

  abbrev pub ◌>>◌ {μ} : {B : Type μ} → Early R (Unit {0}) → Early R B → Early R B
  first >> rest = first >>= λ _. rest

  -- The value, or an early end with the given result.
  unfoldable pub require {ℓ} : {A : Type ℓ} → Option A → R → Early R A
  require none r = stop r
  require (some a) r = next a

  unfoldable pub ensure : Bool → R → Early R (Unit {0})
  ensure true r = next tt
  ensure false r = stop r

  abbrev pub ended : Early R R → R
  ended (stop r) = r
  ended (next r) = r
