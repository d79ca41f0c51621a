-- ===== src/Prelude/Early/Rules.antt =====
-- Properties of the result with which a chain of steps ends: a rule for each kind of step, and what
-- the property tells of a step whose early end does not have it.
use mathlib.Core.Path.{◌≡◌, refl}
use mathlib.Core.Bool.{Bool, true, false}
use mathlib.Core.Option.{Option, none, some}
use agentattest.Prelude.Early.{Early, next, ◌>>=◌, ◌>>◌, require, ensure, ended}

pub record Ends {κ μ} {R : Type κ} (P : R → Type μ) (m : Early R R) : Type μ where
  pub at : P (ended m)

module _ {κ μ} {R : Type κ} {P : R → Type μ} where
  pub Ends-next : (r : R) → P r → Ends P (next r)
  Ends-next r h = record { at = h }

  pub Ends-require {ℓ} :
      {A : Type ℓ} (o : Option A) (r : R) (rest : A → Early R R)
      → P r
      → ((a : A) → Ends P (rest a))
      → Ends P (require o r >>= rest)
  unfolding require ◌>>=◌
  Ends-require none r rest p q = record { at = p }
  Ends-require (some a) r rest p q = q a

  pub Ends-ensure :
      (b : Bool) (r : R) (rest : Early R R) → P r → Ends P rest → Ends P (ensure b r >> rest)
  unfolding ensure ◌>>=◌
  Ends-ensure false r rest p q = record { at = p }
  Ends-ensure true r rest p q = q

pub ruleset early_rules = (Ends-next, Ends-require, Ends-ensure)

module _ {κ μ} {R : Type κ} (P : R → Type μ) where
  pub require-holds {ℓ} :
      {A : Type ℓ} (o : Option A) (r : R) (rest : A → Early R R)
      → ¬ P r
      → P (ended (require o r >>= rest))
      → (a : A) × (o ≡ some a) × P (ended (rest a))
  unfolding require ◌>>=◌
  require-holds none r rest bad h = absurd (bad h)
  require-holds (some a) r rest bad h = (a, refl, h)

  pub ensure-holds :
      (b : Bool) (r : R) (rest : Early R R)
      → ¬ P r
      → P (ended (ensure b r >> rest))
      → (b ≡ true) × P (ended rest)
  unfolding ensure ◌>>=◌
  ensure-holds false r rest bad h = absurd (bad h)
  ensure-holds true r rest bad h = (refl, h)
