-- ===== src/Prelude/Lists.antt =====
-- Lists by native numbers, and predicates on their members that compute.
use Prim.Native.Nat.{ℕ, zero, suc}
use mathlib.Core.Path.{◌≡◌, refl, sym, subst, ◌∙◌}
use mathlib.Core.Logic.{◌↔◌}
use mathlib.Core.Logic.Or
use mathlib.Core.Bool.{Bool, true, false, ◌&&◌, false≢true}
use mathlib.Core.List.{List, [], ◌∷◌, map, Mem, mem-cons, not-mem-nil}

module _ {ℓ} {A : Type ℓ} where
  abbrev pub length : List A → ℕ
  length [] = 0
  length (x ∷ xs) = suc (length xs)

  -- Every member satisfies the test.
  abbrev pub all : (A → Bool) → List A → Bool
  all test [] = true
  all test (x ∷ xs) = test x && all test xs

abbrev pub All {ℓ κ} : {A : Type ℓ} → (A → Type κ) → List A → Type κ
All P [] = Unit
All P (x ∷ xs) = P x × All P xs

-- A place in a list.
pub data In {ℓ} {A : Type ℓ} (a : A) : List A → Type ℓ where
  here : {xs : List A} → In a (a ∷ xs)
  there : {x : A} {xs : List A} → In a xs → In a (x ∷ xs)

pub In-map {ℓ κ} :
    {A : Type ℓ} {B : Type κ} (f : A → B) {a : A} {xs : List A} → In a xs → In (f a) (map f xs)
In-map f here = here
In-map f (there m) = there (In-map f m)

module _ {ℓ} {A : Type ℓ} where
  -- The members that satisfy the test, in their order.
  abbrev pub keep : (A → Bool) → List A → List A
  keep test [] = []
  keep test (x ∷ xs) = let rest = keep test xs in elim (test x) [ true ↦ x ∷ rest | false ↦ rest ]

  keep-cons :
      (test : A → Bool) (x a : A) (xs : List A) (b : Bool)
      → test x ≡ b
      → (Mem a (keep test xs) ↔ (Mem a xs × (test a ≡ true)))
      → Mem a (elim b [ true ↦ x ∷ keep test xs | false ↦ keep test xs ])
        ↔ (Mem a (x ∷ xs) × (test a ≡ true))
  keep-cons test x a xs true e ih = (
    λ m.
        Or.elim (hlevel) (mem-cons.0 m)
          (λ h. (mem-cons.1 (Or.inl h), subst (λ b. test b ≡ true) (sym h) e))
          (λ h. let (inside, good) = ih.0 h in (mem-cons.1 (Or.inr inside), good)),
    λ (m, good).
        Or.elim (hlevel) (mem-cons.0 m) (λ h. mem-cons.1 (Or.inl h))
          (λ h. mem-cons.1 (Or.inr (ih.1 (h, good)))),
  )
  keep-cons test x a xs false e ih = (
    λ m. let (inside, good) = ih.0 m in (mem-cons.1 (Or.inr inside), good),
    λ (m, good).
        Or.elim (hlevel) (mem-cons.0 m)
          (λ h. absurd (false≢true (sym e ∙ subst (λ b. test b ≡ true) h good)))
          (λ h. ih.1 (h, good)),
  )

  pub mem-keep :
      (test : A → Bool) (a : A) (xs : List A) → Mem a (keep test xs) ↔ (Mem a xs × (test a ≡ true))
  mem-keep test a [] = (λ m. absurd (not-mem-nil m), λ (m, good). absurd (not-mem-nil m))
  mem-keep test a (x ∷ xs) = keep-cons test x a xs (test x) refl (mem-keep test a xs)

module _ {ℓ} {A : Type ℓ} where
  -- The first elements, and what is left without them.
  abbrev pub take : ℕ → List A → List A
  take zero xs = []
  take (suc n) [] = []
  take (suc n) (x ∷ xs) = x ∷ take n xs

  abbrev pub drop : ℕ → List A → List A
  drop zero xs = xs
  drop (suc n) [] = []
  drop (suc n) (x ∷ xs) = drop n xs
