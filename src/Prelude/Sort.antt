-- ===== src/Prelude/Sort.antt =====
-- Go's `sort.SliceStable` and `sort.Slice` by a test `less`, as the stable rearrangement that the
-- library documents, and what it gives when `less` is a strict total order.
use mathlib.Core.Path.{◌≡◌, ap₂}
use mathlib.Core.Bool.{Bool, true, false}
use mathlib.Core.Logic.{inl, inr}
use mathlib.Core.List.{
  List, [], ◌∷◌, Mem, Perm, Pairwise, forall_mem-cons, mem-cons_self, not-mem-nil,
}
use mathlib.Core.List.Perm
use mathlib.Core.List.Pairwise
use agentattest.Prelude.Basic.{if◌then◌else◌, Bool-cases}

module _ {ℓ} {A : Type ℓ} (less : A → A → Bool) where
  -- `x` stands before the elements that are not less than it.
  insert : A → List A → List A
  insert x [] = x ∷ []
  insert x (y ∷ ys) = if less y x then y ∷ insert x ys else x ∷ y ∷ ys

  unfoldable pub sort_slice : List A → List A
  unfolding insert
  sort_slice [] = []
  sort_slice (x ∷ xs) = insert x (sort_slice xs)

  -- `a` may stand before `b`: `b` is not less than `a`.
  abbrev pub Before : A → A → Type 0
  Before a b = less b a ≡ false

  abbrev pub IsSorted : List A → Type ℓ
  IsSorted = Pairwise Before

  insert-perm : (x : A) (l : List A) → Perm (insert x l) (x ∷ l)
  unfolding insert
  insert-perm x [] = Perm.rfl
  insert-perm x (y ∷ ys) = elim (Bool-cases (less y x)) [
    | inl p ↦ rw (p, insert) (Perm.trans (Perm.cons y (insert-perm x ys)) (Perm.swap x y ys))
    | inr p ↦ rw (p, insert) Perm.rfl
  ]

  pub sort_slice-perm : (l : List A) → Perm (sort_slice l) l
  unfolding sort_slice
  sort_slice-perm [] = Perm.rfl
  sort_slice-perm (x ∷ xs) =
      Perm.trans (insert-perm x (sort_slice xs)) (Perm.cons x (sort_slice-perm xs))

-- A strict total order given as a test.
pub record IsTotalOrder {ℓ} {A : Type ℓ} (less : A → A → Bool) : Type ℓ where
  pub trans : (a b c : A) → less b a ≡ false → less c b ≡ false → less c a ≡ false
  pub asym : (a b : A) → less a b ≡ true → less b a ≡ false
  pub connected : (a b : A) → less a b ≡ false → less b a ≡ false → a ≡ b

module _ {ℓ} {A : Type ℓ} (less : A → A → Bool) (o : IsTotalOrder less) where
  IsBelow : A → List A → Type ℓ
  IsBelow a l = (x : A) → Mem x l → Before less a x

  Before-prop : (a b : A) → IsProp (Before less a b)
  Before-prop a b = hlevel

  IsBelow-cons : (a b : A) (l : List A) → Before less a b → IsBelow a l → IsBelow a (b ∷ l)
  unfolding IsBelow
  IsBelow-cons a b l p h = (forall_mem-cons (Before-prop a)).1 (p, h)

  IsBelow-head :
      (a b : A) (l : List A) → Before less a b → IsSorted less (b ∷ l) → IsBelow a (b ∷ l)
  unfolding IsBelow
  IsBelow-head a b l p (Pairwise.cons h _) = IsBelow-cons a b l p λ x m. o.trans a b x p (h x m)

  IsBelow-perm : (a : A) (l r : List A) → Perm l r → IsBelow a r → IsBelow a l
  unfolding IsBelow
  IsBelow-perm a l r p h x m = h x ((Perm.mem_iff p).0 m)

  insert-IsSorted : (x : A) (l : List A) → IsSorted less l → IsSorted less (insert less x l)
  unfolding insert IsBelow
  insert-IsSorted x [] s = Pairwise.cons (λ y m. absurd (not-mem-nil m)) Pairwise.nil
  insert-IsSorted x (y ∷ ys) (Pairwise.cons below s) = elim (Bool-cases (less y x)) [
    | inl p ↦
        rw (p, insert)
          (Pairwise.cons
            (IsBelow-perm y _ _ (insert-perm less x ys) (IsBelow-cons y x ys (o.asym y x p) below))
            (insert-IsSorted x ys s))
    | inr p ↦
        let whole = Pairwise.cons below s in
        rw (p, insert) (Pairwise.cons (IsBelow-head x y ys p whole) whole)
  ]

  -- The result is ascending.
  pub sort_slice-IsSorted : (l : List A) → IsSorted less (sort_slice less l)
  unfolding sort_slice
  sort_slice-IsSorted [] = Pairwise.nil
  sort_slice-IsSorted (x ∷ xs) = insert-IsSorted x (sort_slice less xs) (sort_slice-IsSorted xs)

  Before-refl : (a : A) → Before less a a
  Before-refl a = elim (Bool-cases (less a a)) [ inl p ↦ o.asym a a p | inr p ↦ p ]

  heads-Before :
      (a b : A) (l r : List A) → IsSorted less (a ∷ l) → Perm (b ∷ r) (a ∷ l) → Before less a b
  unfolding IsBelow
  heads-Before a b l r s p =
      IsBelow-perm a _ _ p (IsBelow-head a a l (Before-refl a) s) b mem-cons_self

  -- A list has one ascending rearrangement.
  pub IsSorted-eq_of_perm : (l r : List A) → IsSorted less l → IsSorted less r → Perm l r → l ≡ r
  IsSorted-eq_of_perm [] r _ _ p = Perm.nil-eq p
  IsSorted-eq_of_perm (a ∷ l) [] _ _ p = Perm.eq-nil p
  IsSorted-eq_of_perm (a ∷ l) (b ∷ r) sl sr p =
      let heads =
        o.connected a b (heads-Before b a r l sr p) (heads-Before a b l r sl (Perm.symm p)) in
      let tails = Perm.cons_inv (Perm.trans p (Perm.symm (Perm.cons' heads Perm.rfl))) in
      ap₂ ◌∷◌ heads (IsSorted-eq_of_perm l r (Pairwise.of_cons sl) (Pairwise.of_cons sr) tails)

  -- Sorting forgets the order of its input.
  pub sort_slice-perm_invariant : (l r : List A) → Perm l r → sort_slice less l ≡ sort_slice less r
  sort_slice-perm_invariant l r p =
      IsSorted-eq_of_perm _ _ (sort_slice-IsSorted l) (sort_slice-IsSorted r)
        (Perm.trans (sort_slice-perm less l) (Perm.trans p (Perm.symm (sort_slice-perm less r))))
