-- ===== src/Prelude/Text.antt =====
-- Go's order on strings: a strict total order, by the library's comparison of texts.
use Prim.Native.Nat.{ℕ, Ordering, compare as compare_ℕ}
use Prim.Native.Char.{Char, code}
use Prim.Native.String.compare
use Prim.Native.String.{String, [], ◌∷◌, compare, then}
use mathlib.Core.Path.{◌≡◌, refl, sym, ap, ◌∙◌}
use mathlib.Core.Bool.{Bool, true, false}
use native.Mathlib.Omega.{arith}
use text.Mathlib.Text.{is_lt, ◌==◌}
use text.Mathlib.TextEquality.{path_by_compare, eq_iff}
use mathlib.Core.Logic.{inl, inr}
use std.HLevel.{hedberg}
use agentattest.Prelude.Basic.{Bool-cases}

-- `s < t`
unfoldable pub text_less : String → String → Bool
text_less s t = is_lt (compare s t)

abbrev flip : Ordering → Ordering
flip Ordering.lt = Ordering.gt
flip Ordering.eq = Ordering.eq
flip Ordering.gt = Ordering.lt

compare_ℕ-flip : (m n : ℕ) → compare_ℕ n m ≡ flip (compare_ℕ m n)
compare_ℕ-flip m n = ground arith

cons_cons :
    (c d : Char) (s t : String)
    → compare (c ∷ s) (d ∷ t) ≡ then (compare_ℕ (code c) (code d)) (compare s t)
cons_cons c d s t = λ i. compare.cons-cons c d s t i

cons_nil : (c : Char) (s : String) → compare (c ∷ s) [] ≡ Ordering.gt
cons_nil c s = λ i. compare.cons-nil c s i

compare-flip : (s t : String) → compare t s ≡ flip (compare s t)
compare-flip [] [] = refl
compare-flip [] (d ∷ t) =
    (λ i. compare.cons-nil d t i) ∙ sym (ap flip (λ i. compare.nil-cons d t i))
compare-flip (c ∷ s) [] =
    (λ i. compare.nil-cons c s i) ∙ sym (ap flip (λ i. compare.cons-nil c s i))
compare-flip (c ∷ s) (d ∷ t) =
    rw (cons_cons c d s t, cons_cons d c t s)
      (ground (arith, compare-flip s t, compare_ℕ-flip (code c) (code d)))

then_trans :
    (l m n : ℕ) (o p q : Ordering)
    → (o ≡ Ordering.lt → p ≡ Ordering.lt → q ≡ Ordering.lt)
    → then (compare_ℕ l m) o ≡ Ordering.lt
    → then (compare_ℕ m n) p ≡ Ordering.lt
    → then (compare_ℕ l n) q ≡ Ordering.lt
then_trans l m n o p q rest h k = ground arith

compare_trans :
    (s t u : String)
    → compare s t ≡ Ordering.lt
    → compare t u ≡ Ordering.lt
    → compare s u ≡ Ordering.lt
compare_trans s [] [] h k = h
compare_trans [] [] u h k = k
compare_trans (c ∷ s) [] u h k = cc (cons_nil c s)
compare_trans s (d ∷ t) [] h k = cc (cons_nil d t)
compare_trans [] (d ∷ t) (e ∷ u) h k = λ i. compare.nil-cons e u i
compare_trans (c ∷ s) (d ∷ t) (e ∷ u) h k =
    cons_cons c e s u
    ∙ then_trans (code c) (code d) (code e) _ _ _ (compare_trans s t u) (rw cons_cons at h)
        (rw cons_cons at k)

pub text_less_trans :
    (s t u : String) → text_less s t ≡ true → text_less t u ≡ true → text_less s u ≡ true
unfolding text_less
text_less_trans s t u h k = ground (arith, compare_trans s t u)

pub text_less_asym : (s t : String) → text_less s t ≡ true → text_less t s ≡ false
unfolding text_less
text_less_asym s t h = ground (arith, compare-flip s t)

pub text_less_connected : (s t : String) → text_less s t ≡ false → text_less t s ≡ false → s ≡ t
unfolding text_less
text_less_connected s t h k = path_by_compare s t (ground (arith, compare-flip s t))

-- Texts are equal or not, by `==`.
String-discrete : Discrete String
String-discrete s t = elim (Bool-cases (s == t)) [
  | inl p ↦ yes ((eq_iff s t).0 p)
  | inr p ↦ no (λ e. cc (p, (eq_iff s t).1 e))
]

pub String-IsSet : IsSet String
String-IsSet = hedberg String-discrete
