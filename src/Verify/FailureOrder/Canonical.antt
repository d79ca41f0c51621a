-- ===== src/Verify/FailureOrder/Canonical.antt =====
-- The presented order depends on nothing but the set of the codes.
use mathlib.Core.Logic.Or
use mathlib.Core.Logic.Iff
use mathlib.Core.List.Perm
use mathlib.Core.List.{
  Nodup, mem-cons, not-mem-nil, perm_ext_iff_of_Nodup, perm_append_singleton, Nodup-cons, Nodup-nil,
}
use agentattest.Prelude.{
  ℕ, ◌<◌, String, ◌≡◌, refl, ◌↔◌, true, false, Option, none, some, List, [], ◌∷◌, ◌++◌, Mem, arith,
  ◌==◌, eq_iff, All, Bool-cases, sym, ◌∙◌, ◌⊎◌, inl, inr, if◌then◌else◌, ◌||◌,
}
use agentattest.Prelude.Sort.{IsTotalOrder, IsSorted, sort_slice-perm, sort_slice-IsSorted}
use agentattest.Prelude.Sort.{IsSorted-eq_of_perm}
use agentattest.Prelude.Text.{text_less_trans, text_less_asym, text_less_connected, text_less}
use agentattest.Verify.FailureOrder.{
  lookup, failure_priority, priority, by_priority, code_less, contains, unique, order_failure_codes,
}

-- Every key stands below the later ones.
abbrev IsAscending : List (String × ℕ) → Type 0
IsAscending [] = Unit
IsAscending ((k, v) ∷ m) = All (λ e. v < e.1) m × IsAscending m

lookup-above :
    (a : String) (m : List (String × ℕ)) (n p : ℕ)
    → All (λ e. n < e.1) m
    → lookup a m ≡ some p
    → n < p
unfolding lookup
lookup-above a [] n p h e = ground arith
lookup-above a ((k, v) ∷ m) n p h e = ground (arith, lookup-above a m n p)

lookup_inj :
    (a b : String) (m : List (String × ℕ)) (p : ℕ)
    → IsAscending m
    → lookup a m ≡ some p
    → lookup b m ≡ some p
    → a ≡ b
unfolding lookup
lookup_inj a b [] p h ea eb = ground arith
lookup_inj a b ((k, v) ∷ m) p h ea eb =
    ground (
      arith,
      eq_iff k a,
      eq_iff k b,
      lookup_inj a b m p,
      lookup-above a m v p,
      lookup-above b m v p,
    )

failure_priority-IsAscending : IsAscending failure_priority
failure_priority-IsAscending = omega arith

priority_inj : (a b : String) (p : ℕ) → priority a ≡ some p → priority b ≡ some p → a ≡ b
unfolding priority
priority_inj a b p = lookup_inj a b failure_priority p failure_priority-IsAscending

text_before_trans :
    (a b c : String) → text_less b a ≡ false → text_less c b ≡ false → text_less c a ≡ false
text_before_trans a b c h k =
    ground (arith, text_less_trans c a b, text_less_connected a b, text_less_asym c a)

by_priority_trans :
    (p q r : Option ℕ) (a b c : String)
    → by_priority q p b a ≡ false
    → by_priority r q c b ≡ false
    → by_priority r p c a ≡ false
unfolding by_priority
by_priority_trans p q r a b c h k = ground (arith, text_before_trans a b c)

by_priority_asym :
    (p q : Option ℕ) (a b : String) → by_priority p q a b ≡ true → by_priority q p b a ≡ false
unfolding by_priority
by_priority_asym p q a b h = ground (arith, text_less_asym a b)

-- Codes that neither precede nor follow one another share their priority, or have none.
by_priority_tied :
    (p q : Option ℕ) (a b : String)
    → by_priority p q a b ≡ false
    → by_priority q p b a ≡ false
    → ((n : ℕ) × (p ≡ some n) × (q ≡ some n)) ⊎ (a ≡ b)
unfolding by_priority
by_priority_tied (some m) (some n) a b h k = inl (m, refl, ground arith)
by_priority_tied (some m) none a b h k = ground arith
by_priority_tied none (some n) a b h k = ground arith
by_priority_tied none none a b h k = inr (text_less_connected a b h k)

code_less_connected : (a b : String) → code_less a b ≡ false → code_less b a ≡ false → a ≡ b
unfolding code_less
code_less_connected a b h k = elim (by_priority_tied (priority a) (priority b) a b h k) [
  | inl (n, ea, eb) ↦ priority_inj a b n ea eb
  | inr e ↦ e
]

pub code_less-IsTotalOrder : IsTotalOrder code_less
unfolding code_less
code_less-IsTotalOrder = record {
  trans = λ a b c. by_priority_trans (priority a) (priority b) (priority c) a b c;
  asym = λ a b. by_priority_asym (priority a) (priority b) a b;
  connected = code_less_connected;
}

contains-append :
    (xs ys : List String) (a : String) → contains (xs ++ ys) a ≡ (contains xs a || contains ys a)
unfolding contains
contains-append [] ys a = refl
contains-append (x ∷ xs) ys a = ground (arith, contains-append xs ys a)

pub contains_iff : (xs : List String) (a : String) → (contains xs a ≡ true) ↔ Mem a xs
unfolding contains
contains_iff [] a = (λ h. ground arith, λ m. absurd (not-mem-nil m))
contains_iff (x ∷ xs) a = (
  λ h. elim (Bool-cases (x == a)) [
    | inl p ↦ mem-cons.1 (Or.inl (sym ((eq_iff x a).0 p)))
    | inr p ↦ mem-cons.1 (Or.inr ((contains_iff xs a).0 (ground arith)))
  ],
  λ m.
      Or.elim (hlevel) (mem-cons.0 m) (λ e. ground (arith, eq_iff x a))
        (λ r. ground (arith, (contains_iff xs a).1 r)),
)

-- `seen` and `ordered` hold the same codes.
abbrev SameCodes : List String → List String → Type 0
SameCodes seen ordered = (c : String) → contains seen c ≡ contains ordered c

SameCodes-step :
    (code : String) (seen ordered : List String)
    → SameCodes seen ordered
    → SameCodes
        (if contains seen code then seen else code ∷ seen)
        (if contains seen code then ordered else ordered ++ code ∷ [])
unfolding contains
SameCodes-step code seen ordered h c = ground (arith, contains-append ordered (code ∷ []) c, h c)

contains-unique :
    (codes seen ordered : List String)
    → SameCodes seen ordered
    → (a : String)
    → contains (unique codes seen ordered) a ≡ (contains ordered a || contains codes a)
unfolding unique
contains-unique [] seen ordered h a = ground arith
contains-unique (code ∷ codes) seen ordered h a =
    contains-unique codes _ _ (SameCodes-step code seen ordered h) a
    ∙ ground (arith, contains-append ordered (code ∷ []) a, h code, eq_iff code a)

Nodup-snoc : (l : List String) (a : String) → contains l a ≡ false → Nodup l → Nodup (l ++ a ∷ [])
Nodup-snoc l a fresh n =
    Perm.nodup (Perm.symm (perm_append_singleton a l))
      (Nodup-cons.1 (λ m. cc ((contains_iff l a).1 m), n))

unique-Nodup :
    (codes seen ordered : List String)
    → SameCodes seen ordered
    → Nodup ordered
    → Nodup (unique codes seen ordered)
unfolding unique
unique-Nodup [] seen ordered h n = n
unique-Nodup (code ∷ codes) seen ordered h n =
    unique-Nodup codes _ _ (SameCodes-step code seen ordered h)
      (elim (Bool-cases (contains seen code)) [
        | inl p ↦ rw p n
        | inr p ↦ rw p (Nodup-snoc ordered code (ground (arith, h code)) n)
      ])

-- The ordered list has exactly the codes of the given list.
pub order_failure_codes-mem :
    (codes : List String) (a : String) → Mem a (order_failure_codes codes) ↔ Mem a codes
unfolding order_failure_codes
order_failure_codes-mem codes a =
    Iff.trans (Perm.mem_iff (sort_slice-perm code_less (unique codes [] []))) (
      Iff.trans (Iff.symm (contains_iff _ a))
        (rw (contains-unique codes [] [] (λ c. refl) a) (contains_iff codes a)))

-- No code is presented twice.
pub order_failure_codes-Nodup : (codes : List String) → Nodup (order_failure_codes codes)
unfolding order_failure_codes
order_failure_codes-Nodup codes =
    Perm.nodup (Perm.symm (sort_slice-perm code_less (unique codes [] [])))
      (unique-Nodup codes [] [] (λ c. refl) Nodup-nil)

-- The codes are presented in ascending order.
pub order_failure_codes-IsSorted :
    (codes : List String) → IsSorted code_less (order_failure_codes codes)
unfolding order_failure_codes
order_failure_codes-IsSorted codes =
    sort_slice-IsSorted code_less code_less-IsTotalOrder (unique codes [] [])

-- Two lists with the same set of codes, in whatever order and with whatever repetitions, are
-- ordered to the same list.
pub order_failure_codes_canonical :
    (xs ys : List String)
    → ((a : String) → Mem a xs ↔ Mem a ys)
    → order_failure_codes xs ≡ order_failure_codes ys
order_failure_codes_canonical xs ys same =
    IsSorted-eq_of_perm code_less code_less-IsTotalOrder _ _ (order_failure_codes-IsSorted xs)
      (order_failure_codes-IsSorted ys)
      ((perm_ext_iff_of_Nodup (order_failure_codes-Nodup xs) (order_failure_codes-Nodup ys)).1 (λ a.
        Iff.trans (order_failure_codes-mem xs a)
          (Iff.trans (same a) (Iff.symm (order_failure_codes-mem ys a)))))
