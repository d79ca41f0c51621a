-- ===== src/Sql/Laws.antt =====
-- What a loop of insertions leaves in a table.
use mathlib.Core.Logic.{◌∨₁◌}
use mathlib.Core.Logic.Or
use mathlib.Core.Logic.Iff
use mathlib.Core.List.Perm
use mathlib.Core.Logic.{∥∥₁_elim}
use native.Mathlib.Nat.{ℕ_set}
use mathlib.Core.List.{Permᴰ, mem-cons, mem-cons_self, not-mem-nil}
use mathlib.Core.Bool.{false≢true}
use agentattest.Prelude.{
  ◌+◌, Bool, true, false, not, Option, none, some, List, [], ◌∷◌, ◌≡◌, refl, ◌↔◌, Mem, Perm, length,
  keep, mem-keep, Bool-cases, inl, inr, all, ap, subst, sym, ◌∙◌, arith,
}
use agentattest.Sql.{Table, IsTable, replace_all, or_stop}

length-Permᴰ {ℓ} : {A : Type ℓ} {l r : List A} → Permᴰ l r → length l ≡ length r
length-Permᴰ Permᴰ.nil = refl
length-Permᴰ (Permᴰ.cons x p) = omega (arith, length-Permᴰ p)
length-Permᴰ (Permᴰ.swap x y) = refl
length-Permᴰ (Permᴰ.trans p q) = length-Permᴰ p ∙ length-Permᴰ q

pub length-Perm {ℓ} : {A : Type ℓ} {l r : List A} → Perm l r → length l ≡ length r
length-Perm p = ∥∥₁_elim p (ℕ_set _ _) length-Permᴰ

keep_all {ℓ} :
    {A : Type ℓ} (test : A → Bool) (l : List A) → ((a : A) → test a ≡ true) → keep test l ≡ l
keep_all test [] h = refl
keep_all test (x ∷ l) h = rw (keep, h x) (ap (λ r. x ∷ r) (keep_all test l h))

module _ {Row : Type 0} (same : Row → Row → Bool) where
  -- No row of the list conflicts with the given one.
  abbrev pub clear : List Row → Row → Bool
  clear new r = all (λ n. not (same n r)) new

  -- A row of the list that a later one removes is in the list once more after it.
  abbrev pub Lasting : List Row → Type 0
  Lasting [] = Unit
  Lasting (n ∷ new) = ((clear new n ≡ true) ∨₁ Mem n new) × Lasting new

  -- The list has the row itself, or nothing that removes it.
  lasts :
      (n : Row) (new : List Row)
      → ((m : Row) → Mem m new → same m n ≡ true → m ≡ n)
      → (clear new n ≡ true) ∨₁ Mem n new
  lasts n [] h = Or.inl refl
  lasts n (m ∷ new) h = elim (Bool-cases (same m n)) [
    | inl p ↦ Or.inr (subst (λ x. Mem x (m ∷ new)) (h m mem-cons_self p) mem-cons_self)
    | inr p ↦
        Or.elim (hlevel) (lasts n new (λ x k. h x (mem-cons.1 (Or.inr k))))
          (λ c. Or.inl (ground (arith, p, c))) (λ k. Or.inr (mem-cons.1 (Or.inr k)))
  ]

  -- Rows of which no two differ where they have the same key.
  pub same-Lasting :
      (new : List Row)
      → ((m n : Row) → Mem m new → Mem n new → same m n ≡ true → m ≡ n)
      → Lasting new
  same-Lasting [] h = tt
  same-Lasting (n ∷ new) h = (
    lasts n new (λ m k. h m n (mem-cons.1 (Or.inr k)) mem-cons_self),
    same-Lasting new (λ x y j k. h x y (mem-cons.1 (Or.inr j)) (mem-cons.1 (Or.inr k))),
  )

module _ {Db Row : Type 0} (t : Table Db Row) (same : Row → Row → Bool) (law : IsTable t same) where
  pub mem-replace :
      (db : Db) (row : Row) (after : Db) (r : Row)
      → t.replace db row ≡ some after
      → Mem r (law.rows after) ↔ ((r ≡ row) ∨₁ (Mem r (law.rows db) × (same row r ≡ false)))
  mem-replace db row after r done =
      let found = Perm.mem_iff (law.rows-replace db row after done) in
      let kept = mem-keep (λ x. not (same row x)) r (law.rows db) in
      (
        λ m.
            Or.elim (hlevel) (mem-cons.0 (found.0 m)) (λ e. Or.inl e)
              (λ k. let (inside, good) = kept.0 k in Or.inr (inside, ground arith)),
        λ m. found.1 (
            mem-cons.1 (
              Or.elim (hlevel) m (λ e. Or.inl e)
                (λ k. Or.inr (kept.1 (k.0, ground (arith, k.1)))))),
      )

  replaced-mem :
      (db after : Db) (n : Row) (new : List Row) (r : Row)
      → (clear same new n ≡ true) ∨₁ Mem n new
      → (Mem r (law.rows after) ↔ ((r ≡ n) ∨₁ (Mem r (law.rows db) × (same n r ≡ false))))
      → ((Mem r new) ∨₁ (Mem r (law.rows after) × (clear same new r ≡ true)))
        ↔ ((Mem r (n ∷ new)) ∨₁ (Mem r (law.rows db) × (clear same (n ∷ new) r ≡ true)))
  replaced-mem db after n new r lasting found = (
    λ m.
        Or.elim (hlevel) m (λ k. Or.inl (mem-cons.1 (Or.inr k)))
          (λ k.
            Or.elim (hlevel) (found.0 k.0) (λ e. Or.inl (mem-cons.1 (Or.inl e)))
              (λ old. Or.inr (old.0, ground (arith, old.1, k.1)))),
    λ m.
        Or.elim (hlevel) m
          (λ k.
            Or.elim (hlevel) (mem-cons.0 k)
              (λ e.
                Or.elim (hlevel) lasting
                  (λ c. Or.inr (found.1 (Or.inl e), subst (λ x. clear same new x ≡ true) (sym e) c))
                  (λ k. Or.inl (subst (λ x. Mem x new) (sym e) k)))
              (λ later. Or.inl later))
          (λ k. Or.inr (found.1 (Or.inr (k.0, ground (arith, k.1))), ground (arith, k.1))),
  )

  replaced-first :
      (db : Db) (n : Row) (new : List Row) (after : Db) (o : Option Db)
      → t.replace db n ≡ o
      → ◌≡◌ {A = Db × Bool} (or_stop db o (λ mid. replace_all t mid new)) (after, true)
      → (mid : Db) × (t.replace db n ≡ some mid)
        × (◌≡◌ {A = Db × Bool} (replace_all t mid new) (after, true))
  replaced-first db n new after none e h = absurd (false≢true (ap (λ p. p.1) h))
  replaced-first db n new after (some mid) e h = (mid, e, h)

  -- If all of the insertions of lasting rows are done, the table holds the new rows and the old ones
  -- that do not conflict with any of them.
  pub mem-replace_all :
      (db : Db) (new : List Row) (after : Db) (r : Row)
      → Lasting same new
      → replace_all t db new ≡ (after, true)
      → Mem r (law.rows after) ↔ ((Mem r new) ∨₁ (Mem r (law.rows db) × (clear same new r ≡ true)))
  unfolding replace_all
  mem-replace_all db [] after r lasting h =
      let e : db ≡ after = ap (λ p. p.0) h in
      (
        λ m. Or.inr (subst (λ d. Mem r (law.rows d)) (sym e) m, refl),
        λ m.
            Or.elim (hlevel) m (λ k. absurd (not-mem-nil k))
              (λ k. subst (λ d. Mem r (law.rows d)) e k.0),
      )
  mem-replace_all db (n ∷ new) after r (lasting, later_ones) h =
      let (mid, first, later) = replaced-first db n new after (t.replace db n) refl h in
      Iff.trans (mem-replace_all mid new after r later_ones later)
        (replaced-mem db mid n new r lasting (mem-replace db n mid r first))

  keeps-first {κ} :
      (P : Row → Type κ)
      → ((r : Row) → IsProp (P r))
      → (db : Db) (n : Row) → ((r : Row) → Mem r (law.rows db) → P r)
      → P n
      → (rest : Db → Db × Bool)
      → ((mid : Db)
          → ((r : Row) → Mem r (law.rows mid) → P r)
          → (r : Row) → Mem r (law.rows (rest mid).0)
          → P r)
      → (o : Option Db) → t.replace db n ≡ o
      → (r : Row) → Mem r (law.rows (or_stop db o rest).0)
      → P r
  keeps-first P prop db n old new rest again none e r m = old r m
  keeps-first P prop db n old new rest again (some mid) e r m =
      again mid
        (λ x k.
          Or.elim (prop x) ((mem-replace db n mid x e).0 k) (λ h. subst P (sym h) new)
            (λ h. old x h.0))
        r m

  -- A property that the old rows and the new ones have is kept, also where an insertion fails.
  pub replace_all-keeps {κ} :
      (P : Row → Type κ)
      → ((r : Row) → IsProp (P r))
      → (db : Db) (new : List Row) → ((r : Row) → Mem r (law.rows db) → P r)
      → ((r : Row) → Mem r new → P r)
      → (r : Row) → Mem r (law.rows (replace_all t db new).0)
      → P r
  unfolding replace_all
  replace_all-keeps P prop db [] old fresh r m = old r m
  replace_all-keeps P prop db (n ∷ new) old fresh r m =
      keeps-first P prop db n old (fresh n mem-cons_self) (λ mid. replace_all t mid new)
        (λ mid old'. replace_all-keeps P prop mid new old' (λ x k. fresh x (mem-cons.1 (Or.inr k))))
        (t.replace db n) refl r m

  -- Rows that conflict with none add up.
  pub length-replace_all :
      (db : Db) (new : List Row) (after : Db)
      → ((n r : Row) → Mem n new → same n r ≡ false)
      → ◌≡◌ {A = Db × Bool} (replace_all t db new) (after, true)
      → length (law.rows after) ≡ length new + length (law.rows db)
  unfolding replace_all
  length-replace_all db [] after free h =
      let same_rows : length (law.rows after) ≡ length (law.rows db) =
        ap (λ p. length (law.rows p.0)) (sym h) in
      omega (arith, same_rows)
  length-replace_all db (n ∷ new) after free h =
      let (mid, first, later) = replaced-first db n new after (t.replace db n) refl h in
      let grown = length-Perm (law.rows-replace db n mid first) in
      let rest =
        length-replace_all mid new after (λ x r m. free x r (mem-cons.1 (Or.inr m))) later in
      let kept =
        keep_all (λ r. not (same n r)) (law.rows db)
          (λ r. ground (arith, free n r mem-cons_self)) in
      omega (arith, grown, rest, ap length kept)
