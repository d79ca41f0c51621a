-- ===== src/Cache/Rows.antt =====
-- The rows that `IndexDigest` inserts: their keys determine them.
use mathlib.Core.Logic.Or
use mathlib.Core.List.{not-mem-nil, mem-cons}
use agentattest.Prelude.{
  String, ◌≡◌, refl, sym, inl, inr, ◌||◌, All, Bool, true, false, List, [], ◌∷◌, ◌==◌, ◌++◌, Mem,
  arith, eq_iff, subst, Bool-cases, if◌then◌else◌,
}
use agentattest.Prelude.Text.{String-IsSet}
use agentattest.Sql.Laws.{clear, Lasting, same-Lasting}
use agentattest.Gitbind.Types.{Result, FileDigest}
use agentattest.Cache.{Row, ref, digest, timestamp, same_key, ref_rows, file_rows, index_rows}

-- The value that a key of the table of references has after `IndexDigest`.
abbrev pub value_of : Result → String → String
value_of result key =
    if key == "repo.url"
    then result.repo_url
    else if key == "repo.baseCommit"
    then result.base_commit
    else result.head_commit

-- A row says no more than its key, the binding and the instant determine.
abbrev pub IsDetermined : Result → String → Row → Type 0
IsDetermined result now (ref key value seen) = (value ≡ value_of result key) × (seen ≡ now)
IsDetermined result now (digest algorithm hash kind path seen) = seen ≡ now
IsDetermined result now (timestamp name value seen) = (value ≡ now) × (seen ≡ now)

IsDetermined-same :
    (result : Result) (now : String) (m n : Row)
    → IsDetermined result now m
    → IsDetermined result now n
    → same_key m n ≡ true
    → m ≡ n
unfolding same_key
IsDetermined-same result now (ref a v s) (ref b w t) (h, i) (j, k) e =
    ground (arith, eq_iff a b, h, i, j, k, e)
IsDetermined-same result now (digest a h k p s) (digest b i l q t) x y e =
    ground (arith, eq_iff a b, eq_iff h i, eq_iff k l, eq_iff p q, x, y, e)
IsDetermined-same result now (timestamp a v s) (timestamp b w t) (h, i) (j, k) e =
    ground (arith, eq_iff a b, h, i, j, k, e)
IsDetermined-same result now (ref a v s) (digest b i l q t) x y e = cc e
IsDetermined-same result now (ref a v s) (timestamp b w t) x y e = cc e
IsDetermined-same result now (digest a h k p s) (ref b w t) x y e = cc e
IsDetermined-same result now (digest a h k p s) (timestamp b w t) x y e = cc e
IsDetermined-same result now (timestamp a v s) (ref b w t) x y e = cc e
IsDetermined-same result now (timestamp a v s) (digest b i l q t) x y e = cc e

IsDetermined-IsProp :
    (result : Result) (now : String) (r : Row) → IsProp (IsDetermined result now r)
IsDetermined-IsProp result now (ref key value seen) = hlevel (String-IsSet)
IsDetermined-IsProp result now (digest algorithm hash kind path seen) = String-IsSet seen now
IsDetermined-IsProp result now (timestamp name value seen) = hlevel (String-IsSet)

All-append {ℓ κ} : {A : Type ℓ} (P : A → Type κ) (l r : List A) → All P l → All P r → All P (l ++ r)
All-append P [] r h k = k
All-append P (x ∷ l) r (here, h) k = (here, All-append P l r h k)

All-Mem {ℓ κ} :
    {A : Type ℓ} (P : A → Type κ)
    → ((a : A) → IsProp (P a))
    → (l : List A) (a : A) → All P l
    → Mem a l
    → P a
All-Mem P prop [] a h m = absurd (not-mem-nil m)
All-Mem P prop (x ∷ l) a (first, h) m =
    Or.elim (prop a) (mem-cons.0 m) (λ e. subst P (sym e) first) (λ k. All-Mem P prop l a h k)

file_rows-IsDetermined :
    (result : Result) (now : String) (files : List FileDigest)
    → All (IsDetermined result now) (file_rows now files)
unfolding file_rows
file_rows-IsDetermined result now [] = tt
file_rows-IsDetermined result now (file ∷ files) = elim (Bool-cases (file.sha256 == "")) [
  | inl p ↦ rw p (file_rows-IsDetermined result now files)
  | inr p ↦ rw p (refl, file_rows-IsDetermined result now files)
]

index_rows-IsDetermined :
    (result : Result) (now : String) → All (IsDetermined result now) (index_rows result now)
unfolding index_rows ref_rows
index_rows-IsDetermined result now =
    let files =
      All-append (IsDetermined result now) (file_rows now result.changed_files) _
        (file_rows-IsDetermined result now result.changed_files) ((refl, refl), tt) in
    ((refl, refl), ((refl, refl), ((refl, refl), (refl, files))))

pub index_row-IsDetermined :
    (result : Result) (now : String) (r : Row)
    → Mem r (index_rows result now)
    → IsDetermined result now r
index_row-IsDetermined result now r =
    All-Mem (IsDetermined result now) (IsDetermined-IsProp result now) (index_rows result now) r
      (index_rows-IsDetermined result now)

pub index_rows-Lasting : (result : Result) (now : String) → Lasting same_key (index_rows result now)
index_rows-Lasting result now = same-Lasting same_key (index_rows result now) (λ m n j k.
    IsDetermined-same result now m n (index_row-IsDetermined result now m j)
      (index_row-IsDetermined result now n k))

abbrev pub is_ref_key : String → Bool
is_ref_key key = key == "repo.url" || (key == "repo.baseCommit" || key == "repo.headCommit")

pub clear-ref_key :
    (result : Result) (now key value seen : String)
    → is_ref_key key ≡ true
    → clear same_key (index_rows result now) (ref key value seen) ≡ false
unfolding index_rows ref_rows same_key
clear-ref_key result now key value seen h = ground (
  arith,
  eq_iff key "repo.url",
  eq_iff key "repo.baseCommit",
  eq_iff key "repo.headCommit",
  eq_iff "repo.url" key,
  eq_iff "repo.baseCommit" key,
  eq_iff "repo.headCommit" key,
)
