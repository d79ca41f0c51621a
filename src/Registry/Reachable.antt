-- ===== src/Registry/Reachable.antt =====
-- What holds of every registry, however it came about.
use mathlib.Core.List.{not-mem-nil, exists_of_mem-map}
use mathlib.Core.Logic.{∥∥₁_elim}
use agentattest.Prelude.{
  String, ◌≡◌, ◌≢◌, refl, false, Option, none, some, [], Mem, arith, eq_iff, subst,
}
use agentattest.Env.{Bytes}
use agentattest.Sql.{Table, IsTable}
use agentattest.Sql.Laws.{replace_all-keeps}
use agentattest.Registry.{Decoded, Row, nullable, row_of, same_key, add}
use agentattest.Registry.Indexed.{new_digests_lem}
use agentattest.Registry.Stored.{rows_of, add-eq}

-- A row is filed under a digest, and its optional columns are NULL in place of the empty text.
abbrev pub IsFiled : Row → Type 0
IsFiled r =
    (r.subject_digest ≢ "")
    × (r.repo_url ≢ some "")
    × (r.run_id ≢ some "")
    × (r.predicate_type ≢ some "")
    × (r.level ≢ some "")
    × (r.statement_path ≢ some "")

module _ {Db : Type 0} (t : Table Db Row) (law : IsTable t same_key)
    (decode : Bytes → Option Decoded) where
  -- The databases that any sequence of `Add`s leaves, those that return an error included.
  pub data Reach : Db → Type 0 where
    opened : {db : Db} → law.rows db ≡ [] → Reach db
    added :
        {db : Db} (now : String) (statement_json : Bytes) (path : String)
        → Reach db
        → Reach (add t decode now db statement_json path).0

  nullable-ne : (s : String) → nullable s ≢ some ""
  unfolding nullable
  nullable-ne s = ground (arith, eq_iff s "")

  row_of-IsFiled :
      (doc : Decoded) (path now digest : String)
      → digest ≢ ""
      → IsFiled (row_of doc path now digest)
  unfolding row_of
  row_of-IsFiled doc path now digest h = (
    h,
    nullable-ne doc.repo_url,
    nullable-ne doc.run_id,
    nullable-ne doc.predicate_type,
    nullable-ne doc.level,
    nullable-ne path,
  )

  rows_of-IsFiled :
      (doc : Decoded) (path now : String) (r : Row) → Mem r (rows_of doc path now) → IsFiled r
  rows_of-IsFiled doc path now r m = ∥∥₁_elim (exists_of_mem-map m) (hlevel) (λ (d, inside, e).
      subst IsFiled e
        (row_of-IsFiled doc path now d (((new_digests_lem doc.subjects).1 d).0 inside).0))

  add-none :
      (db : Db) (now : String) (statement_json : Bytes) (path : String)
      → decode statement_json ≡ none
      → add t decode now db statement_json path ≡ (db, false)
  unfolding add
  add-none db now statement_json path e = rw (add, e) refl

  add-IsFiled :
      (db : Db) (now : String) (statement_json : Bytes) (path : String) (o : Option Decoded)
      → decode statement_json ≡ o
      → ((r : Row) → Mem r (law.rows db) → IsFiled r)
      → (r : Row) → Mem r (law.rows (add t decode now db statement_json path).0)
      → IsFiled r
  add-IsFiled db now statement_json path none e old r m =
      old r (subst (λ s. Mem r (law.rows s.0)) (add-none db now statement_json path e) m)
  add-IsFiled db now statement_json path (some doc) e old r m =
      replace_all-keeps t same_key law IsFiled (λ x. hlevel) db (rows_of doc path now) old
        (rows_of-IsFiled doc path now) r
        (subst (λ s. Mem r (law.rows s.0)) (add-eq t law decode now db statement_json path doc e) m)

  -- However a registry was filled, each of its rows is filed under a digest that is not empty, and has
  -- NULL in place of an empty text.
  pub Reach-IsFiled : {db : Db} → Reach db → (r : Row) → Mem r (law.rows db) → IsFiled r
  Reach-IsFiled (opened e) r m = absurd (not-mem-nil (subst (Mem r) e m))
  Reach-IsFiled (added {db} now statement_json path reach) r m =
      add-IsFiled db now statement_json path (decode statement_json) refl (Reach-IsFiled reach) r m
