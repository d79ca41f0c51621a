-- ===== src/Registry/Queries.antt =====
-- What the queries find after an `Add`, and what a second `Add` does.
use mathlib.Core.Logic.{∥∥₁_elim}
use mathlib.Core.Logic.Or
use mathlib.Core.List.Perm
use mathlib.Core.List.{mem-map_of_mem, exists_of_mem-map}
use agentattest.Prelude.{
  ◌+◌, String, ◌≡◌, ◌≢◌, refl, sym, ◌∙◌, Bool, true, false, Option, some, List, [], ◌∷◌, map, Mem,
  arith, eq_iff, mem-keep, subst, ap, option_bind-some, same_some, length,
}
use agentattest.Env.{Bytes}
use agentattest.Sql.{Table, IsTable}
use agentattest.Sql.Laws.{length-replace_all}
use agentattest.Registry.{
  Decoded, Row, Entry, nullable, entry_of, row_before, new_digests, row_of, same_key, is_value, add,
  query, by_subject, by_repo, by_run_id,
}
use agentattest.Registry.Stored.{rows_of, add-eq, add_refines}

is_value-nullable : (s : String) → s ≢ "" → is_value (nullable s) s ≡ true
unfolding nullable
is_value-nullable s h = ground (arith, eq_iff s "", eq_iff s s)

unkeyed : (doc : Decoded) (now d : String) (r : Row) → same_key (row_of doc "" now d) r ≡ false
unfolding same_key row_of nullable
unkeyed doc now d r = ground arith

unkeyed-map :
    (doc : Decoded) (now : String) (digests : List String) (n r : Row)
    → Mem n (map (row_of doc "" now) digests)
    → same_key n r ≡ false
unkeyed-map doc now digests n r m =
    ∥∥₁_elim (exists_of_mem-map m) (hlevel)
      (λ (d, _, e). subst (λ x. same_key x r ≡ false) e (unkeyed doc now d r))

length-map {ℓ κ} : {A : Type ℓ} {B : Type κ} (f : A → B) (l : List A) → length (map f l) ≡ length l
length-map f [] = refl
length-map f (x ∷ l) = omega (arith, length-map f l)

module _ {Db : Type 0} (t : Table Db Row) (law : IsTable t same_key) where
  query-mem :
      (db : Db) (clause : Row → Bool) (row : Row) (entries : List Entry)
      → Mem row (law.rows db)
      → clause row ≡ true
      → query t db clause ≡ some entries
      → Mem (entry_of row) entries
  unfolding query
  query-mem db clause row entries m good h =
      let (found, selected, e) = option_bind-some _ _ h in
      subst (Mem (entry_of row)) (same_some e) (
        mem-map_of_mem entry_of (
          (Perm.mem_iff (law.rows-select db clause row_before found selected)).1
            ((mem-keep clause row (law.rows db)).1 (m, good))))

  -- After an `Add` that returns no error, a query by a digest that it indexes, by the statement's
  -- repository or by its run id, where the statement has one, finds the statement's entry.
  pub add_found :
      (decode : Bytes → Option Decoded) (now : String) (db : Db) (statement_json : Bytes)
      (path : String) (doc : Decoded) (after : Db) (digest : String) (entries : List Entry)
      → decode statement_json ≡ some doc
      → add t decode now db statement_json path ≡ (after, true)
      → Mem digest (new_digests [] doc.subjects)
      → let entry = entry_of (row_of doc path now digest) in
        (by_subject t after digest ≡ some entries → Mem entry entries)
        × (doc.repo_url ≢ "" → by_repo t after doc.repo_url ≡ some entries → Mem entry entries)
        × (doc.run_id ≢ "" → by_run_id t after doc.run_id ≡ some entries → Mem entry entries)
  unfolding by_subject by_repo by_run_id row_of
  add_found decode now db statement_json path doc after digest entries decoded h m =
      let row = row_of doc path now digest in
      let stored : Mem row (law.rows after) =
        (add_refines t law decode now db statement_json path doc after row decoded h).1
          (Or.inl (mem-map_of_mem (row_of doc path now) m)) in
      (
        query-mem after _ row entries stored ((eq_iff digest digest).1 refl),
        λ given. query-mem after _ row entries stored (is_value-nullable doc.repo_url given),
        λ given. query-mem after _ row entries stored (is_value-nullable doc.run_id given),
      )

  -- Without a path no row conflicts with another: each `Add` of the same statement adds a row for each
  -- digest that it indexes, also where the rows are there.
  pub add_without_path :
      (decode : Bytes → Option Decoded) (now : String) (db : Db) (statement_json : Bytes)
      (doc : Decoded) (after : Db)
      → decode statement_json ≡ some doc
      → add t decode now db statement_json "" ≡ (after, true)
      → length (law.rows after) ≡ length (new_digests [] doc.subjects) + length (law.rows db)
  add_without_path decode now db statement_json doc after decoded h =
      let done = sym (add-eq t law decode now db statement_json "" doc decoded) ∙ h in
      length-replace_all t same_key law db (rows_of doc "" now) after
        (unkeyed-map doc now (new_digests [] doc.subjects)) done
      ∙ ap (λ n. n + length (law.rows db)) (length-map _ (new_digests [] doc.subjects))
