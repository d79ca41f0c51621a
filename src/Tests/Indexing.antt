-- ===== src/Tests/Indexing.antt =====
-- The registry on a statement with a repeated digest and one without a digest, over a list of rows.
use mathlib.Core.Logic.{◌∨₁◌}
use mathlib.Core.List.{Nodup, mem-cons_self}
use agentattest.Prelude.{
  ℕ, ◌+◌, String, ◌≡◌, ◌≢◌, ◌↔◌, refl, Bool, true, not, some, List, [], ◌∷◌, map, Mem, Perm, keep,
  length, same_some, subst, sym,
}
use agentattest.Tests.Tables
use agentattest.Prelude.Sort.{sort_slice}
use agentattest.Sql.{Table, IsTable, replace_all}
use agentattest.Sql.Laws.{clear}
use agentattest.Verify.FailureOrder.{lookup, contains}
use agentattest.Registry.{
  Decoded, Row, entry_of, nullable, sha256_of, new_digests, row_of, same_key, add, by_subject,
  by_repo, by_run_id,
}
use agentattest.Registry.Indexed.{new_digests_lem}
use agentattest.Registry.Stored.{rows_of, add_refines}
use agentattest.Registry.Queries.{add_found, add_without_path}
use agentattest.Registry.Reachable.{Reach, opened, added, IsFiled, Reach-IsFiled}

abbrev list_table : Table (List Row) Row
list_table = Tables.list_table same_key

abbrev list_table_law : IsTable list_table same_key
list_table_law = Tables.list_table_law same_key

abbrev subjects : List (List (String × String))
subjects = (("sha256", "a") ∷ []) ∷ (("sha512", "b") ∷ []) ∷ (("sha256", "a") ∷ []) ∷ []

abbrev decoded : Decoded
decoded = record {
  predicate_type = "t";
  subjects = subjects;
  run_id = "r";
  level = "";
  repo_url = "u";
}

abbrev stored : List Row
stored = row_of decoded "p" "now" "a" ∷ []

add_once : add list_table (λ raw. some decoded) "now" [] [] "p" ≡ (stored, true)
unfolding add sha256_of lookup contains replace_all
add_once = refl

add_again : add list_table (λ raw. some decoded) "now" stored [] "p" ≡ (stored, true)
unfolding add sha256_of lookup contains replace_all same_key row_of nullable
add_again = refl

new_digests_lem_example :
    Nodup (new_digests [] subjects)
    × ((d : String) → Mem d (new_digests [] subjects) ↔ ((d ≢ "") × Mem d (map sha256_of subjects)))
new_digests_lem_example = new_digests_lem subjects

add_refines_example : Mem (row_of decoded "p" "now" "a") stored ↔ (
    (Mem (row_of decoded "p" "now" "a") (rows_of decoded "p" "now"))
    ∨₁ (Mem (row_of decoded "p" "now" "a") []
        × (clear same_key (rows_of decoded "p" "now") (row_of decoded "p" "now" "a") ≡ true)))
add_refines_example =
    add_refines list_table list_table_law (λ raw. some decoded) "now" [] [] "p" decoded stored
      (row_of decoded "p" "now" "a") refl add_once

add_found_example :
    let entry = entry_of (row_of decoded "p" "now" "a") in
    (by_subject list_table stored "a" ≡ some (entry ∷ []) → Mem entry (entry ∷ []))
    × (decoded.repo_url ≢ ""
        → by_repo list_table stored "u" ≡ some (entry ∷ [])
        → Mem entry (entry ∷ []))
    × (decoded.run_id ≢ ""
        → by_run_id list_table stored "r" ≡ some (entry ∷ [])
        → Mem entry (entry ∷ []))
unfolding sha256_of lookup contains new_digests
add_found_example =
    add_found list_table list_table_law (λ raw. some decoded) "now" [] [] "p" decoded stored "a"
      (entry_of (row_of decoded "p" "now" "a") ∷ []) refl add_once mem-cons_self

found_again : by_subject list_table stored "a" ≡ some (entry_of (row_of decoded "p" "now" "a") ∷ [])
unfolding by_subject row_of sort_slice agentattest.Prelude.◌>>=◌
found_again = refl

-- The same statement twice, without a path.
add_pathless :
    add list_table (λ raw. some decoded) "now" (row_of decoded "" "now" "a" ∷ []) [] ""
    ≡ (row_of decoded "" "now" "a" ∷ row_of decoded "" "now" "a" ∷ [], true)
unfolding add sha256_of lookup contains replace_all same_key row_of nullable
add_pathless = refl

add_without_path_example : 2 ≡ length (new_digests [] subjects) + 1
add_without_path_example =
    add_without_path list_table list_table_law (λ raw. some decoded) "now"
      (row_of decoded "" "now" "a" ∷ []) [] decoded
      (row_of decoded "" "now" "a" ∷ row_of decoded "" "now" "a" ∷ []) refl add_pathless

Reach-IsFiled_example : IsFiled (row_of decoded "p" "now" "a")
Reach-IsFiled_example =
    Reach-IsFiled list_table list_table_law (λ raw. some decoded) {db = stored}
      (subst (λ s. Reach list_table list_table_law (λ raw. some decoded) s.0) add_once
        (added "now" [] "p" (opened refl)))
      (row_of decoded "p" "now" "a") mem-cons_self
