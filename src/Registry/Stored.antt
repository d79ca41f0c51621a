-- ===== src/Registry/Stored.antt =====
-- What `Add` leaves in the table.
use mathlib.Core.Logic.{◌∨₁◌}
use mathlib.Core.Logic.Or
use mathlib.Core.List.{Nodup, Nodup-cons}
use agentattest.Prelude.{
  String, ◌≡◌, refl, sym, ◌∙◌, ◌↔◌, true, false, Option, some, List, [], ◌∷◌, map, Mem, arith,
  Bool-cases, inl, inr,
}
use agentattest.Env.{Bytes}
use agentattest.Sql.{Table, IsTable, replace_all}
use agentattest.Sql.Laws.{clear, Lasting, mem-replace_all}
use agentattest.Verify.FailureOrder.{contains}
use agentattest.Verify.FailureOrder.Canonical.{contains_iff}
use agentattest.Registry.{Decoded, Row, new_digests, row_of, same_key, add}
use agentattest.Registry.Indexed.{new_digests_lem}

-- The rows of one statement.
abbrev pub rows_of : Decoded → String → String → List Row
rows_of doc path now = map (row_of doc path now) (new_digests [] doc.subjects)

clear-row_of :
    (doc : Decoded) (path now : String) (digests : List String) (d : String)
    → contains digests d ≡ false
    → clear same_key (map (row_of doc path now) digests) (row_of doc path now d) ≡ true
unfolding contains same_key row_of
clear-row_of doc path now [] d h = refl
clear-row_of doc path now (e ∷ digests) d h = ground (arith, clear-row_of doc path now digests d)

rows-Lasting :
    (doc : Decoded) (path now : String) (digests : List String)
    → Nodup digests
    → Lasting same_key (map (row_of doc path now) digests)
rows-Lasting doc path now [] n = tt
rows-Lasting doc path now (d ∷ digests) n =
    let (fresh, rest) = Nodup-cons.0 n in
    (
      Or.inl (
          clear-row_of doc path now digests d (elim (Bool-cases (contains digests d)) [
            | inl p ↦ absurd (fresh ((contains_iff digests d).0 p))
            | inr p ↦ p
          ])),
      rows-Lasting doc path now digests rest,
    )

module _ {Db : Type 0} (t : Table Db Row) (law : IsTable t same_key) where
  pub add-eq :
      (decode : Bytes → Option Decoded) (now : String) (db : Db) (statement_json : Bytes)
      (path : String) (doc : Decoded)
      → decode statement_json ≡ some doc
      → add t decode now db statement_json path ≡ replace_all t db (rows_of doc path now)
  unfolding add
  add-eq decode now db statement_json path doc decoded = rw (add, decoded) refl

  -- On a table of the engine, an `Add` that returns no error leaves the rows of the statement, one for
  -- each digest that it indexes, and of the rows that were there those whose key is none of theirs.
  pub add_refines :
      (decode : Bytes → Option Decoded) (now : String) (db : Db) (statement_json : Bytes)
      (path : String) (doc : Decoded) (after : Db) (r : Row)
      → decode statement_json ≡ some doc
      → add t decode now db statement_json path ≡ (after, true)
      → Mem r (law.rows after) ↔ (
          (Mem r (rows_of doc path now))
          ∨₁ (Mem r (law.rows db) × (clear same_key (rows_of doc path now) r ≡ true)))
  add_refines decode now db statement_json path doc after r decoded h =
      mem-replace_all t same_key law db (rows_of doc path now) after r
        (rows-Lasting doc path now (new_digests [] doc.subjects) (new_digests_lem doc.subjects).0)
        (sym (add-eq decode now db statement_json path doc decoded) ∙ h)
