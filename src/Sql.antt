-- ===== src/Sql.antt =====
-- The SQL engine that the registry and the cache keep their rows in: one table with a primary key.
pub mod Laws
use agentattest.Prelude.{
  ℕ, Bool, true, false, not, Option, none, some, List, [], ◌∷◌, ◌≡◌, Perm, keep, all,
}
use agentattest.Prelude.Sort.{IsSorted}

pub record Table (Db Row : Type 0) : Type 0 where
  -- `insert or replace into t(...) values (...)`
  pub replace : Db → Row → Option Db
  -- `select ... from t where ... order by ...`, the test and the order as functions
  pub select : Db → (Row → Bool) → (Row → Row → Bool) → Option (List Row)

-- What the engine documents. `same` says that two rows have the same primary key, no part of which
-- is NULL: an insertion removes the rows that conflict with the new one.
pub record IsTable {Db Row : Type 0} (t : Table Db Row) (same : Row → Row → Bool) : Type 0 where
  pub rows : Db → List Row
  pub rows-replace :
      (db : Db) (row : Row) (after : Db)
      → t.replace db row ≡ some after
      → Perm (rows after) (row ∷ keep (λ r. not (same row r)) (rows db))
  pub rows-select :
      (db : Db) (test : Row → Bool) (less : Row → Row → Bool) (found : List Row)
      → t.select db test less ≡ some found
      → Perm found (keep test (rows db))

-- The first error ends a loop.
abbrev pub or_stop {ℓ} : {S : Type ℓ} → S → Option S → (S → S × Bool) → S × Bool
or_stop s none rest = (s, false)
or_stop s (some after) rest = rest after

module _ {Db Row : Type 0} (t : Table Db Row) where
  -- A loop of insertions that returns at the first error: the database, and whether all were done.
  unfoldable pub replace_all : Db → List Row → Db × Bool
  replace_all db [] = (db, true)
  replace_all db (row ∷ rows) = or_stop db (t.replace db row) (λ after. replace_all after rows)
