-- ===== src/Tests/Tables.antt =====
-- A list of rows as a table of the SQL engine.
use mathlib.Core.List.Perm
use agentattest.Prelude.{Bool, not, some, List, ◌∷◌, Perm, keep, same_some, subst}
use agentattest.Prelude.Sort.{sort_slice, sort_slice-perm}
use agentattest.Sql.{Table, IsTable}

module _ {Row : Type 0} (same : Row → Row → Bool) where
  abbrev pub list_table : Table (List Row) Row
  list_table = record {
    replace = λ rows row. some (row ∷ keep (λ r. not (same row r)) rows);
    select = λ rows test less. some (sort_slice less (keep test rows));
  }

  abbrev pub list_table_law : IsTable list_table same
  list_table_law = record {
    rows = λ rows. rows;
    rows-replace = λ db row after h.
        subst (λ l. Perm l (row ∷ keep (λ r. not (same row r)) db)) (same_some h) Perm.rfl;
    rows-select = λ db test less found h.
        subst (λ l. Perm l (keep test db)) (same_some h) (sort_slice-perm less (keep test db));
  }
