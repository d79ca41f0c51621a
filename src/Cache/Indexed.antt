-- ===== src/Cache/Indexed.antt =====
-- What `IndexDigest` and `Init` leave in the cache.
use mathlib.Core.Logic.{◌∨₁◌}
use mathlib.Core.Logic.Or
use agentattest.Prelude.{
  String, ◌≡◌, ◌≢◌, ◌↔◌, Bool, true, some, List, [], ◌∷◌, ◌||◌, starts_with, Mem,
}
use agentattest.Env.{Bytes}
use agentattest.Sql.{IsTable}
use agentattest.Sql.Laws.{clear}
use agentattest.Gitbind.Types.{Result}
use agentattest.Cache.{Row, ref, same_key, Disk, index_rows, cache_dir, config_name, db_file_name}
use agentattest.Cache.Rows.{value_of, is_ref_key}

-- A statement that creates a table only where there is none, or sets the number that SQLite keeps
-- for the user: by their documentation, these change no row.
abbrev pub is_harmless : String → Bool
is_harmless sql =
    starts_with sql "create table if not exists " || starts_with sql "pragma user_version = "

-- What the operating system and the engine document of the database in a file: its tables are
-- tables, and neither harmless statements nor directories and other files touch its rows.
pub record IsDisk {S : Type 0} (disk : Disk S) (db : String) : Type 0 where
  pub table : IsTable (disk.tables db) same_key
  pub exec-rows :
      (s : S) (sql : String) (after : S)
      → is_harmless sql ≡ true
      → disk.exec db s sql ≡ some after
      → table.rows after ≡ table.rows s
  pub mkdir-rows : (s : S) (path : String) → table.rows (disk.mkdir_all s path).0 ≡ table.rows s
  pub write-rows :
      (s : S) (path : String) (contents : Bytes)
      → path ≢ db
      → table.rows (disk.write_file s path contents).0 ≡ table.rows s

-- The rows are those of the binding and the earlier ones that none of them replaces; what the table
-- of references says of the binding's keys is the binding, as of now.
pub record IsIndexed (result : Result) (now : String) (before after : List Row) : Type 0 where
  pub rows :
      (r : Row)
      → Mem r after ↔ (
          (Mem r (index_rows result now))
          ∨₁ (Mem r before × (clear same_key (index_rows result now) r ≡ true)))
  pub latest :
      (key value seen : String)
      → is_ref_key key ≡ true
      → Mem (ref key value seen) after
      → (value ≡ value_of result key) × (seen ≡ now)

module _ {S : Type 0} (disk : Disk S) (repo : String)
    (law : IsDisk disk (disk.join (cache_dir disk repo ∷ db_file_name ∷ [])))
    (apart : disk.join (cache_dir disk repo ∷ config_name ∷ [])
      ≢ disk.join (cache_dir disk repo ∷ db_file_name ∷ [])) where
  abbrev cache_db : String
  cache_db = disk.join (cache_dir disk repo ∷ db_file_name ∷ [])
