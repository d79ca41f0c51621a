-- ===== src/Registry.antt =====
-- internal/registry/registry.go: the index of statements, over a table of the SQL engine.
pub mod Indexed
pub mod Stored
pub mod Queries
pub mod Reachable
use agentattest.Prelude.{
  String, Bool, true, false, Option, none, some, List, [], ◌∷◌, ◌==◌, ◌||◌, ◌&&◌, ◌>>=◌, map,
  if◌then◌else◌,
}
use agentattest.Prelude.Text.{text_less}
use agentattest.Sql.{Table, replace_all}
use agentattest.Env.{Bytes}
use agentattest.Verify.FailureOrder.{lookup, contains}

-- What `Add` decodes of a statement: the digests of each subject, and the predicate's fields.
pub record Decoded : Type 0 where
  pub predicate_type : String
  pub subjects : List (List (String × String))
  pub run_id : String
  pub level : String
  pub repo_url : String

-- A row of the table; `none` is NULL.
pub record Row : Type 0 where
  pub subject_digest : String
  pub repo_url : Option String
  pub run_id : Option String
  pub predicate_type : Option String
  pub level : Option String
  pub statement_path : Option String
  pub indexed_at : String

unfoldable pub nullable : String → Option String
nullable s = if s == "" then none else some s

or_empty : Option String → String
or_empty none = ""
or_empty (some s) = s

unfoldable pub sha256_of : List (String × String) → String
unfolding or_empty lookup
sha256_of digest = or_empty (lookup "sha256" digest)

-- The digests that the loop over the subjects does not skip.
unfoldable pub new_digests : List String → List (List (String × String)) → List String
unfolding sha256_of contains
new_digests seen [] = []
new_digests seen (s ∷ subjects) =
    let digest = sha256_of s in
    let skipped = new_digests seen subjects in
    let indexed = new_digests (digest ∷ seen) subjects in
    if digest == "" || contains seen digest then skipped else digest ∷ indexed

unfoldable pub row_of : Decoded → String → String → String → Row
unfolding nullable
row_of doc statement_path now digest = record {
  subject_digest = digest;
  repo_url = nullable doc.repo_url;
  run_id = nullable doc.run_id;
  predicate_type = nullable doc.predicate_type;
  level = nullable doc.level;
  statement_path = nullable statement_path;
  indexed_at = now;
}

-- An entry of the index, with the empty text for NULL.
pub record Entry : Type 0 where
  pub subject_digest : String
  pub repo_url : String
  pub run_id : String
  pub predicate_type : String
  pub level : String
  pub statement_path : String
  pub indexed_at : String

-- `selectColumns`
unfoldable pub entry_of : Row → Entry
unfolding or_empty
entry_of row = record {
  subject_digest = row.subject_digest;
  repo_url = or_empty row.repo_url;
  run_id = or_empty row.run_id;
  predicate_type = or_empty row.predicate_type;
  level = or_empty row.level;
  statement_path = or_empty row.statement_path;
  indexed_at = row.indexed_at;
}

-- `column = value`, which does not hold of NULL.
abbrev pub is_value : Option String → String → Bool
is_value none value = false
is_value (some s) value = s == value

abbrev both : Option String → Option String → Bool
both none other = false
both (some s) other = is_value other s

-- The primary key (subject_digest, statement_path).
unfoldable pub same_key : Row → Row → Bool
same_key row other =
    row.subject_digest == other.subject_digest && both row.statement_path other.statement_path

-- `order by indexed_at, subject_digest`
unfoldable pub row_before : Row → Row → Bool
row_before row other =
    text_less row.indexed_at other.indexed_at
    || (row.indexed_at == other.indexed_at && text_less row.subject_digest other.subject_digest)

-- What `Open` calls: filepath.Dir, os.MkdirAll, sql.Open, and the statement of `migrate`.
pub record Files (Db : Type 0) : Type 0 where
  pub dir : String → String
  pub mkdir_all : String → Bool
  pub open_db : String → Option Db
  pub create_table : Db → Option Db

module _ {Db : Type 0} where
  made_directory : Files Db → String → Bool
  made_directory fs dir = dir == "" || (dir == "." || fs.mkdir_all dir)

  -- `Open`, with `migrate`
  unfoldable pub open_registry : Files Db → String → Option Db
  unfolding made_directory
  open_registry fs path =
      if path == ""
      then none
      else (if made_directory fs (fs.dir path) then fs.open_db path >>= fs.create_table else none)

module _ {Db : Type 0} (t : Table Db Row) where
  -- The database after `Add`, and whether it returned no error.
  unfoldable pub add : (Bytes → Option Decoded) → String → Db → Bytes → String → Db × Bool
  unfolding new_digests row_of
  add decode now db statement_json statement_path = elim (decode statement_json) [
    | none ↦ (db, false)
    | some doc ↦
        replace_all t db (map (row_of doc statement_path now) (new_digests [] doc.subjects))
  ]

  unfoldable pub query : Db → (Row → Bool) → Option (List Entry)
  unfolding entry_of row_before
  query db clause = t.select db clause row_before >>= λ rows. some (map entry_of rows)

  unfoldable pub by_subject : Db → String → Option (List Entry)
  unfolding query
  by_subject db digest = query db (λ row. row.subject_digest == digest)

  unfoldable pub by_repo : Db → String → Option (List Entry)
  unfolding query
  by_repo db repo_url = query db (λ row. is_value row.repo_url repo_url)

  unfoldable pub by_run_id : Db → String → Option (List Entry)
  unfolding query
  by_run_id db run_id = query db (λ row. is_value row.run_id run_id)
