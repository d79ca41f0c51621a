-- ===== src/Cache.antt =====
-- internal/cache/cache.go: the cache of a repository, a database and a configuration file.
pub mod Rows
pub mod Indexed
use agentattest.Prelude.{
  String, Bool, true, false, Option, none, some, List, [], ◌∷◌, ◌==◌, ◌||◌, ◌&&◌, ◌++◌,
  if◌then◌else◌,
}
use agentattest.Env.{Bytes}
use agentattest.Sql.{Table, replace_all, or_stop}
use agentattest.Gitbind.Types.{Result, FileDigest}

abbrev pub dir_name : String
dir_name = ".agentattest"

abbrev pub db_file_name : String
db_file_name = "cache.db"

abbrev pub config_name : String
config_name = "config.json"

pub record CacheConfig : Type 0 where
  pub path : String

pub record PrivacyConfig : Type 0 where
  pub redaction_policy : String
  pub raw_prompt_stored : Bool
  pub raw_tool_stored : Bool

pub record Config : Type 0 where
  pub predicate_type : String
  pub predicate_version : String
  pub cache : CacheConfig
  pub privacy : PrivacyConfig

-- The rows of the three tables, by the table. Rows of different tables never have the same key.
pub data Row : Type 0 where
  ref : (key value last_seen_at : String) → Row
  digest : (algorithm hash kind path last_seen_at : String) → Row
  timestamp : (name value last_seen_at : String) → Row

-- The primary keys that `migrate` declares; no column is ever NULL.
unfoldable pub same_key : Row → Row → Bool
same_key (ref key value seen) (ref other w at) = key == other
same_key (digest algorithm hash kind path seen) (digest a h k p at) =
    algorithm == a && (hash == h && (kind == k && path == p))
same_key (timestamp name value seen) (timestamp other w at) = name == other
same_key row other = false

-- The statements of `migrate`, as the SQL texts that they are.
abbrev pub create_refs : String
create_refs =
    "create table if not exists refs (\n\t\t\tkey text primary key,\n\t\t\tvalue text not null,\n\t\t\tlast_seen_at text not null\n\t\t)"

abbrev pub create_digests : String
create_digests =
    "create table if not exists digests (\n\t\t\talgorithm text not null,\n\t\t\tdigest text not null,\n\t\t\tkind text not null,\n\t\t\tpath text,\n\t\t\tlast_seen_at text not null,\n\t\t\tprimary key (algorithm, digest, kind, path)\n\t\t)"

abbrev pub create_timestamps : String
create_timestamps =
    "create table if not exists timestamps (\n\t\t\tname text primary key,\n\t\t\tvalue text not null,\n\t\t\tlast_seen_at text not null\n\t\t)"

abbrev pub set_user_version : String
set_user_version = "pragma user_version = 1"

abbrev pub migrations : List String
migrations = create_refs ∷ create_digests ∷ create_timestamps ∷ set_user_version ∷ []

-- The disk of the machine, and the databases in its files.
pub record Disk (S : Type 0) : Type 0 where
  -- filepath.Join, filepath.ToSlash
  pub join : List String → String
  pub to_slash : String → String
  -- os.MkdirAll and os.WriteFile, with whether they return no error; os.Stat without an error
  pub mkdir_all : S → String → S × Bool
  pub write_file : S → String → Bytes → S × Bool
  pub found : S → String → Bool
  -- sql.Open, a statement by its SQL text, and the tables of the database in a file
  pub opens : String → Bool
  pub exec : String → S → String → Option S
  pub tables : String → Table S Row
  -- json.MarshalIndent with a line feed after it, time.Now in RFC 3339
  pub marshal_config : Config → Option Bytes
  pub now : String

unfoldable pub ref_rows : Result → String → List Row
ref_rows result now =
    ref "repo.url" result.repo_url now
    ∷ ref "repo.baseCommit" result.base_commit now
    ∷ ref "repo.headCommit" result.head_commit now
    ∷ []

-- The loop over the changed files, which skips a file without a digest.
unfoldable pub file_rows : String → List FileDigest → List Row
file_rows now [] = []
file_rows now (file ∷ files) =
    let rest = file_rows now files in
    if file.sha256 == "" then rest else digest "sha256" file.sha256 "file" file.path now ∷ rest

-- The rows that `IndexDigest` inserts, in its order.
unfoldable pub index_rows : Result → String → List Row
unfolding ref_rows file_rows
index_rows result now =
    ref_rows result now
    ++ ((digest result.patch.algorithm result.patch.digest "patch" "patch.diff" now ∷ [])
        ++ (file_rows now result.changed_files ++ (timestamp "digest.lastComputedAt" now now ∷ [])))

module _ {S : Type 0} (disk : Disk S) where
  -- The first error ends the loop.
  unfoldable pub run_migrations : String → S → List String → S × Bool
  run_migrations db s [] = (s, true)
  run_migrations db s (sql ∷ statements) =
      or_stop s (disk.exec db s sql) (λ after. run_migrations db after statements)

  unfoldable pub migrate : String → S → S × Bool
  unfolding run_migrations
  migrate db s = run_migrations db s migrations

  abbrev pub cache_dir : String → String
  cache_dir repo = disk.join (repo ∷ dir_name ∷ [])

  unfoldable pub default_config : Config
  default_config = record {
    predicate_type = "https://agentattest.dev/predicate/v0";
    predicate_version = "v0";
    cache = record { path = disk.to_slash (disk.join (dir_name ∷ db_file_name ∷ [])) };
    privacy = record {
      redaction_policy = "default-minimal-v0";
      raw_prompt_stored = false;
      raw_tool_stored = false;
    };
  }

  unfoldable pub with_config : S → String → String → S × Option String
  unfolding default_config
  with_config s dir db = elim (disk.marshal_config default_config) [
    | none ↦ (s, none)
    | some contents ↦
        let (after, written) = disk.write_file s (disk.join (dir ∷ config_name ∷ [])) contents in
        (after, if written then some db else none)
  ]

  -- The disk after `Init`, and the path of the database.
  unfoldable pub init : S → String → S × Option String
  unfolding migrate with_config
  init s repo =
      let dir = cache_dir repo in
      let db = disk.join (dir ∷ db_file_name ∷ []) in
      let (made, is_made) = disk.mkdir_all s dir in
      let (migrated, all_done) = migrate db made in
      if is_made && disk.opens db
      then (if all_done then with_config migrated dir db else (migrated, none))
      else (made, none)

  -- The disk after `IndexDigest`, and whether it returned no error.
  unfoldable pub index_digest : S → String → Result → S × Bool
  unfolding migrate index_rows
  index_digest s repo result =
      let db = disk.join (repo ∷ dir_name ∷ db_file_name ∷ []) in
      let (migrated, all_done) = migrate db s in
      let indexed = replace_all (disk.tables db) migrated (index_rows result disk.now) in
      if disk.found s db
      then (if disk.opens db then (if all_done then indexed else (migrated, false)) else (s, false))
      else (s, true)
