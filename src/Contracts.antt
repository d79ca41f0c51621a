-- ===== src/Contracts.antt =====
-- internal/contracts/paths.go: the contract files, and the search for them from a directory
-- upwards. The search takes fuel; `Locate` gives it one more than the depth of its start.
pub mod Search
use agentattest.Prelude.{
  ℕ, zero, suc, String, Bool, true, false, Option, none, some, List, [], ◌∷◌, ◌==◌, ◌&&◌, all,
  if◌then◌else◌, ◌>>=◌,
}
use agentattest.Env.{Env, Bytes}

abbrev pub predicate_schema_rel : String
predicate_schema_rel = "schemas/agent-provenance-v0.schema.json"

abbrev pub predicate_cue_rel : String
predicate_cue_rel = "schemas/agent-provenance-v0.cue"

abbrev pub predicate_schema_v1_rel : String
predicate_schema_v1_rel = "schemas/agent-provenance-v1.schema.json"

abbrev pub predicate_cue_v1_rel : String
predicate_cue_v1_rel = "schemas/agent-provenance-v1.cue"

abbrev pub default_policy_rel : String
default_policy_rel = "policies/default.rego"

abbrev pub context_schema_rel : String
context_schema_rel = "tests/golden/context.schema.json"

pub record Files : Type 0 where
  pub root : String
  pub predicate_schema : String
  pub predicate_cue : String
  pub predicate_schema_v1 : String
  pub predicate_cue_v1 : String
  pub default_policy : String
  pub context_schema : String

module _ (env : Env) where
  exists : String → Bool
  exists path = elim (env.stat path) [ none ↦ false | some is_dir ↦ true ]

  -- `exist`: the minimum v0 pack. The v1 files are not among them.
  unfoldable pub exist : Files → Bool
  unfolding exists
  exist f =
      all exists (f.predicate_schema ∷ f.predicate_cue ∷ f.default_policy ∷ f.context_schema ∷ [])

  below : String → String → String
  below dir rel = env.join dir (env.from_slash rel)

  unfoldable pub files_at : String → Files
  unfolding below
  files_at dir = record {
    root = dir;
    predicate_schema = below dir predicate_schema_rel;
    predicate_cue = below dir predicate_cue_rel;
    predicate_schema_v1 = below dir predicate_schema_v1_rel;
    predicate_cue_v1 = below dir predicate_cue_v1_rel;
    default_policy = below dir default_policy_rel;
    context_schema = below dir context_schema_rel;
  }

  -- The loop of `Locate`. The outer `none` means that the fuel ran out.
  unfoldable pub search_from : ℕ → String → Option (Option Files)
  search_from zero dir = none
  search_from (suc fuel) dir =
      let above = search_from fuel (env.dir dir) in
      if exist (files_at dir)
      then some (some (files_at dir))
      else if env.dir dir == dir
      then some none
      else above

  found : Option (Option Files) → Option Files
  found (some r) = r
  found none = none

  -- The directory in which the search starts; a file stands for its directory.
  search_start : String → Option String
  search_start start = elim (env.stat start) [
    | none ↦ none
    | some true ↦ some start
    | some false ↦ some (env.dir start)
  ]

  -- The directory that `Locate` begins with; the empty text stands for the working directory.
  unfoldable pub start_directory : String → Option String
  unfolding search_start
  start_directory start = do
    begin ← (if start == "" then env.getwd else some start)
    absolute ← env.abs begin
    search_start absolute

  -- `Locate`
  unfoldable pub locate : String → Option Files
  unfolding search_from found start_directory exist files_at
  locate start = do from ← start_directory start; found (search_from (suc (env.depth from)) from)

  -- `Read`
  unfoldable pub read : String → Option Bytes
  read path = if path == "" then none else env.read_file path
