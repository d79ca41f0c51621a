-- ===== src/Env.antt =====
-- What the verifier takes from outside the repository: the file system and the operating system's
-- paths, the JSON decoders, the JSON Schema, CUE and Rego engines. Each is a parameter; a failure
-- is `none`.
use agentattest.Prelude.{ℕ, ◌<◌, String, ◌≡◌, ◌⊎◌, Bool, Option, List}
use agentattest.Json.{Value, Fields}

-- Raw bytes: file contents and JSON texts.
abbrev pub Bytes : Type 0
Bytes = List ℕ

-- One subject of a statement: its name and its digests by algorithm (`statement.Subject`).
pub record Subject : Type 0 where
  pub name : String
  pub digest : List (String × String)

-- internal/statement/statement.go, `Document`. The predicate is kept raw.
pub record Document : Type 0 where
  pub type : String
  pub subject : List Subject
  pub predicate_type : String
  pub predicate : Bytes

-- A built CUE instance: its definitions, each a check of a concrete value.
abbrev pub CueContract : Type 0
CueContract = String → Option (Value → Bool)

pub record Env : Type 0 where
  -- os.Getwd, os.Stat (whether the path is a directory), os.ReadFile
  pub getwd : Option String
  pub stat : String → Option Bool
  pub read_file : String → Option Bytes
  -- path/filepath
  pub abs : String → Option String
  pub dir : String → String
  pub join : String → String → String
  pub from_slash : String → String
  pub to_slash : String → String
  pub clean : String → String
  -- the number of elements of a path
  pub depth : String → ℕ
  -- runtime.GOOS == "windows", strings.ReplaceAll(path, `\`, `/`), the text of a file: URL
  pub windows : Bool
  pub forward_slashes : String → String
  pub url_string : String → String
  -- encoding/json into a `Document`, a `map[string]any` and an `any`, with UseNumber
  pub decode_document : Bytes → Option Document
  pub decode_object : Bytes → Option Fields
  pub decode_value : Bytes → Option Value
  -- jsonschema: the compiled schema at a URL
  pub compile_schema : String → Option (Value → Bool)
  -- cue: the instances of a file, `none` for one that does not build; JSON as an expression
  pub load_instances : String → String → List (Option CueContract)
  pub extract : Bytes → Option Value
  pub build_expr : Value → Option Value
  -- rego: the expression values of each result of the query on a module and an input
  pub eval : String → Bytes → Value → Option (List (List Value))

-- The parent of a path has fewer elements, or is the path itself (`filepath.Dir` at a root).
abbrev pub DirClimbs : Env → Type 0
DirClimbs env = (p : String) → (env.dir p ≡ p) ⊎ (env.depth (env.dir p) < env.depth p)
