-- ===== src/App/Main.antt =====
-- internal/app/app.go, context_summary.go and version.go: the commands and their dispatch, `Main`.
pub mod Plain
pub mod Fetch
pub mod Exits
use agentattest.Prelude.{
  ℕ, String, Bool, true, false, not, Option, none, some, List, [], ◌∷◌, ◌==◌, ◌||◌, ◌>>=◌, map,
  if◌then◌else◌,
}
use agentattest.Json.{Fields}
use agentattest.Env.{Bytes}
use agentattest.Contracts.{locate}
use agentattest.Verify.Pipeline.{predicate}
use agentattest.Verify.Pipeline.{Result as Verdict}
use agentattest.Gitbind.Types.{Result}
use agentattest.Gitbind.Compute.{compute}
use agentattest.Predicate.{Host}
use agentattest.Cache.{Disk, cache_dir, dir_name, config_name, init, index_digest}
use agentattest.Signing.Certificates.{cache_dir_of}
use agentattest.App.Context.{build_verifier_context}
use agentattest.App.Command.{World, Outcome, VerifyFlags, given, run_verify, run_verify_bundle}
use agentattest.App.Create.{CreateFlags, created_statement}
use agentattest.App.Summary.{render_summary}

pub record VersionInfo : Type 0 where
  pub version : String
  pub commit : String
  pub date : String

-- What a command writes to the standard output.
pub data Output : Type 0 where
  build : VersionInfo → Output
  created : (dir db config : String) → Output
  binding : Result → Output
  context : Fields → Output
  statement : Fields → Output
  verdict : Verdict → Output
  markdown : String → Output

pub record Exit : Type 0 where
  pub code : ℕ
  pub output : List Output

-- The tools of every command; the disk is what `init`, `digest` and `predicate create` write to, and
-- `verify bundle` where it makes a TUF client.
pub record Shell (S : Type 0) : Type 0 where
  pub world : World
  pub host : Host
  pub disk : Disk S
  -- what a TUF client with its cache in a directory leaves on the disk, had and refreshed or not
  pub tuf_cached : S → String → S
  -- filepath.Base
  pub base_name : String → String
  -- the build information of the binary
  pub version : VersionInfo
  -- the flag package on the arguments of a command; `--out` stands beside the flags of a statement
  pub parse_init : List String → Option String
  pub parse_digest : List String → Option String
  pub parse_context : List String → Option (String × String)
  pub parse_create : List String → Option (CreateFlags × String)
  pub parse_summary : List String → Option VerifyFlags
  -- json.MarshalIndent with a line feed after it
  pub marshal_statement : Fields → Option Bytes

-- A flag that must be given.
abbrev needed : String → Option String
needed flag = if flag == "" then none else some flag

module _ {S : Type 0} (sh : Shell S) where
  -- `writeJSON` and `io.WriteString` to the standard output
  unfoldable pub write : Output → Option (List Output)
  write out = if sh.world.writable then some (out ∷ []) else none

  unfoldable pub run_version : Option (List Output)
  unfolding write
  run_version = write (build sh.version)

  abbrev initialised : String → String → Output
  initialised repo db =
      let slashes = sh.disk.to_slash in
      created (slashes (cache_dir sh.disk repo)) (slashes db)
        (slashes (sh.disk.join (repo ∷ dir_name ∷ config_name ∷ [])))

  -- A command's last state, and what it wrote if it returned no error.
  unfoldable pub run_init : S → List String → S × Option (List Output)
  unfolding write
  run_init s args = elim (sh.parse_init args) [
    | none ↦ (s, none)
    | some repo ↦
        let (after, db) = init sh.disk s repo in
        (after, db >>= λ path. write (initialised repo path))
  ]

  unfoldable pub indexed_output : S → String → Option Result → S × Option (List Output)
  unfolding write
  indexed_output s repo none = (s, none)
  indexed_output s repo (some result) =
      ((index_digest sh.disk s repo result).0, write (binding result))

  unfoldable pub run_digest : S → List String → S × Option (List Output)
  unfolding indexed_output
  run_digest s args = elim (sh.parse_digest args) [
    | none ↦ (s, none)
    | some repo ↦ indexed_output s repo (compute sh.world.env sh.world.git repo)
  ]

  unfoldable pub run_context : List String → Option (List Output)
  unfolding write
  run_context args = do
    (repo, required_level) ← sh.parse_context args
    result ← compute sh.world.env sh.world.git repo
    write (context (build_verifier_context result required_level))

  -- To a file the statement goes with a line feed, and nothing to the standard output.
  unfoldable pub write_statement : S → String → Fields → S × Option (List Output)
  unfolding write
  write_statement s out stmt =
      if out == "" then (s, write (statement stmt)) else elim (sh.marshal_statement stmt) [
        | none ↦ (s, none)
        | some contents ↦
            let (after, written) = sh.disk.write_file s out contents in
            (after, if written then some [] else none)
      ]

  unfoldable pub create_statement : S → List String → S × Option (List Output)
  unfolding write_statement
  create_statement s args = elim (sh.parse_create args) [
    | none ↦ (s, none)
    | some (flags, out) ↦
        elim (created_statement sh.world.env sh.world.git sh.host sh.base_name flags) [
          | none ↦ (s, none)
          | some stmt ↦ write_statement s out stmt
        ]
  ]

  unfoldable pub run_predicate : S → List String → S × Option (List Output)
  unfolding create_statement
  run_predicate s [] = (s, none)
  run_predicate s (command ∷ args) =
      if command == "create" then create_statement s args else (s, none)

  unfoldable pub run_summary : List String → Option (List Output)
  unfolding write
  run_summary args = do
    flags ← sh.parse_summary args
    statement_path ← needed flags.statement_path
    context_path ← needed flags.context_path
    statement_json ← sh.world.env.read_file statement_path
    context_json ← sh.world.env.read_file context_path
    files ← locate sh.world.env ""
    stmt ← sh.world.env.decode_object statement_json
    ctx ← sh.world.env.decode_object context_json
    let result = predicate sh.world.env files statement_json context_json
    write (
        markdown
          (render_summary sh.world.crypto.bytes_of sh.world.crypto.string_of result stmt ctx))

  -- The end of `Main`: an error is printed and gives the code 1.
  unfoldable pub exit_of : Option (List Output) → Exit
  exit_of none = record { code = 1; output = [] }
  exit_of (some output) = record { code = 0; output = output }

  -- `usage` and the errors of the command line itself
  abbrev pub misused : Exit
  misused = record { code = 2; output = [] }

  abbrev pub reports : Option Verdict → List Output
  reports none = []
  reports (some result) = verdict result ∷ []

  abbrev pub of_outcome : Outcome → Exit
  of_outcome o = record { code = o.code; output = reports o.report }

  -- The PEM text with which `runVerifyBundle` calls `LoadTrustRoot`; `none` where it ends before.
  unfoldable pub root_pem : List String → Option Bytes
  root_pem args = do
    flags ← sh.world.parse_bundle args
    bundle ← needed flags.bundle
    bundle_json ← sh.world.env.read_file bundle
    trust_pem ← given sh.world sh.world.env.read_file flags.trust_root
    if flags.trust_root == "" || not (sh.world.blank trust_pem) then some trust_pem else none

  -- The disk after `LoadTrustRoot`: without a PEM text it makes a TUF client, which has its cache there.
  unfoldable pub after_load : S → Option Bytes → S
  after_load s none = s
  after_load s (some []) = sh.tuf_cached s (cache_dir_of sh.world.tuf "")
  after_load s (some (b ∷ pem)) = s

  unfoldable pub main_verify : S → List String → S × Exit
  unfolding root_pem after_load
  main_verify s [] = (s, misused)
  main_verify s (command ∷ args) =
      if command == "predicate"
      then (s, of_outcome (run_verify sh.world args))
      else if command == "bundle"
      then (after_load s (root_pem args), of_outcome (run_verify_bundle sh.world args))
      else (s, misused)

  abbrev ended : S × Option (List Output) → S × Exit
  ended (s, o) = (s, exit_of o)

  -- `Main`, on the arguments without the program's name
  unfoldable pub main : S → List String → S × Exit
  unfolding run_version run_init run_digest run_context run_predicate run_summary exit_of
      main_verify
  main s [] = (s, misused)
  main s (command ∷ args) =
      if command == "version" || (command == "--version" || command == "-v")
      then (s, exit_of run_version)
      else if command == "init"
      then ended (run_init s args)
      else if command == "digest"
      then ended (run_digest s args)
      else if command == "context"
      then (s, exit_of (run_context args))
      else if command == "predicate"
      then ended (run_predicate s args)
      else if command == "verify"
      then main_verify s args
      else if command == "summary"
      then (s, exit_of (run_summary args))
      else (s, misused)
