-- ===== src/App/Create.antt =====
-- internal/app/app.go: `predicate create` up to its statement, and `applyV1PredicateOptions`.
pub mod Created
use agentattest.Prelude.{
  String, Bool, true, false, not, Option, none, some, ◌==◌, ◌||◌, ◌>>=◌, if◌then◌else◌,
}
use agentattest.Json.{Fields}
use agentattest.Env.{Env, Bytes}
use agentattest.Gitbind.Types.{Git, Result}
use agentattest.Gitbind.Compute.{compute}
use agentattest.Predicate.{CreateOptions, Host, create, create_v1, statement_for, statement_for_v1}

pub record CreateFlags : Type 0 where
  pub repo : String
  pub version : String
  pub repo_url : String
  pub base_commit : String
  pub agent_name : String
  pub agent_version : String
  pub capture_method : String
  pub capture_harness : String
  pub agent_config : String
  pub model_provider : String
  pub model_id : String

-- The options that every version takes; `Now` is the zero time.
unfoldable pub base_options : CreateFlags → CreateOptions
base_options flags = record {
  agent_name = flags.agent_name;
  agent_version = flags.agent_version;
  repo_url = flags.repo_url;
  base_commit = flags.base_commit;
  now = 0;
  capture_method = "";
  capture_harness = "";
  agent_config_path = "";
  agent_config_sha256 = "";
  model_provider = "";
  model_id = "";
}

-- The capture method, of those that the command line may claim.
unfoldable pub cli_method : String → Option String
cli_method method =
    if method == "" || (method == "wrapper" || (method == "ci-step" || method == "manual"))
    then some method
    else none

-- A flag of version 1 is given.
unfoldable pub has_v1_flag : CreateFlags → Bool
has_v1_flag flags =
    not (flags.capture_method == "")
    || (not (flags.capture_harness == "")
        || (not (flags.agent_config == "")
            || (not (flags.model_provider == "") || not (flags.model_id == ""))))

-- The provider and the id of a model, given together or not at all.
unfoldable pub whole_model : String → String → Option (String × String)
whole_model provider model_id =
    let model : Option (String × String) = some (provider, model_id) in
    if provider == ""
    then (if model_id == "" then model else none)
    else (if model_id == "" then none else model)

-- `base_name` is `filepath.Base`.
module _ (env : Env) (git : Git) (host : Host) (base_name : String → String) where
  -- The display name and the digest of the operating contract, empty where none is bound.
  unfoldable pub bound_config : String → Option (String × String)
  bound_config path = if path == "" then some ("", "") else elim (env.read_file path) [
    | none ↦ none
    | some contents ↦ some (base_name path, git.sha256_hex contents)
  ]

  unfoldable pub apply_v1_options : CreateFlags → CreateOptions → Option CreateOptions
  unfolding cli_method whole_model bound_config
  apply_v1_options flags opts = do
    method ← cli_method flags.capture_method
    (path, digest) ← bound_config flags.agent_config
    (provider, id) ← whole_model flags.model_provider flags.model_id
    some (record opts {
      capture_method = method;
      capture_harness = flags.capture_harness;
      agent_config_path = path;
      agent_config_sha256 = digest;
      model_provider = provider;
      model_id = id;
    })

  unfoldable pub v0_statement : CreateFlags → Result → Option Fields
  unfolding has_v1_flag base_options
  v0_statement flags digest =
      if has_v1_flag flags
      then none
      else some (statement_for digest (create host digest (base_options flags)))

  unfoldable pub v1_statement : CreateFlags → Result → Option Fields
  unfolding base_options
  v1_statement flags digest = do
    opts ← apply_v1_options flags (base_options flags)
    some (statement_for_v1 digest (create_v1 host digest opts))

  unfoldable pub statement_of : CreateFlags → Result → Option Fields
  unfolding v0_statement v1_statement
  statement_of flags digest =
      if flags.version == "" || flags.version == "v0"
      then v0_statement flags digest
      else if flags.version == "v1"
      then v1_statement flags digest
      else none

  -- The statement that `runPredicate` writes; `none` where it returns an error before.
  unfoldable pub created_statement : CreateFlags → Option Fields
  unfolding statement_of
  created_statement flags = compute env git flags.repo >>= statement_of flags
