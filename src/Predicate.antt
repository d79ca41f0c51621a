-- ===== src/Predicate.antt =====
-- internal/predicate/create.go: the predicates that the command line creates.
pub mod Laws
pub mod Claims
use agentattest.Prelude.{
  ℕ, zero, suc, String, Bool, false, Option, none, some, List, [], ◌∷◌, ◌<>◌, ◌==◌, ◌||◌,
  if◌then◌else◌,
}
use agentattest.Json.{Value, text, boolean, arr, obj, of_list, map_of, Fields, put, put_text}
use agentattest.Env.{Subject}
use agentattest.Statement.{new, new_v1}
use agentattest.Gitbind.Types.{Result}

-- `now` is an instant; 0 stands for the zero `time.Time`.
pub record CreateOptions : Type 0 where
  pub agent_name : String
  pub agent_version : String
  pub repo_url : String
  pub base_commit : String
  pub now : ℕ
  pub capture_method : String
  pub capture_harness : String
  pub agent_config_path : String
  pub agent_config_sha256 : String
  pub model_provider : String
  pub model_id : String

-- time.Now, the two layouts of an instant, the process id as text, the hexadecimal SHA-256
pub record Host : Type 0 where
  pub time_now : ℕ
  pub stamp : ℕ → String
  pub rfc3339 : ℕ → String
  pub pid : String
  pub sha256_hex : String → String

unfoldable pub first_non_empty : List String → String
first_non_empty [] = ""
first_non_empty (value ∷ values) =
    let rest = first_non_empty values in if value == "" then rest else value

unfoldable pub repo_object : String → String → Result → Fields
unfolding put_text
repo_object repo_url base_commit result = put_text "branch" result.branch (
    put_text "headCommit" result.head_commit
      (map_of (("url", text repo_url) ∷ ("baseCommit", text base_commit) ∷ [])))

-- An object that says that nothing raw is kept.
abbrev pub not_stored : Value
not_stored = obj (map_of (("stored", boolean false) ∷ ("visibility", text "none") ∷ []))

abbrev pub privacy_object : Value
privacy_object = obj (
    map_of (
      ("redactionPolicy", text "default-minimal-v0")
      ∷ ("rawPrompt", not_stored)
      ∷ ("rawToolOutputs", not_stored)
      ∷ (
        "publicTransparencyLog",
        obj (map_of (("allowed", boolean false) ∷ ("includesRawContent", boolean false) ∷ [])),
      )
      ∷ []))

unfoldable pub evidence_object : Host → String → String → Value
evidence_object host run_id patch_digest = obj (
    map_of (
      ("type", text "tool-summary")
      ∷ ("uri", text ("artifact://agentattest/evidence/" <> (run_id <> ".summary.json")))
      ∷ (
        "digest",
        obj (
            map_of (
              ("sha256", text (host.sha256_hex (run_id <> ("\n" <> (patch_digest <> "\n")))))
              ∷ [])),
      )
      ∷ ("mediaType", text "application/json")
      ∷ ("storage", text "local-only")
      ∷ ("visibility", text "team")
      ∷ []))

unfoldable pub instant : Host → ℕ → ℕ
instant host zero = host.time_now
instant host (suc n) = suc n

unfoldable pub run_id_at : Host → ℕ → String
run_id_at host now = "run_" <> (host.stamp now <> ("_" <> host.pid))

unfoldable pub base_predicate : Host → Result → CreateOptions → String → Fields
unfolding first_non_empty repo_object evidence_object instant run_id_at
base_predicate host result opts default_agent_version =
    let now = instant host opts.now in
    let run_id = run_id_at host now in
    let repo_url = first_non_empty (opts.repo_url ∷ result.repo_url ∷ []) in
    let base_commit = first_non_empty (opts.base_commit ∷ result.base_commit ∷ []) in
    let agent_name = first_non_empty (opts.agent_name ∷ "agentattest-cli" ∷ []) in
    let agent_version = first_non_empty (opts.agent_version ∷ default_agent_version ∷ []) in
    map_of (
      ("runId", text run_id)
      ∷ ("verificationLevel", text "evidence-grade")
      ∷ ("repo", obj (repo_object repo_url base_commit result))
      ∷ (
        "agent",
        obj (
            map_of (
              ("name", text agent_name)
              ∷ ("version", text agent_version)
              ∷ ("invocationKind", text "local-cli")
              ∷ [])),
      )
      ∷ ("environment", obj (map_of (("executionType", text "local") ∷ [])))
      ∷ ("humanApproval", obj (map_of (("state", text "none") ∷ [])))
      ∷ ("privacy", privacy_object)
      ∷ (
        "timestamps",
        obj (
            map_of (
              ("startedAt", text (host.rfc3339 now))
              ∷ ("finishedAt", text (host.rfc3339 now))
              ∷ [])),
      )
      ∷ ("evidence", arr (of_list (evidence_object host run_id result.patch.digest ∷ [])))
      ∷ [])

unfoldable pub create : Host → Result → CreateOptions → Fields
unfolding base_predicate put
create host result opts =
    put "predicateVersion" (text "v0") (base_predicate host result opts "v0-alpha")

unfoldable pub capture_object : CreateOptions → Fields
unfolding put_text
capture_object opts =
    let method = if opts.capture_method == "" then "wrapper" else opts.capture_method in
    put_text "harness" opts.capture_harness (map_of (("method", text method) ∷ []))

unfoldable pub agent_config_object : CreateOptions → Option Fields
agent_config_object opts =
    let primary_file =
      if opts.agent_config_path == "" then "AGENTS.md" else opts.agent_config_path in
    if opts.agent_config_sha256 == ""
    then none
    else some (
        map_of (
          ("primaryFile", text primary_file)
          ∷ ("primaryDigest", obj (map_of (("sha256", text opts.agent_config_sha256) ∷ [])))
          ∷ []))

unfoldable pub model_object : CreateOptions → Option Fields
model_object opts =
    if opts.model_provider == "" || opts.model_id == ""
    then none
    else some
        (map_of (("provider", text opts.model_provider) ∷ ("modelId", text opts.model_id) ∷ []))

-- `if m := ...; m != nil { pred[key] = m }`
unfoldable pub put_some : String → Option Fields → Fields → Fields
unfolding put
put_some key none m = m
put_some key (some object) m = put key (obj object) m

unfoldable pub create_v1 : Host → Result → CreateOptions → Fields
unfolding base_predicate put put_some capture_object agent_config_object model_object
create_v1 host result opts = put_some "model" (model_object opts) (
    put_some "agentConfig" (agent_config_object opts) (
      put "capture" (obj (capture_object opts))
        (put "predicateVersion" (text "v1") (base_predicate host result opts "v1-alpha"))))

unfoldable pub patch_subject : Result → List Subject
patch_subject result =
    record { name = "patch.diff"; digest = (result.patch.algorithm, result.patch.digest) ∷ [] } ∷ []

unfoldable pub statement_for : Result → Fields → Fields
unfolding new patch_subject
statement_for result predicate_map = new (patch_subject result) predicate_map

unfoldable pub statement_for_v1 : Result → Fields → Fields
unfolding new_v1 patch_subject
statement_for_v1 result predicate_map = new_v1 (patch_subject result) predicate_map
