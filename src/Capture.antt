-- ===== src/Capture.antt =====
-- internal/capture/capture.go: the statement of a run that a harness captured.
pub mod Hex
pub mod Claim
pub mod Laws
use agentattest.Prelude.{
  ℕ, String, Bool, true, false, not, Option, none, some, List, [], ◌∷◌, ◌==◌, ◌||◌, ◌>>=◌, map,
  if◌then◌else◌,
}
use agentattest.Json.{Value, text, arr, obj, of_list, map_of, Fields, get, put, put_text, as_object}
use agentattest.Env.{Env}
use agentattest.Gitbind.Types.{Git, Result}
use agentattest.Predicate.{CreateOptions, Host, create_v1, statement_for_v1}
use agentattest.Capture.Hex.{is_hex_sha256}

pub record McpServer : Type 0 where
  pub name : String
  pub version : String
  pub transport : String
  pub server_identity : String
  pub digest : String

pub record Tool : Type 0 where
  pub name : String
  pub server : String
  pub schema_digest : String

pub record RunMetadata : Type 0 where
  pub agent_name : String
  pub agent_version : String
  pub invocation_kind : String
  pub execution_type : String
  pub model_provider : String
  pub model_id : String
  pub agent_config_path : String
  pub trace_format : String
  pub trace_ids : List String
  pub root_span_id : String
  pub trace_uri : String
  pub trace_digest : String
  pub mcp_servers : List McpServer
  pub tools : List Tool
  pub now : ℕ

unfoldable pub trace_media_type : String → String
trace_media_type format =
    if format == "otlp-protobuf" then "application/x-protobuf" else "application/json"

abbrev pub sha256_object : String → Value
sha256_object digest = obj (map_of (("sha256", text digest) ∷ []))

abbrev is_nil {ℓ} : {A : Type ℓ} → List A → Bool
is_nil [] = true
is_nil (x ∷ xs) = false

-- The run has trace ids, a trace URI and a trace digest.
unfoldable pub bound_trace : RunMetadata → Bool
bound_trace meta = not (is_nil meta.trace_ids || (meta.trace_uri == "" || meta.trace_digest == ""))

unfoldable pub format_of : RunMetadata → String
format_of meta = if meta.trace_format == "" then "otlp-json" else meta.trace_format

unfoldable pub runtime_object : RunMetadata → Fields
unfolding format_of put_text
runtime_object meta = put_text "rootSpanId" meta.root_span_id (
    map_of (
      ("traceFormat", text (format_of meta))
      ∷ ("traceIds", arr (of_list (map text meta.trace_ids)))
      ∷ []))

unfoldable pub trace_evidence : RunMetadata → Value
unfolding format_of trace_media_type
trace_evidence meta = arr (
    of_list (
      obj (
        map_of (
          ("type", text "trace")
          ∷ ("uri", text meta.trace_uri)
          ∷ ("digest", sha256_object meta.trace_digest)
          ∷ ("mediaType", text (trace_media_type (format_of meta)))
          ∷ ("storage", text "artifact-store")
          ∷ ("visibility", text "team")
          ∷ []))
      ∷ []))

unfoldable pub server_object : McpServer → Value
unfolding put_text
server_object s = obj (
    put_text "serverIdentity" s.server_identity (
      put_text "version" s.version (
        map_of (
          ("name", text s.name)
          ∷ ("transport", text s.transport)
          ∷ ("digest", sha256_object s.digest)
          ∷ []))))

unfoldable pub tool_object : Tool → Value
unfolding put_text
tool_object tl = obj (
    put_text "server" tl.server
      (map_of (("name", text tl.name) ∷ ("schemaDigest", sha256_object tl.schema_digest) ∷ [])))

-- `if len(values) > 0 { pred[key] = values }`
unfoldable pub put_list : String → List Value → Fields → Fields
unfolding put
put_list key [] m = m
put_list key (v ∷ values) m = put key (arr (of_list (v ∷ values))) m

-- A text that is not empty replaces one in an object of the predicate; the object is shared.
unfoldable pub put_inside : String → String → String → Fields → Fields
unfolding put put_text
put_inside outer key value m = put outer (obj (put_text key value (as_object (get outer m)))) m

unfoldable pub captured_predicate : RunMetadata → Fields → Fields
unfolding put put_list put_inside runtime_object trace_evidence server_object tool_object
captured_predicate meta pred = put_list "tools" (map tool_object meta.tools) (
    put_list "mcpServers" (map server_object meta.mcp_servers) (
      put "evidence" (trace_evidence meta) (
        put "runtime" (obj (runtime_object meta)) (
          put_inside "environment" "executionType" meta.execution_type
            (put_inside "agent" "invocationKind" meta.invocation_kind pred)))))

unfoldable pub capture_options : RunMetadata → String → String → CreateOptions
capture_options meta path digest = record {
  agent_name = meta.agent_name;
  agent_version = meta.agent_version;
  repo_url = "";
  base_commit = "";
  now = meta.now;
  capture_method = "harness-native";
  capture_harness = meta.agent_name;
  agent_config_path = path;
  agent_config_sha256 = digest;
  model_provider = meta.model_provider;
  model_id = meta.model_id;
}

unfoldable pub capture_claim : Host → Result → RunMetadata → String × String → Fields
unfolding captured_predicate capture_options
capture_claim host result meta (path, digest) =
    captured_predicate meta (create_v1 host result (capture_options meta path digest))

module _ (env : Env) (git : Git) (host : Host) (base_name : String → String) where
  -- The display name and the digest of the operating contract, empty where none is bound.
  unfoldable pub contract_of : String → Option (String × String)
  contract_of path = if path == "" then some ("", "") else elim (env.read_file path) [
    | none ↦ none
    | some contents ↦ some (base_name path, git.sha256_hex contents)
  ]

  unfoldable pub with_contract : Result → RunMetadata → Option Fields
  unfolding contract_of capture_claim
  with_contract result meta = contract_of meta.agent_config_path >>= λ contract.
      some (statement_for_v1 result (capture_claim host result meta contract))

  -- `Statement`
  unfoldable pub captured_statement : Result → RunMetadata → Option Fields
  unfolding with_contract
  captured_statement result meta =
      if bound_trace meta
      then (if is_hex_sha256 meta.trace_digest then with_contract result meta else none)
      else none
