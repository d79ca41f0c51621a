-- ===== src/Capture/Claim.antt =====
-- What the claim of a captured statement says, key by key.
use agentattest.Prelude.{
  if◌then◌else◌, ◌==◌, ◌≢◌, List, ap, map, String, ◌≡◌, refl, ◌∙◌, false, some, [], ◌∷◌,
}
use agentattest.Json.{nil, cons, Value, text, arr, obj, of_list, Fields, get, put, as_object}
use agentattest.Json.Laws.{get-put, get-put_other, get-put_text, at}
use agentattest.Env.{Document}
use agentattest.Gitbind.Types.{Result}
use agentattest.Predicate.{Host, create_v1}
use agentattest.Predicate.Laws.{HasHeader, created_objects}
use agentattest.Predicate.Claims.{NothingRaw, given_text, privacy_object-NothingRaw, created_lem}
use agentattest.Capture.Hex.Laws.{IsHexSha256}
use agentattest.Verify.Pipeline.{phase01}
use agentattest.Capture.{
  format_of, RunMetadata, server_object, tool_object, runtime_object, trace_evidence, put_list,
  put_inside, captured_predicate, capture_options, capture_claim,
}

pub get-put_list :
    (k j : String) (values : List Value) (m : Fields)
    → (k == j) ≡ false
    → get j (put_list k values m) ≡ get j m
unfolding put_list
get-put_list k j [] m e = refl
get-put_list k j (v ∷ values) m e = get-put k j (arr (of_list (v ∷ values))) m ∙ rw e refl

get-put_inside :
    (outer key value j : String) (m : Fields)
    → (outer == j) ≡ false
    → get j (put_inside outer key value m) ≡ get j m
unfolding put_inside
get-put_inside outer key value j m e = get-put outer j _ m ∙ rw e refl

-- A key that the capture writes nothing under.
captured-kept :
    (key : String) (meta : RunMetadata) (pred : Fields)
    → ("tools" == key) ≡ false
    → ("mcpServers" == key) ≡ false
    → ("evidence" == key) ≡ false
    → ("runtime" == key) ≡ false
    → ("environment" == key) ≡ false
    → ("agent" == key) ≡ false
    → get key (captured_predicate meta pred) ≡ get key pred
unfolding captured_predicate
captured-kept key meta pred tools servers evidence runtime environment agent =
    get-put_list "tools" key _ _ tools
    ∙ get-put_list "mcpServers" key _ _ servers
    ∙ get-put_other "evidence" key _ _ evidence
    ∙ get-put_other "runtime" key _ _ runtime
    ∙ get-put_inside "environment" "executionType" meta.execution_type key _ environment
    ∙ get-put_inside "agent" "invocationKind" meta.invocation_kind key pred agent

abbrev before_runtime : RunMetadata → Fields → Fields
before_runtime meta pred =
    put_inside "environment" "executionType" meta.execution_type
      (put_inside "agent" "invocationKind" meta.invocation_kind pred)

pub captured_runtime :
    (meta : RunMetadata) (pred : Fields)
    → get "runtime" (captured_predicate meta pred) ≡ some (obj (runtime_object meta))
unfolding captured_predicate
captured_runtime meta pred =
    let run = put "runtime" (obj (runtime_object meta)) (before_runtime meta pred) in
    let evidence = put "evidence" (trace_evidence meta) run in
    let servers = map server_object meta.mcp_servers in
    get-put_list "tools" "runtime" (map tool_object meta.tools)
      (put_list "mcpServers" servers evidence) refl
    ∙ get-put_list "mcpServers" "runtime" servers evidence refl
    ∙ get-put_other "evidence" "runtime" (trace_evidence meta) run refl
    ∙ get-put "runtime" "runtime" (obj (runtime_object meta)) (before_runtime meta pred)

pub captured_evidence :
    (meta : RunMetadata) (pred : Fields)
    → get "evidence" (captured_predicate meta pred) ≡ some (trace_evidence meta)
unfolding captured_predicate
captured_evidence meta pred =
    let run = put "runtime" (obj (runtime_object meta)) (before_runtime meta pred) in
    let evidence = put "evidence" (trace_evidence meta) run in
    let servers = map server_object meta.mcp_servers in
    get-put_list "tools" "evidence" (map tool_object meta.tools)
      (put_list "mcpServers" servers evidence) refl
    ∙ get-put_list "mcpServers" "evidence" servers evidence refl
    ∙ get-put "evidence" "evidence" (trace_evidence meta) run

-- A statement of a captured run, and the run's metadata.
pub record IsCaptured (meta : RunMetadata) (stmt : Fields) : Type 0 where
  -- the run has a trace
  pub ids : meta.trace_ids ≢ []
  pub located : meta.trace_uri ≢ ""
  pub hashed : IsHexSha256 meta.trace_digest
  -- the claim is well-formed, and no more than it may be
  pub claim : Fields
  pub held : get "predicate" stmt ≡ some (obj claim)
  pub passes : (doc : Document) → HasHeader doc stmt → phase01 doc claim ≡ []
  pub nothing_raw : NothingRaw claim
  pub level : get "verificationLevel" claim ≡ some (text "evidence-grade")
  pub method : at "capture" ("method" ∷ []) claim ≡ some (text "harness-native")
  -- the trace in the runtime object
  pub runtime_ids :
      at "runtime" ("traceIds" ∷ []) claim ≡ some (arr (of_list (map text meta.trace_ids)))
  pub runtime_format :
      at "runtime" ("traceFormat" ∷ []) claim
      ≡ some (text (if meta.trace_format == "" then "otlp-json" else meta.trace_format))
  pub root_span :
      at "runtime" ("rootSpanId" ∷ []) claim
      ≡ given_text (meta.root_span_id == "") meta.root_span_id
  -- the trace document, which is the only evidence
  pub document : Fields
  pub evidence : get "evidence" claim ≡ some (arr (cons (obj document) nil))
  pub type : get "type" document ≡ some (text "trace")
  pub uri : get "uri" document ≡ some (text meta.trace_uri)
  pub digest : at "digest" ("sha256" ∷ []) document ≡ some (text meta.trace_digest)
  pub visibility : get "visibility" document ≡ some (text "team")

module _ (host : Host) (result : Result) (meta : RunMetadata) (contract : String × String) where
  pub claim-kept :
      (key : String)
      → ("tools" == key) ≡ false
      → ("mcpServers" == key) ≡ false
      → ("evidence" == key) ≡ false
      → ("runtime" == key) ≡ false
      → ("environment" == key) ≡ false
      → ("agent" == key) ≡ false
      → get key (capture_claim host result meta contract)
        ≡ get key (create_v1 host result (capture_options meta contract.0 contract.1))
  unfolding capture_claim
  claim-kept key = captured-kept key meta _

  pub claim-NothingRaw : NothingRaw (capture_claim host result meta contract)
  claim-NothingRaw =
      let opts = capture_options meta contract.0 contract.1 in
      let (_, _, privacy, _, _, _, _) = created_objects host result opts in
      privacy_object-NothingRaw (capture_claim host result meta contract)
        (claim-kept "privacy" refl refl refl refl refl refl ∙ privacy)

  pub claim_method :
      at "capture" ("method" ∷ []) (capture_claim host result meta contract)
      ≡ some (text "harness-native")
  unfolding capture_options
  claim_method =
      let opts = capture_options meta contract.0 contract.1 in
      let (_, _, _, _, described) = created_lem host result opts in
      ap (λ o. get "method" (as_object o)) (claim-kept "capture" refl refl refl refl refl refl)
      ∙ described.method

pub runtime_keys :
    (meta : RunMetadata)
    → (get "traceIds" (runtime_object meta) ≡ some (arr (of_list (map text meta.trace_ids))))
      × (get "traceFormat" (runtime_object meta)
          ≡ some (text (if meta.trace_format == "" then "otlp-json" else meta.trace_format)))
      × (get "rootSpanId" (runtime_object meta)
          ≡ given_text (meta.root_span_id == "") meta.root_span_id)
unfolding runtime_object format_of get
runtime_keys meta = (
  rw (get-put_text "rootSpanId" "traceIds" meta.root_span_id) refl,
  rw (get-put_text "rootSpanId" "traceFormat" meta.root_span_id) refl,
  rw (get-put_text "rootSpanId" "rootSpanId" meta.root_span_id) refl,
)
