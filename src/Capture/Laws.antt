-- ===== src/Capture/Laws.antt =====
-- When `Statement` returns a statement, and what it then is.
use agentattest.Prelude.{
  eq_iff, inl, inr, ◌⊎◌, Bool-cases, if◌then◌else◌, ◌==◌, ◌≢◌, List, ap, String, ◌≡◌, refl, ◌∙◌,
  subst, ◌↔◌, Bool, true, false, Option, none, some, [], ◌∷◌, ◌&&◌, ◌>>=◌, option_bind-some,
  same_some, arith,
}
use agentattest.Json.{Fields, get, as_text, as_object}
use agentattest.Env.{Env, Document}
use agentattest.Statement.{type_v1, predicate_type_v0}
use agentattest.Gitbind.Types.{Git, Result}
use agentattest.Predicate.{Host, create_v1, statement_for, statement_for_v1}
use agentattest.Predicate.Laws.{created_objects}
use agentattest.Capture.Hex.Laws.{IsHexSha256}
use agentattest.Verify.Pipeline.Phase01.{phase01_congr}
use agentattest.Capture.Hex.{is_hex_sha256}
use agentattest.Capture.{
  with_contract, captured_statement, contract_of, is_nil, RunMetadata, bound_trace, trace_evidence,
  contract_of, capture_options, capture_claim, with_contract, captured_statement,
}
use agentattest.Predicate.Laws.{created-phase01}
use agentattest.Statement.{type_v1, predicate_type_v0}
use agentattest.Capture.Hex.Laws.{is_hex_sha256_iff, is_hex_sha256-ne}
use agentattest.Capture.Claim.{
  IsCaptured, claim-kept, claim-NothingRaw, claim_method, runtime_keys, captured_runtime,
  captured_evidence,
}

abbrev header_v0 : Document
header_v0 = record {
  type = type_v1;
  subject = [];
  predicate_type = predicate_type_v0;
  predicate = [];
}

is_nil_iff : (l : List String) → (is_nil l ≡ true) ↔ (l ≡ [])
is_nil_iff [] = (λ h. refl, λ h. refl)
is_nil_iff (x ∷ l) = (λ h. cc h, λ h. cc h)

bound_trace_iff :
    (meta : RunMetadata)
    → (bound_trace meta ≡ true) ↔ (
        (is_nil meta.trace_ids ≡ false)
        × ((meta.trace_uri == "") ≡ false)
        × ((meta.trace_digest == "") ≡ false))
unfolding bound_trace
bound_trace_iff meta = ground arith

when-some {ℓ} :
    {A : Type ℓ} (b : Bool) (o : Option A) (value : A)
    → (if b then o else none) ≡ some value
    → (b ≡ true) × (o ≡ some value)
when-some true o value h = (refl, h)
when-some false o value h = cc h

-- If `Statement` returns a statement, then the run has trace ids, a trace URI and, as the digest of
-- the trace, 64 characters of a to f and 0 to 9. The claim passes the first phase of the verifier, is
-- evidence-grade and says that nothing raw is kept, and that a harness captured it. Its runtime object
-- has the run's trace ids, its trace format and its root span, and its only evidence is a trace
-- document with the run's URI and digest, visible to the team.
pub captured_statement_ok :
    (env : Env) (git : Git) (host : Host) (base_name : String → String) (result : Result)
    (meta : RunMetadata) (stmt : Fields)
    → captured_statement env git host base_name result meta ≡ some stmt
    → IsCaptured meta stmt
unfolding captured_statement with_contract capture_claim trace_evidence statement_for
    statement_for_v1 get as_text as_object
captured_statement_ok env git host base_name result meta stmt h =
    let (traced, h1) = when-some (bound_trace meta) _ stmt h in
    let (hex, h2) = when-some (is_hex_sha256 meta.trace_digest) _ stmt h1 in
    let (contract, _, h3) = option_bind-some _ _ h2 in
    let (ids, located, _) = (bound_trace_iff meta).0 traced in
    let claim = capture_claim host result meta contract in
    let opts = capture_options meta contract.0 contract.1 in
    let v1 = create_v1 host result opts in
    let (_, _, _, level, _, _, _) = created_objects host result opts in
    let (run_ids, run_format, run_span) = runtime_keys meta in
    let run = ap (λ o. as_object o) (captured_runtime meta v1) in
    subst (IsCaptured meta) (same_some h3) (record {
      ids = λ none_given. cc ((is_nil_iff meta.trace_ids).1 none_given, ids);
      located = λ none_given. cc ((eq_iff meta.trace_uri "").1 none_given, located);
      hashed = (is_hex_sha256_iff meta.trace_digest).0 hex;
      claim = claim;
      held = refl;
      passes = λ doc header.
          phase01_congr doc claim v1
            (claim-kept host result meta contract "predicateVersion" refl refl refl refl refl refl)
          ∙ (created-phase01 host result opts header_v0 doc v1 claim (refl, refl) header).1;
      nothing_raw = claim-NothingRaw host result meta contract;
      level =
          claim-kept host result meta contract "verificationLevel" refl refl refl refl refl refl
          ∙ level;
      method = claim_method host result meta contract;
      runtime_ids = ap (get "traceIds") run ∙ run_ids;
      runtime_format = ap (get "traceFormat") run ∙ run_format;
      root_span = ap (get "rootSpanId") run ∙ run_span;
      document = _;
      evidence = captured_evidence meta v1;
      type = refl;
      uri = refl;
      digest = refl;
      visibility = refl;
    })

module _ (env : Env) (git : Git) (base_name : String → String) where
  contract_of-none_iff :
      (host : Host) (path : String)
      → (contract_of env git host base_name path ≡ none)
        ↔ ((path ≢ "") × (env.read_file path ≡ none))
  unfolding contract_of
  contract_of-none_iff host path = ground (arith, eq_iff path "")

  -- With a bound trace and a hexadecimal digest, only the contract is left to fail.
  captured_statement-checked :
      (host : Host) (result : Result) (meta : RunMetadata)
      → bound_trace meta ≡ true
      → is_hex_sha256 meta.trace_digest ≡ true
      → (captured_statement env git host base_name result meta ≡ none)
        ↔ (contract_of env git host base_name meta.agent_config_path ≡ none)
  unfolding captured_statement with_contract ◌>>=◌
  captured_statement-checked host result meta traced hex = ground (arith, traced, hex)

  captured_statement-unchecked :
      (host : Host) (result : Result) (meta : RunMetadata)
      → (bound_trace meta && is_hex_sha256 meta.trace_digest) ≡ false
      → captured_statement env git host base_name result meta ≡ none
  unfolding captured_statement
  captured_statement-unchecked host result meta unchecked = ground (arith, unchecked)

  -- What keeps `Statement` from returning a statement: no trace ids, no trace URI, a digest that is
  -- not 64 characters of a to f and 0 to 9, or a contract that is named and cannot be read.
  abbrev pub IsUncaptured : RunMetadata → Type 0
  IsUncaptured meta =
      (meta.trace_ids ≡ [])
      ⊎ ((meta.trace_uri ≡ "")
          ⊎ ((¬ IsHexSha256 meta.trace_digest)
              ⊎ ((meta.agent_config_path ≢ "") × (env.read_file meta.agent_config_path ≡ none))))

  IsUncaptured-none :
      (host : Host) (result : Result) (meta : RunMetadata)
      → IsUncaptured meta
      → captured_statement env git host base_name result meta ≡ none
  IsUncaptured-none host result meta (inl no_ids) =
      captured_statement-unchecked host result meta
        (ground (arith, bound_trace_iff meta, (is_nil_iff meta.trace_ids).1 no_ids))
  IsUncaptured-none host result meta (inr (inl no_uri)) =
      captured_statement-unchecked host result meta
        (ground (arith, bound_trace_iff meta, (eq_iff meta.trace_uri "").1 no_uri))
  IsUncaptured-none host result meta (inr (inr (inl bad))) =
      elim (Bool-cases (is_hex_sha256 meta.trace_digest)) [
        | inl p ↦ absurd (bad ((is_hex_sha256_iff meta.trace_digest).0 p))
        | inr p ↦ captured_statement-unchecked host result meta (ground (arith, p))
      ]
  IsUncaptured-none host result meta (inr (inr (inr unread))) =
      elim (Bool-cases (bound_trace meta && is_hex_sha256 meta.trace_digest)) [
        | inr p ↦ captured_statement-unchecked host result meta p
        | inl p ↦
            (captured_statement-checked host result meta (ground (arith, p)) (ground (arith, p))).1
              ((contract_of-none_iff host meta.agent_config_path).1 unread)
      ]

  none-IsUncaptured :
      (host : Host) (result : Result) (meta : RunMetadata)
      → captured_statement env git host base_name result meta ≡ none
      → IsUncaptured meta
  none-IsUncaptured host result meta h = elim (Bool-cases (is_nil meta.trace_ids)) [
    | inl p ↦ inl ((is_nil_iff meta.trace_ids).0 p)
    | inr p ↦ elim (Bool-cases (meta.trace_uri == "")) [
      | inl q ↦ inr (inl ((eq_iff meta.trace_uri "").0 q))
      | inr q ↦ elim (Bool-cases (is_hex_sha256 meta.trace_digest)) [
        | inr r ↦ inr (inr (inl (λ hex. cc ((is_hex_sha256_iff meta.trace_digest).1 hex, r))))
        | inl r ↦
            let traced = (bound_trace_iff meta).1 (p, q, is_hex_sha256-ne meta.trace_digest r) in
            inr (
              inr (
                inr (
                  (contract_of-none_iff host meta.agent_config_path).0
                    ((captured_statement-checked host result meta traced r).0 h))))
      ]
    ]
  ]

  -- `Statement` fails exactly where the run has no trace ids or no trace URI, where the digest of the
  -- trace is not 64 characters of a to f and 0 to 9, or where an operating contract is named and
  -- cannot be read.
  pub captured_statement-eq-none_iff :
      (host : Host) (result : Result) (meta : RunMetadata)
      → (captured_statement env git host base_name result meta ≡ none) ↔ IsUncaptured meta
  captured_statement-eq-none_iff host result meta =
      (none-IsUncaptured host result meta, IsUncaptured-none host result meta)
