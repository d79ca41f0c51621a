-- ===== src/Tests/Commands.antt =====
-- The git binding, the created predicates and the verify commands on the sample checkout.
use agentattest.Prelude.{
  ℕ, String, ◌≡◌, ◌≢◌, refl, Bool, true, false, Option, none, some, List, [], ◌∷◌, ◌<>◌, ◌==◌,
  if◌then◌else◌,
}
use agentattest.Json.{Fields, text, arr, nil, end, get, as_text, as_object, object?, array?}
use agentattest.Env.{Document}
use agentattest.Statement.{predicate_type_v0, parse, predicate_map}
use agentattest.Contracts.{locate, read}
use agentattest.Gitbind.Remote.{normalize_repo_url, scp_groups, from_trimmed, bare_url}
use agentattest.Gitbind.Compute.{compute, changed_files, branch_of, base_of}
use agentattest.Gitbind.Laws.{normalize_repo_url_hides, IsBinding, compute_ok}
use agentattest.Predicate.{CreateOptions, create, create_v1, statement_for, statement_for_v1}
use agentattest.Predicate.Laws.{created-phase01}
use agentattest.Predicate.Claims.{NothingRaw, IsDescribed, created_lem}
use agentattest.App.Command.{World, run_verify, run_verify_bundle}
use agentattest.Prelude.Early.{require, ensure}
use agentattest.App.Context.{bundle_context, level_or_default, patch_subjects}
use agentattest.App.Context.Laws.{bundle_context_lem}
use agentattest.Verify.FailureOrder.{order_failure_codes}
use agentattest.Policy.{failure_codes}
use agentattest.Verify.Pipeline.{
  finish, phase01, contract_for_version, predicate, contracts_of, validate_json_schema,
  validate_cue, policy_input,
}
use agentattest.Signing.Types.{guard, or_error}
use agentattest.Signing.Identity.{identity_from_cert}
use agentattest.Signing.Certificates.{
  parse_certificates, load_trust_root, roots_from, fulcio_roots_via_tuf,
}
use agentattest.Signing.Envelope.{verify, verify_with_trust_root}
use agentattest.Signing.Rekor.{find_key, extract_rekor_inclusion, verify_rekor_inclusion}
use agentattest.Signing.Bundle.{
  from_sigstore_bundle, find_bundle, parse_envelope, parse_cert_array, parse_cert_string,
}
use agentattest.App.Create.{
  created_statement, statement_of, v1_statement, apply_v1_options, base_options,
}
use agentattest.App.Create.Created.{IsCreated, created_statement_ok}
use agentattest.App.Report.{IsVerdict, commands-IsVerdict}
use agentattest.App.Answers.{Silenced, run_verify_bundle_answers}
use agentattest.App.EndToEnd.{IsEndToEnd, run_verify_bundle_zero}
use agentattest.Tests.Samples.{checkout, toy, leaf, sample_document}
use agentattest.Tests.Machine.{remote_url, git, binding, options, host, world, create_flags}

hidden_user : normalize_repo_url git "https://t@h/o/r.git" ≡ some "https://h/o/r"
unfolding normalize_repo_url scp_groups from_trimmed bare_url agentattest.Prelude.◌>>=◌
hidden_user = refl

scp_remote : normalize_repo_url git "git@github.com:o/r.git" ≡ some "https://github.com/o/r"
unfolding normalize_repo_url scp_groups from_trimmed agentattest.Prelude.◌>>=◌
scp_remote = refl

normalize_repo_url_hides_example :
    normalize_repo_url git "https://t@h/o/r.git" ≡ normalize_repo_url git "https://h/o/r.git"
unfolding scp_groups agentattest.Prelude.◌>>=◌
normalize_repo_url_hides_example =
    normalize_repo_url_hides git "https://t@h/o/r.git" "https://h/o/r.git"
      (remote_url "https://t@h/o/r.git") (remote_url "https://h/o/r.git") ((λ e. cc e), refl, refl)
      ((λ e. cc e), refl, refl) refl

computed : compute (checkout (arr nil)) git "." ≡ some binding
unfolding compute normalize_repo_url scp_groups from_trimmed bare_url changed_files branch_of
    base_of agentattest.Prelude.◌>>=◌
computed = refl

compute_ok_example : IsBinding (checkout (arr nil)) git "." binding
compute_ok_example = compute_ok (checkout (arr nil)) git "." binding computed

created_lem_example :
    let v0 = create host binding options in
    let v1 = create_v1 host binding options in
    NothingRaw v0
    × (get "verificationLevel" v0 ≡ some (text "evidence-grade"))
    × NothingRaw v1
    × (get "verificationLevel" v1 ≡ some (text "evidence-grade"))
    × IsDescribed options v1
created_lem_example = created_lem host binding options

abbrev v0_document : Document
v0_document = record sample_document { predicate_type = predicate_type_v0 }

created-phase01_example :
    let v0 = create host binding options in
    let v1 = create_v1 host binding options in
    (phase01 v0_document v0 ≡ [])
    × (phase01 sample_document v1 ≡ [])
    × (phase01 v0_document v1 ≡ "unsupported_predicate_version" ∷ [])
    × (phase01 sample_document v0 ≡ "unsupported_predicate_version" ∷ [])
unfolding statement_for statement_for_v1 get as_text
created-phase01_example =
    created-phase01 host binding options v0_document sample_document end end (refl, refl)
      (refl, refl)

bundle_context_lem_example :
    let vc = identity_from_cert toy leaf in
    let m = bundle_context vc binding "" in
    (get "repoUrl" m ≡ some (text "https://h/o/r"))
    × (get "baseCommit" m ≡ some (text "https://t@h/o/r.git"))
    × (get "requiredLevel" m ≡ some (text (level_or_default "")))
    × (get "subjects" m ≡ some (patch_subjects binding))
    × (as_text (get "verifiedSigner" m) ≡ vc.verified_signer)
    × (as_text (get "verifiedBuilderId" m) ≡ vc.verified_builder_id)
    × (as_text (get "verifiedWorkflowRef" m) ≡ vc.verified_workflow_ref)
    × (as_text (get "verifiedIssuer" m) ≡ vc.verified_issuer)
bundle_context_lem_example = bundle_context_lem (identity_from_cert toy leaf) binding ""

bundle_exits : (run_verify_bundle world []).code ≡ 0
unfolding run_verify_bundle load_trust_root fulcio_roots_via_tuf parse_certificates roots_from
    from_sigstore_bundle find_bundle parse_envelope parse_cert_array parse_cert_string
    verify_with_trust_root verify verify_rekor_inclusion extract_rekor_inclusion get object? array?
    as_object as_text find_key agentattest.Signing.Types.◌>>=◌ guard or_error compute
    normalize_repo_url scp_groups from_trimmed bare_url changed_files branch_of base_of
    agentattest.Prelude.◌>>=◌ locate predicate contracts_of parse predicate_map phase01
    contract_for_version validate_json_schema validate_cue read failure_codes policy_input finish
    order_failure_codes agentattest.Prelude.Early.◌>>=◌ require ensure
bundle_exits = refl

run_verify_bundle_zero_example : IsEndToEnd world []
run_verify_bundle_zero_example = run_verify_bundle_zero world [] bundle_exits

commands-IsVerdict_example :
    IsVerdict (run_verify world []) × IsVerdict (run_verify_bundle world [])
commands-IsVerdict_example = commands-IsVerdict world []

abbrev created_options : CreateOptions
created_options = record options {
  agent_name = "a";
  capture_method = "ci-step";
  agent_config_sha256 = "";
  now = 0;
  model_provider = "p";
  model_id = "m";
}

abbrev sample_created : Fields
sample_created = statement_for_v1 binding (create_v1 host binding created_options)

created :
    created_statement (checkout (arr nil)) git host (λ p. p) create_flags ≡ some sample_created
unfolding created_statement statement_of v1_statement apply_v1_options base_options compute
    normalize_repo_url scp_groups from_trimmed bare_url changed_files branch_of base_of
    agentattest.Prelude.◌>>=◌
created = refl

created_statement_ok_example : IsCreated sample_created
created_statement_ok_example =
    created_statement_ok (checkout (arr nil)) git host (λ p. p) create_flags sample_created created

abbrev closed : World
closed = record world { writable = false }

closed_report : (run_verify_bundle closed []).report ≡ none
unfolding run_verify_bundle load_trust_root fulcio_roots_via_tuf parse_certificates roots_from
    from_sigstore_bundle find_bundle parse_envelope parse_cert_array parse_cert_string
    verify_with_trust_root verify verify_rekor_inclusion extract_rekor_inclusion get object? array?
    as_object as_text find_key agentattest.Signing.Types.◌>>=◌ guard or_error compute
    normalize_repo_url scp_groups from_trimmed bare_url changed_files branch_of base_of
    agentattest.Prelude.◌>>=◌ locate predicate contracts_of parse predicate_map phase01
    contract_for_version validate_json_schema validate_cue read failure_codes policy_input finish
    order_failure_codes agentattest.Prelude.Early.◌>>=◌ require ensure
closed_report = refl

run_verify_bundle_answers_example : Silenced closed []
run_verify_bundle_answers_example = run_verify_bundle_answers closed [] closed_report
