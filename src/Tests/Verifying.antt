-- ===== src/Tests/Verifying.antt =====
-- The verifier on a checkout whose policy allows, and on one whose policy denies.
use agentattest.Prelude.{ℕ, String, ◌≡◌, refl, ◌↔◌, ◌⊎◌, true, false, none, some, [], ◌∷◌, Mem}
use mathlib.Core.List.Perm
use agentattest.Prelude.Text.{text_less}
use agentattest.Prelude.Early.{require, ensure}
use agentattest.Json.{text, arr, obj, nil, cons, end, field, get, as_text}
use agentattest.Json.Shuffle.{objects, swap}
use agentattest.Env.{Env}
use agentattest.Statement.{type_v1, parse, predicate_map}
use agentattest.Contracts.{Files, locate, start_directory, files_at, read}
use agentattest.Contracts.Search.{climb, has_pack, NoneBelow, locate_lem}
use agentattest.Policy.{collect_strings, failure_codes}
use agentattest.Verify.FailureOrder.{order_failure_codes, priority, lookup, contains}
use agentattest.Verify.FailureOrder.Canonical.{
  order_failure_codes_canonical, order_failure_codes-mem,
}
use agentattest.Verify.Pipeline.{
  Result, finish, phase01, Contract, contract_for_version, predicate, string_value, contracts_of,
  validate_json_schema, validate_cue, policy_input,
}
use agentattest.Verify.Pipeline.Phase01.{
  VersionsAgree, phase01-eq-nil_iff, contract_for_version_total, phase01-codes,
}
use agentattest.Verify.Pipeline.Chain.{IsReport, predicate-IsReport, finish-collect_strings-Shuffle}
use agentattest.Verify.Pipeline.Accepts.{Accepts, predicate-valid_iff}
use agentattest.Tests.Samples.{
  statement_json, context_json, sample_document, sample_predicate, checkout, checkout-DirClimbs,
}

abbrev no_files : Files
no_files = record {
  root = "";
  predicate_schema = "";
  predicate_cue = "";
  predicate_schema_v1 = "";
  predicate_cue_v1 = "";
  default_policy = "";
  context_schema = "";
}

abbrev allowing : Env
allowing = checkout (arr nil)

abbrev denying : Env
denying =
    checkout
      (arr (cons (text "privacy_violation") (cons (text "zzz") (cons (text "schema_invalid") nil))))

run : Env → Result
unfolding predicate contracts_of locate parse predicate_map phase01 contract_for_version
    validate_json_schema validate_cue read failure_codes policy_input finish order_failure_codes
    priority lookup get as_text text_less agentattest.Prelude.Early.◌>>=◌ require ensure
run env = predicate env no_files statement_json context_json

run-allowing : run allowing ≡ record { valid = true; level = "evidence-grade"; failure_codes = [] }
unfolding run agentattest.Prelude.◌>>=◌
run-allowing = refl

run-denying : run denying ≡ record {
  valid = false;
  level = "evidence-grade";
  failure_codes = "schema_invalid" ∷ "privacy_violation" ∷ "zzz" ∷ [];
}
unfolding run agentattest.Prelude.◌>>=◌
run-denying = refl

predicate-valid_iff_example :
    ((predicate allowing no_files statement_json context_json).valid ≡ true)
    ↔ Accepts allowing no_files statement_json context_json
predicate-valid_iff_example = predicate-valid_iff allowing no_files statement_json context_json

predicate-IsReport_example : IsReport (predicate denying no_files statement_json context_json)
predicate-IsReport_example = predicate-IsReport denying no_files statement_json context_json

finish-collect_strings-Shuffle_example :
    finish ""
      (collect_strings (obj (field "a" (text "zzz") (field "b" (text "schema_invalid") end))) [])
    ≡ finish ""
        (collect_strings (obj (field "b" (text "schema_invalid") (field "a" (text "zzz") end))) [])
finish-collect_strings-Shuffle_example =
    finish-collect_strings-Shuffle ""
      (objects (swap "a" "b" (text "zzz") (text "schema_invalid") end))

order_failure_codes_canonical_example :
    order_failure_codes ("zzz" ∷ "schema_invalid" ∷ [])
    ≡ order_failure_codes ("schema_invalid" ∷ "zzz" ∷ [])
order_failure_codes_canonical_example =
    order_failure_codes_canonical ("zzz" ∷ "schema_invalid" ∷ []) ("schema_invalid" ∷ "zzz" ∷ [])
      (λ a. Perm.mem_iff (Perm.swap "schema_invalid" "zzz" []))

order_failure_codes-mem_example :
    Mem {A = String} "zzz" (order_failure_codes ("zzz" ∷ [])) ↔ Mem {A = String} "zzz" ("zzz" ∷ [])
order_failure_codes-mem_example = order_failure_codes-mem ("zzz" ∷ []) "zzz"

abbrev SampleAgrees : Type 0
SampleAgrees =
    (sample_document.type ≡ type_v1)
    × VersionsAgree sample_document.predicate_type
        (string_value sample_predicate "predicateVersion")

phase01-eq-nil_iff_example : (phase01 sample_document sample_predicate ≡ []) ↔ SampleAgrees
phase01-eq-nil_iff_example = phase01-eq-nil_iff sample_document sample_predicate

contract_for_version_total_example :
    (c : Contract) × (contract_for_version no_files sample_document.predicate_type ≡ some c)
unfolding phase01 get as_text
contract_for_version_total_example =
    contract_for_version_total no_files sample_document sample_predicate refl

phase01-codes_example :
    let codes = phase01 sample_document end in
    (contains codes "unsupported_statement_type" ≡ false)
    × (contains codes "predicate_type_mismatch" ≡ false)
    × (contains codes "unsupported_predicate_version" ≡ true)
unfolding string_value as_text get
phase01-codes_example = phase01-codes sample_document end

locate_lem_example :
    ((k : ℕ) × (locate allowing "" ≡ some (files_at allowing (climb allowing k "/repo/sub")))
      × (has_pack allowing (climb allowing k "/repo/sub") ≡ true)
      × NoneBelow allowing k "/repo/sub")
    ⊎ ((locate allowing "" ≡ none)
        × ((k : ℕ) → has_pack allowing (climb allowing k "/repo/sub") ≡ false))
unfolding start_directory agentattest.Prelude.◌>>=◌
locate_lem_example = locate_lem allowing (checkout-DirClimbs (arr nil)) "" "/repo/sub" refl
