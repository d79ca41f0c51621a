-- ===== src/Verify/Pipeline/Accepts.antt =====
-- What a valid verdict means: every phase had what it asks for, and the policy denies nothing.
use agentattest.Prelude.{
  String, ◌≡◌, refl, ◌↔◌, ◌⊎◌, inl, inr, Bool-cases, ◌==◌, eq_iff, same_some, sym, true, some, [],
  ap, ◌∙◌,
}
use agentattest.Json.{Fields}
use agentattest.Prelude.Early.{ensure}
use agentattest.Env.{Env, Bytes, Document}
use agentattest.Statement.{parse, predicate_map, type_v1, predicate_type_v0, predicate_type_v1}
use agentattest.Contracts.{Files, read, default_policy_rel}
use agentattest.Policy.{failure_codes}
use agentattest.Verify.Pipeline.{
  string_value, Contract, contract_for_version, validate_json_schema, validate_cue, contracts_of,
  policy_input, predicate, failing,
}
use agentattest.Verify.Pipeline.Phase01.{VersionsAgree, phase01-eq-nil_iff}
use agentattest.Verify.Pipeline.Chain.{
  finish-valid_iff, failing-valid, require-valid, ensure-valid, ensure-clean,
}

-- The schema and the CUE definition of each version.
abbrev pub IsRouted : Files → String → Contract → Type 0
IsRouted files t contract =
    ((t ≡ "https://agentattest.dev/predicate/v0")
      × (contract.schema_path ≡ files.predicate_schema)
      × (contract.cue_path ≡ files.predicate_cue)
      × (contract.cue_def ≡ "#AgentProvenanceV0"))
    ⊎ ((t ≡ "https://agentattest.dev/predicate/v1")
        × (contract.schema_path ≡ files.predicate_schema_v1)
        × (contract.cue_path ≡ files.predicate_cue_v1)
        × (contract.cue_def ≡ "#AgentProvenanceV1"))

contract_for_version-IsRouted :
    (files : Files) (t : String) (contract : Contract)
    → contract_for_version files t ≡ some contract
    → IsRouted files t contract
unfolding contract_for_version
contract_for_version-IsRouted files t contract h = elim (Bool-cases (t == predicate_type_v0)) [
  | inl p ↦
      let same = same_some (rw (contract_for_version, p) at h) in
      inl (
        (eq_iff t predicate_type_v0).0 p,
        ap (λ c. c.schema_path) (sym same),
        ap (λ c. c.cue_path) (sym same),
        ap (λ c. c.cue_def) (sym same),
      )
  | inr p ↦ elim (Bool-cases (t == predicate_type_v1)) [
    | inl q ↦
        let same = same_some (rw (contract_for_version, p, q) at h) in
        inr (
          (eq_iff t predicate_type_v1).0 q,
          ap (λ c. c.schema_path) (sym same),
          ap (λ c. c.cue_path) (sym same),
          ap (λ c. c.cue_def) (sym same),
        )
    | inr q ↦ cc (rw (contract_for_version, p, q) at h)
  ]
]

pub record Accepts (env : Env) (given : Files) (statement_json context_json : Bytes) : Type 0 where
  -- the contract pack is at hand, and the statement and its predicate are JSON objects
  pub files : Files
  pub located : contracts_of env given ≡ some files
  pub doc : Document
  pub statement : Fields
  pub parsed : parse env statement_json ≡ some (doc, statement)
  pub claim : Fields
  pub claim_parsed : predicate_map env doc ≡ some claim
  -- the container and the version
  pub container : doc.type ≡ type_v1
  pub version : VersionsAgree doc.predicate_type (string_value claim "predicateVersion")
  -- the schemas of that version
  pub contract : Contract
  pub contract_found : contract_for_version files doc.predicate_type ≡ some contract
  pub routed : IsRouted files doc.predicate_type contract
  pub schema_valid : validate_json_schema env contract.schema_path doc.predicate ≡ true
  pub context_valid : validate_json_schema env files.context_schema context_json ≡ true
  pub cue_valid : validate_cue env contract.cue_path contract.cue_def doc.predicate ≡ true
  -- the policy, on the generic statement and the context, yields no code
  pub context : Fields
  pub context_parsed : env.decode_object context_json ≡ some context
  pub source : Bytes
  pub policy_read : read env files.default_policy ≡ some source
  pub allowed :
      failure_codes env
        (env.to_slash default_policy_rel)
        source
        (policy_input env statement context)
      ≡ some []

module _ (env : Env) (given : Files) (statement_json context_json : Bytes) where
  valid→Accepts :
      (predicate env given statement_json context_json).valid ≡ true
      → Accepts env given statement_json context_json
  unfolding predicate failing
  valid→Accepts h =
      let (files, located, h1) = require-valid _ _ _ refl h in
      let ((doc, statement), parsed, h2) = require-valid _ _ _ (failing-valid _ _) h1 in
      let (claim, claim_parsed, h3) = require-valid _ _ _ (failing-valid _ _) h2 in
      let (clean, h4) = ensure-clean _ _ _ h3 in
      let (contract, contract_found, h5) = require-valid _ _ _ (failing-valid _ _) h4 in
      let (schema_valid, h6) = ensure-valid _ _ _ (failing-valid _ _) h5 in
      let (context_valid, h7) = ensure-valid _ _ _ (failing-valid _ _) h6 in
      let (cue_valid, h8) = ensure-valid _ _ _ (failing-valid _ _) h7 in
      let (context, context_parsed, h9) = require-valid _ _ _ (failing-valid _ _) h8 in
      let (source, policy_read, h10) = require-valid _ _ _ (failing-valid _ _) h9 in
      let (found, evaluated, h11) = require-valid _ _ _ (failing-valid _ _) h10 in
      let (container, version) = (phase01-eq-nil_iff doc claim).0 clean in
      record {
        files = files;
        located = located;
        doc = doc;
        statement = statement;
        parsed = parsed;
        claim = claim;
        claim_parsed = claim_parsed;
        container = container;
        version = version;
        contract = contract;
        contract_found = contract_found;
        routed = contract_for_version-IsRouted files doc.predicate_type contract contract_found;
        schema_valid = schema_valid;
        context_valid = context_valid;
        cue_valid = cue_valid;
        context = context;
        context_parsed = context_parsed;
        source = source;
        policy_read = policy_read;
        allowed = evaluated ∙ ap some ((finish-valid_iff _ found).0 h11);
      }

  Accepts→valid :
      Accepts env given statement_json context_json
      → (predicate env given statement_json context_json).valid ≡ true
  unfolding predicate ensure
  Accepts→valid a =
      let clean = (phase01-eq-nil_iff a.doc a.claim).1 (a.container, a.version) in
      rw (a.located, a.parsed, a.claim_parsed, clean, a.contract_found, a.schema_valid)
        (rw (a.context_valid, a.cue_valid, a.context_parsed, a.policy_read, a.allowed)
          ((finish-valid_iff (string_value a.claim "verificationLevel") []).1 refl))

  -- The verdict is valid exactly when the contract pack is at hand, the statement is an in-toto
  -- Statement v1 whose predicate type and declared version agree, the predicate meets the JSON
  -- Schema and the CUE definition of that version, the context meets its schema, and the policy,
  -- read and evaluated on the statement and the context, yields no failure code.
  pub predicate-valid_iff :
      ((predicate env given statement_json context_json).valid ≡ true)
      ↔ Accepts env given statement_json context_json
  predicate-valid_iff = (valid→Accepts, Accepts→valid)
