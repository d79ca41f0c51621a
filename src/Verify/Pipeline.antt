-- ===== src/Verify/Pipeline.antt =====
-- internal/verify/verify.go and result.go: the phases of `Predicate`, each of which may end the
-- verification with its own failure code.
pub mod Phase01
pub mod Chain
pub mod Accepts
use agentattest.Prelude.{
  String, Bool, true, false, Option, none, some, List, [], ◌∷◌, ◌++◌, ◌<>◌, ◌==◌, ◌&&◌, not,
  starts_with, if◌then◌else◌,
}
use agentattest.Prelude.Early.{Early, next, ◌>>=◌, ◌>>◌, require, ensure, ended}
use agentattest.Json.{Value, obj, Fields, field, end, get, as_text}
use agentattest.Env.{Env, Bytes, CueContract, Document}
use agentattest.Statement.{type_v1, predicate_type_v0, predicate_type_v1, parse, predicate_map}
use agentattest.Contracts.{Files, locate, read, default_policy_rel}
use agentattest.Policy.{failure_codes}
use agentattest.Verify.FailureOrder.{order_failure_codes}

pub record Result : Type 0 where
  pub valid : Bool
  pub level : String
  pub failure_codes : List String

abbrev pub is_empty : List String → Bool
is_empty [] = true
is_empty (c ∷ codes) = false

unfoldable pub finish : String → List String → Result
finish level codes =
    let ordered = order_failure_codes codes in
    record { valid = is_empty ordered; level = level; failure_codes = ordered }

-- `stringValue`
unfoldable pub string_value : Fields → String → String
string_value values key = as_text (get key values)

-- The version that a predicate type stands for; `none` for the empty text of the source.
unfoldable pub version_from_type : String → Option String
version_from_type t =
    if t == predicate_type_v0 then some "v0" else if t == predicate_type_v1 then some "v1" else none

type_codes : Document → List String
type_codes doc = if doc.type == type_v1 then [] else "unsupported_statement_type" ∷ []

predicate_type_codes : Option String → List String
predicate_type_codes (some v) = []
predicate_type_codes none = "predicate_type_mismatch" ∷ []

unsupported_version : List String
unsupported_version = "unsupported_predicate_version" ∷ []

-- The second `switch`: a declared version is known, and is that of the type if there is one.
version_codes : Option String → String → List String
unfolding unsupported_version
version_codes (some v) declared =
    if declared == "v0"
    then (if declared == v then [] else unsupported_version)
    else if declared == "v1"
    then (if declared == v then [] else unsupported_version)
    else unsupported_version
version_codes none declared =
    if declared == "v0" then [] else if declared == "v1" then [] else unsupported_version

unfoldable pub phase01 : Document → Fields → List String
unfolding type_codes predicate_type_codes version_codes version_from_type string_value
phase01 doc predicate =
    let version = version_from_type doc.predicate_type in
    type_codes doc
    ++ (predicate_type_codes version
        ++ version_codes version (string_value predicate "predicateVersion"))

pub record Contract : Type 0 where
  pub schema_path : String
  pub cue_path : String
  pub cue_def : String

-- `contractForVersion`
unfoldable pub contract_for_version : Files → String → Option Contract
contract_for_version files t =
    if t == predicate_type_v0
    then some (record {
      schema_path = files.predicate_schema;
      cue_path = files.predicate_cue;
      cue_def = "#AgentProvenanceV0";
    })
    else if t == predicate_type_v1
    then some (record {
      schema_path = files.predicate_schema_v1;
      cue_path = files.predicate_cue_v1;
      cue_def = "#AgentProvenanceV1";
    })
    else none

module _ (env : Env) where
  -- `fileURL`
  unfoldable pub file_url : String → String
  file_url path =
      let cleaned = env.clean path in
      let slashed = env.forward_slashes cleaned in
      if env.windows
      then (if starts_with slashed "/"
          then env.url_string slashed
          else env.url_string ("/" <> slashed))
      else env.url_string cleaned

  check : Option (Value → Bool) → Value → Bool
  check none v = false
  check (some holds) v = holds v

  -- `validateJSONSchema`; whether it returns no error.
  unfoldable pub validate_json_schema : String → Bytes → Bool
  unfolding check file_url
  validate_json_schema schema_path document = elim (env.decode_value document) [
    | none ↦ false
    | some instance_value ↦ check (env.compile_schema (file_url schema_path)) instance_value
  ]

  -- Exactly one instance, which builds.
  the_contract : List (Option CueContract) → Option CueContract
  the_contract (some c ∷ []) = some c
  the_contract _ = none

  check_expr : Option Value → (Value → Bool) → Bool
  check_expr none holds = false
  check_expr (some expr) holds = elim (env.build_expr expr) [ none ↦ false | some v ↦ holds v ]

  check_contract : Option CueContract → String → Bytes → Bool
  unfolding check_expr
  check_contract none cue_def json = false
  check_contract (some contract) cue_def json = elim (contract cue_def) [
    | none ↦ false
    | some holds ↦ check_expr (env.extract json) holds
  ]

  -- `validateCUE`; whether it returns no error.
  unfoldable pub validate_cue : String → String → Bytes → Bool
  unfolding check_contract the_contract
  validate_cue cue_path cue_def json =
      check_contract (the_contract (env.load_instances cue_path (env.dir cue_path))) cue_def json

  -- The contract files of the options, or the located ones.
  unfoldable pub contracts_of : Files → Option Files
  contracts_of given = if given.root == "" then locate env "" else some given

  unfoldable pub policy_input : Fields → Fields → Value
  policy_input statement context =
      obj (field "statement" (obj statement) (field "context" (obj context) end))

  failing : String → String → Result
  failing level code = finish level (code ∷ [])

  phases : Files → Bytes → Bytes → Early Result Result
  unfolding failing ◌>>=◌ require ensure
  phases given statement_json context_json = do
    files ←
        require (contracts_of given)
          (record { valid = false; level = ""; failure_codes = "schema_invalid" ∷ [] })
    (doc, statement) ← require (parse env statement_json) (failing "" "schema_invalid")
    predicate ← require (predicate_map env doc) (failing "" "schema_invalid")
    let level = string_value predicate "verificationLevel"
    let codes = phase01 doc predicate
    ensure (is_empty codes) (finish level codes)
    contract ←
        require (contract_for_version files doc.predicate_type)
          (failing level "predicate_type_mismatch")
    ensure (validate_json_schema contract.schema_path doc.predicate)
        (failing level "schema_invalid")
    ensure (validate_json_schema files.context_schema context_json) (failing level "schema_invalid")
    ensure (validate_cue contract.cue_path contract.cue_def doc.predicate)
        (failing level "schema_invalid")
    context ← require (env.decode_object context_json) (failing level "schema_invalid")
    source ← require (read env files.default_policy) (failing level "policy_eval_error")
    found ←
        require
          (failure_codes env (env.to_slash default_policy_rel) source
            (policy_input statement context))
          (failing level "policy_eval_error")
    next (finish level found)

  -- `Predicate`
  unfoldable pub predicate : Files → Bytes → Bytes → Result
  unfolding phases
  predicate given statement_json context_json = ended (phases given statement_json context_json)
