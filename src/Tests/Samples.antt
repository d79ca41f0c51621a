-- ===== src/Tests/Samples.antt =====
-- A repository checkout, a statement and a context, and a toy cryptography, as concrete functions.
use agentattest.Prelude.{
  ℕ, zero, suc, String, ◌<>◌, refl, Bool, true, false, Option, none, some, [], ◌∷◌, ◌==◌, arith,
  inl, inr, Bool-cases, if◌then◌else◌,
}
use agentattest.Json.{Value, null, text, arr, obj, nil, cons, Fields, map_of}
use agentattest.Env.{Env, Bytes, Document, DirClimbs}
use agentattest.Statement.{type_v1, predicate_type_v1}
use agentattest.Signing.Certificates.{Tuf}
use agentattest.Signing.Types.{ed25519_key, Certificate, Crypto}

-- The raw texts, by number.
abbrev pub statement_json : Bytes
statement_json = 1 ∷ []

abbrev pub predicate_json : Bytes
predicate_json = 2 ∷ []

abbrev pub context_json : Bytes
context_json = 3 ∷ []

abbrev pub policy_text : Bytes
policy_text = 4 ∷ []

abbrev pub sample_document : Document
sample_document = record {
  type = type_v1;
  subject = [];
  predicate_type = predicate_type_v1;
  predicate = predicate_json;
}

abbrev pub sample_predicate : Fields
sample_predicate =
    map_of (("predicateVersion", text "v1") ∷ ("verificationLevel", text "evidence-grade") ∷ [])

abbrev pub sample_statement : Fields
sample_statement =
    map_of (("predicateType", text predicate_type_v1) ∷ ("predicate", obj sample_predicate) ∷ [])

abbrev pub sample_context : Fields
sample_context = map_of (("requiredLevel", text "evidence-grade") ∷ [])

abbrev pub first_byte : Bytes → ℕ
first_byte [] = 0
first_byte (b ∷ bs) = b

abbrev decode : ℕ → Option Fields
decode (suc zero) = some sample_statement
decode (suc (suc zero)) = some sample_predicate
decode (suc (suc (suc zero))) = some sample_context
decode _ = none

abbrev parent : String → String
parent p = if p == "/repo/sub" then "/repo" else if p == "/repo" then "/" else p

abbrev elements : String → ℕ
elements p = if p == "/repo/sub" then 2 else if p == "/repo" then 1 else 0

abbrev status : String → Option Bool
status p =
    if p == "/repo/sub"
    then some true
    else if p == "/repo/schemas/agent-provenance-v0.schema.json"
    then some false
    else if p == "/repo/schemas/agent-provenance-v0.cue"
    then some false
    else if p == "/repo/policies/default.rego"
    then some false
    else if p == "/repo/tests/golden/context.schema.json"
    then some false
    else none

-- A checkout whose policy answers with the given value.
abbrev pub checkout : Value → Env
checkout denied = record {
  getwd = some "/repo/sub";
  stat = status;
  read_file = λ p. if p == "/repo/policies/default.rego" then some policy_text else none;
  abs = λ p. some p;
  dir = parent;
  join = λ p q. p <> ("/" <> q);
  from_slash = λ p. p;
  to_slash = λ p. p;
  clean = λ p. p;
  depth = elements;
  windows = false;
  forward_slashes = λ p. p;
  url_string = λ p. "file://" <> p;
  decode_document = λ raw. elim (first_byte raw) [ zero ↦ none | suc n ↦ some sample_document ];
  decode_object = λ raw. decode (first_byte raw);
  decode_value = λ raw. some null;
  compile_schema = λ url. some (λ v. true);
  load_instances = λ path dir. some (λ def. some (λ v. true)) ∷ [];
  extract = λ raw. some null;
  build_expr = λ v. some v;
  eval = λ name source input. some ((denied ∷ []) ∷ []);
}

pub checkout-DirClimbs : (denied : Value) → DirClimbs (checkout denied)
checkout-DirClimbs denied p = elim (Bool-cases (p == "/repo/sub")) [
  | inl h ↦ inr (rw h (omega arith))
  | inr h ↦ elim (Bool-cases (p == "/repo")) [
    | inl k ↦ inr (rw (h, k) (omega arith))
    | inr k ↦ inl (rw (h, k) refl)
  ]
]

abbrev pub workflow : String
workflow = "https://github.com/o/r/.github/workflows/a.yml@refs/heads/main"

abbrev pub leaf : Certificate
leaf = record {
  uris = workflow ∷ [];
  email_addresses = [];
  dns_names = [];
  common_name = "";
  extensions = [];
  public_key = ed25519_key (7 ∷ []);
}

abbrev pub root_ca : Certificate
root_ca = record leaf { uris = [] }

-- A bundle with an envelope, a chain of one certificate and an entry with an inclusion proof.
abbrev pub sample_entry : Value
sample_entry = obj (
    map_of (
      ("canonicalizedBody", text "b")
      ∷ (
        "inclusionProof",
        obj (
            map_of (
              ("logIndex", text "12")
              ∷ ("treeSize", text "20")
              ∷ ("rootHash", text "r")
              ∷ ("hashes", arr (cons (text "h") nil))
              ∷ [])),
      )
      ∷ []))

abbrev pub sample_envelope : Value
sample_envelope =
    obj (map_of (("payloadType", text "application/vnd.in-toto+json") ∷ ("payload", text "p") ∷ []))

abbrev pub sample_bundle : Value
sample_bundle = obj (
    map_of (
      ("dsseEnvelope", sample_envelope)
      ∷ ("certificates", arr (cons (text "c") nil))
      ∷ ("tlogEntries", arr (cons sample_entry nil))
      ∷ []))

-- Every signature verifies; a PEM text is one certificate block; base64 reads one byte.
abbrev pub toy : Crypto
toy = record {
  sha256 = λ b. b;
  ecdsa_verify = λ k d s. true;
  rsa_verify = λ k d s. true;
  ed25519_verify = λ k m s. true;
  chain_verifies = λ l inters roots. true;
  parse_certificate = λ b. some leaf;
  pem_decode = λ b. elim b [
    | [] ↦ none
    | x ∷ xs ↦ some (record { type = "CERTIFICATE"; content = x ∷ []; rest = xs })
  ];
  base64_std = λ s. some (1 ∷ []);
  base64_raw = λ s. none;
  base64_url = λ s. none;
  bytes_of = λ s. [];
  string_of = λ b. "";
  trim_space = λ s. s;
  unmarshal = λ b. some sample_bundle;
  uint_of_float = λ s. 0;
  uint_of_number = λ s. 0;
  sha256_key_id = λ key. some "id";
  envelope_verifier = λ verifiers. true;
  verify_and_decode = λ env verifiers. elim verifiers [
    | [] ↦ record { calls = []; accepted = false }
    | verifier ∷ more ↦ record {
      calls = record { verifier = 0; signed = 9 ∷ []; sig = 1 ∷ [] } ∷ [];
      accepted = verifier.verify (9 ∷ []) (1 ∷ []);
    }
  ];
  decode_payload = λ env. some statement_json;
  hash_leaf = λ b. b;
  verify_inclusion = λ index size hash path root. true;
}

-- A TUF repository in which every target is a PEM text of one certificate.
abbrev pub toy_tuf : Tuf
toy_tuf = record {
  create = λ dir. some (record { refresh = true; get_target = λ name. some (1 ∷ []) });
  user_cache_dir = none;
  temp_dir = "/tmp";
  join = λ parts. "/tmp/agentattest/tuf";
}
