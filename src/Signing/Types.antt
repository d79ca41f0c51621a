-- ===== src/Signing/Types.antt =====
-- The data of internal/signing, and what the package takes from outside: the standard library's
-- cryptography and encodings, the DSSE library, the Merkle proof library.
use agentattest.Prelude.{ℕ, String, Bool, true, false, Option, none, some, List}
use agentattest.Json.{Value}
use agentattest.Env.{Bytes}

-- A public key by its kind; `other_key` is any type that the package does not support.
pub data PublicKey : Type 0 where
  ecdsa_key : Bytes → PublicKey
  rsa_key : Bytes → PublicKey
  ed25519_key : Bytes → PublicKey
  other_key : PublicKey

pub record Extension : Type 0 where
  pub id : String
  pub value : Bytes

-- The fields of an `x509.Certificate` that the package reads.
pub record Certificate : Type 0 where
  pub uris : List String
  pub email_addresses : List String
  pub dns_names : List String
  pub common_name : String
  pub extensions : List Extension
  pub public_key : PublicKey

pub record Signature : Type 0 where
  pub keyid : String
  pub sig : String

-- `dsse.Envelope`
pub record Envelope : Type 0 where
  pub payload_type : String
  pub payload : String
  pub signatures : List Signature

pub record VerifiedContext : Type 0 where
  pub verified_signer : String
  pub verified_builder_id : String
  pub verified_workflow_ref : String
  pub verified_issuer : String

pub record TrustRoot : Type 0 where
  pub roots : List Certificate
  pub allowed_issuers : List String
  pub require_inclusion : Bool
  pub rekor_root_hash : Bytes

pub data Error : Type 0 where
  nil_key nil_envelope no_trusted_certificates bad_envelope_verifier : Error
  envelope_not_verified no_matching_certificate nil_leaf empty_trust_root : Error
  chain_not_verified issuer_not_allowed bad_certificate no_certificates : Error
  bad_bundle no_envelope envelope_not_object no_certificate_chain : Error
  no_inclusion_proof bad_inclusion_proof root_hash_mismatch bad_payload : Error
  unsupported_key : Error

pub data Result {ℓ} (A : Type ℓ) : Type ℓ where
  ok : A → Result A
  err : Error → Result A

infixl 5 ◌>>=◌ ◌>>◌
unfoldable pub ◌>>=◌ {ℓ κ} : {A : Type ℓ} {B : Type κ} → Result A → (A → Result B) → Result B
err e >>= after = err e
ok a >>= after = after a

unfoldable pub guard : Bool → Error → Result (Unit {0})
guard true e = ok tt
guard false e = err e

unfoldable pub or_error {ℓ} : {A : Type ℓ} → Option A → Error → Result A
or_error (some a) e = ok a
or_error none e = err e

abbrev pub ◌>>◌ {ℓ} : {B : Type ℓ} → Result (Unit {0}) → Result B → Result B
check >> rest = check >>= λ _. rest

-- A `dsse.Verifier` as the DSSE library sees it: its `KeyID`, its `Public`, its `Verify`.
pub record DsseVerifier : Type 0 where
  pub key_id : Option String
  pub public : PublicKey
  pub verify : Bytes → Bytes → Bool

-- One call of a verifier by the DSSE library: which verifier, on what bytes and signature.
pub record Call : Type 0 where
  pub verifier : ℕ
  pub signed : Bytes
  pub sig : Bytes

-- What `VerifyAndDecode` does: the calls that it makes, and whether it accepts the envelope.
pub record Run : Type 0 where
  pub calls : List Call
  pub accepted : Bool

-- A PEM block with the rest of the input.
pub record Block : Type 0 where
  pub type : String
  pub content : Bytes
  pub rest : Bytes

-- An inclusion proof for one log entry.
pub record RekorInclusion : Type 0 where
  pub log_index : ℕ
  pub tree_size : ℕ
  pub root_hash : Bytes
  pub proof : List Bytes
  pub leaf_data : Bytes

pub record Crypto : Type 0 where
  -- crypto/*: the digest, and the verification of a signature by key
  pub sha256 : Bytes → Bytes
  pub ecdsa_verify : Bytes → Bytes → Bytes → Bool
  pub rsa_verify : Bytes → Bytes → Bytes → Bool
  pub ed25519_verify : Bytes → Bytes → Bytes → Bool
  -- crypto/x509: the chain from a leaf over intermediates to roots, for code signing; parsing
  pub chain_verifies : Certificate → List Certificate → List Certificate → Bool
  pub parse_certificate : Bytes → Option Certificate
  -- encoding/pem, encoding/base64 (standard, unpadded, URL), conversions of text
  pub pem_decode : Bytes → Option Block
  pub base64_std : String → Option Bytes
  pub base64_raw : String → Option Bytes
  pub base64_url : String → Option Bytes
  pub bytes_of : String → Bytes
  pub string_of : Bytes → String
  pub trim_space : String → String
  -- encoding/json.Unmarshal into an `any`; uint64 of a float64 and of a json.Number
  pub unmarshal : Bytes → Option Value
  pub uint_of_float : String → ℕ
  pub uint_of_number : String → ℕ
  -- go-securesystemslib/dsse: the id of a key, whether an envelope verifier can be made of the
  -- verifiers, a run of it on an envelope, and the decoded payload
  pub sha256_key_id : PublicKey → Option String
  pub envelope_verifier : List DsseVerifier → Bool
  pub verify_and_decode : Envelope → List DsseVerifier → Run
  pub decode_payload : Envelope → Option Bytes
  -- transparency-dev/merkle: HashLeaf, VerifyInclusion by index, size, leaf hash, proof and root
  pub hash_leaf : Bytes → Bytes
  pub verify_inclusion : ℕ → ℕ → Bytes → List Bytes → Bytes → Bool
