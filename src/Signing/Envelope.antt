-- ===== src/Signing/Envelope.antt =====
-- internal/signing/signing.go: signing and verifying a DSSE envelope. The DSSE library calls the
-- verifiers, each of which records that it accepted a signature; an error hands no identity on.
pub mod Sound
pub mod RoundTrip
use agentattest.Prelude.{
  ℕ, zero, suc, String, Bool, true, false, not, Option, none, some, List, [], ◌∷◌, map, ◌==◌, ◌||◌,
  if◌then◌else◌,
}
use agentattest.Env.{Bytes}
use agentattest.Signing.Types.{
  PublicKey, ecdsa_key, rsa_key, ed25519_key, other_key, Certificate, Envelope, VerifiedContext,
  TrustRoot, Error, nil_key, nil_envelope, no_trusted_certificates, bad_envelope_verifier,
  envelope_not_verified, no_matching_certificate, nil_leaf, empty_trust_root, chain_not_verified,
  issuer_not_allowed, unsupported_key, Result, ok, err, ◌>>=◌, ◌>>◌, guard, or_error, Call, Run,
  DsseVerifier, Crypto,
}
use agentattest.Signing.Identity.{identity_from_cert, fulcio_issuer}

abbrev pub payload_type_in_toto : String
payload_type_in_toto = "application/vnd.in-toto+json"

-- A `crypto.Signer`: its public key, and its signature of a SHA-256 digest or of a message.
pub record Signer : Type 0 where
  pub public : PublicKey
  pub sign_digest : Bytes → Option Bytes
  pub sign_message : Bytes → Option Bytes

pub record CertVerifier : Type 0 where
  pub cert : Certificate
  pub verified : Bool

abbrev pub fresh : Certificate → CertVerifier
fresh cert = record { cert = cert; verified = false }

unfoldable pub is_nil {ℓ} : {A : Type ℓ} → List A → Bool
is_nil [] = true
is_nil (x ∷ xs) = false

unfoldable pub slices_contains : List String → String → Bool
slices_contains [] a = false
slices_contains (x ∷ xs) a = x == a || slices_contains xs a

-- The DSSE library's `SignPayload` over a signer: its `KeyID` and its `Sign`.
abbrev pub SignPayload : Type 0
SignPayload = Option String → (Bytes → Option Bytes) → String → Bytes → Option Envelope

module _ (c : Crypto) where
  -- `cryptoSigner.Sign`
  unfoldable pub sign_bytes : PublicKey → Signer → Bytes → Option Bytes
  sign_bytes (ecdsa_key k) key message = key.sign_digest (c.sha256 message)
  sign_bytes (rsa_key k) key message = key.sign_digest (c.sha256 message)
  sign_bytes (ed25519_key k) key message = key.sign_message message
  sign_bytes other_key key message = none

  -- `Sign`
  unfoldable pub sign : SignPayload → String → Bytes → Option Signer → Result Envelope
  unfolding sign_bytes
  sign sign_payload payload_type payload key = do
    signer ← or_error key nil_key
    let used = if payload_type == "" then payload_type_in_toto else payload_type
    let key_id = c.sha256_key_id signer.public
    or_error (sign_payload key_id (sign_bytes signer.public signer) used payload) unsupported_key

  -- The test of `certVerifier.Verify`: no error.
  unfoldable pub accepts : PublicKey → Bytes → Bytes → Bool
  accepts (ecdsa_key k) message sig = c.ecdsa_verify k (c.sha256 message) sig
  accepts (rsa_key k) message sig = c.rsa_verify k (c.sha256 message) sig
  accepts (ed25519_key k) message sig = c.ed25519_verify k message sig
  accepts other_key message sig = false

  -- `certVerifier.Verify`: an accepted signature marks the verifier.
  unfoldable pub verify_signature : CertVerifier → Bytes → Bytes → CertVerifier × Bool
  unfolding accepts
  verify_signature v message sig =
      if accepts v.cert.public_key message sig
      then (record v { verified = true }, true)
      else (v, false)

  -- One call by the library, on the verifier at its index.
  unfoldable pub make_call : ℕ → Bytes → Bytes → List CertVerifier → List CertVerifier
  unfolding verify_signature
  make_call at message sig [] = []
  make_call zero message sig (v ∷ vs) = (verify_signature v message sig).0 ∷ vs
  make_call (suc at) message sig (v ∷ vs) = v ∷ make_call at message sig vs

  unfoldable pub make_calls : List Call → List CertVerifier → List CertVerifier
  unfolding make_call
  make_calls [] vs = vs
  make_calls (call ∷ calls) vs = make_calls calls (make_call call.verifier call.signed call.sig vs)

  -- The loop that takes the first verified certificate's identity.
  unfoldable pub first_verified : List CertVerifier → Result VerifiedContext
  first_verified [] = err no_matching_certificate
  first_verified (v ∷ vs) =
      if v.verified then ok (identity_from_cert c v.cert) else first_verified vs

  -- `certVerifier.KeyID`, `certVerifier.Public` and `certVerifier.Verify`, for the library
  abbrev pub verifier_of : Certificate → DsseVerifier
  verifier_of cert = record {
    key_id = c.sha256_key_id cert.public_key;
    public = cert.public_key;
    verify = accepts cert.public_key;
  }

  abbrev pub run_on : Envelope → List Certificate → Run
  run_on env certs = c.verify_and_decode env (map verifier_of certs)

  -- `Verify`
  unfoldable pub verify : Option Envelope → List Certificate → Result VerifiedContext
  unfolding make_calls first_verified is_nil
  verify envelope trusted_certs = do
    env ← or_error envelope nil_envelope
    guard (not (is_nil trusted_certs)) no_trusted_certificates
    guard (c.envelope_verifier (map verifier_of trusted_certs)) bad_envelope_verifier
    let run = run_on env trusted_certs
    guard run.accepted envelope_not_verified
    first_verified (make_calls run.calls (map fresh trusted_certs))

  -- The allowlist, where there is one.
  unfoldable pub issuer_allowed : List String → String → Bool
  issuer_allowed [] issuer = true
  issuer_allowed (a ∷ allowed) issuer =
      if issuer == "" then false else slices_contains (a ∷ allowed) issuer

  -- `VerifyWithTrustRoot`
  unfoldable pub verify_with_trust_root :
      Option Envelope → Option Certificate → List Certificate → TrustRoot → Result VerifiedContext
  unfolding issuer_allowed
  verify_with_trust_root envelope leaf_cert intermediates trust = do
    env ← or_error envelope nil_envelope
    leaf ← or_error leaf_cert nil_leaf
    guard (not (is_nil trust.roots)) empty_trust_root
    guard (c.chain_verifies leaf intermediates trust.roots) chain_not_verified
    guard (issuer_allowed trust.allowed_issuers (fulcio_issuer c leaf)) issuer_not_allowed
    verify (some env) (leaf ∷ [])
