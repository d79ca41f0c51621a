-- ===== src/Signing/Envelope/RoundTrip.antt =====
-- What `Sign` produces with a key, `Verify` accepts with a certificate of that key.
use agentattest.Prelude.{
  String, ◌≡◌, refl, Bool, true, Option, some, [], ◌∷◌, arith, ◌==◌, if◌then◌else◌,
}
use agentattest.Env.{Bytes}
use agentattest.Signing.Types.{
  PublicKey, ecdsa_key, rsa_key, ed25519_key, other_key, DsseVerifier, Certificate, Envelope, ok,
  ◌>>=◌, guard, or_error, Crypto,
}
use agentattest.Signing.Identity.{identity_from_cert}
use agentattest.Signing.Envelope.{
  Signer, SignPayload, sign_bytes, sign, accepts, verifier_of, verify_signature, run_on, verify,
  payload_type_in_toto,
}

-- What the standard library documents of a key pair: the public key verifies a signature that the
-- private key made of the same digest or, for Ed25519, of the same message.
abbrev pub IsKeyPair : Crypto → Signer → PublicKey → Type 0
IsKeyPair c key (ecdsa_key k) =
    (digest sig : Bytes) → key.sign_digest digest ≡ some sig → c.ecdsa_verify k digest sig ≡ true
IsKeyPair c key (rsa_key k) =
    (digest sig : Bytes) → key.sign_digest digest ≡ some sig → c.rsa_verify k digest sig ≡ true
IsKeyPair c key (ed25519_key k) =
    (message sig : Bytes)
    → key.sign_message message ≡ some sig
    → c.ed25519_verify k message sig ≡ true
IsKeyPair c key other_key = Unit

-- What a key signs, its verifier accepts: both hash the message, or neither does.
accepts-sign_bytes :
    (c : Crypto) (key : Signer) (public : PublicKey) (message sig : Bytes)
    → IsKeyPair c key public
    → sign_bytes c public key message ≡ some sig
    → accepts c public message sig ≡ true
unfolding sign_bytes accepts
accepts-sign_bytes c key (ecdsa_key k) message sig pair made = pair (c.sha256 message) sig made
accepts-sign_bytes c key (rsa_key k) message sig pair made = pair (c.sha256 message) sig made
accepts-sign_bytes c key (ed25519_key k) message sig pair made = pair message sig made
accepts-sign_bytes c key other_key message sig pair made = cc made

-- The DSSE library signs the encoding of the type and payload, and on what it signed calls the
-- only verifier, one of the same key, with that encoding and signature; it accepts if the verifier
-- does.
pub record IsDsse (c : Crypto) (sign_payload : SignPayload) : Type 0 where
  pub encoding : String → Bytes → Bytes
  pub signs :
      (key : PublicKey) (f : Bytes → Option Bytes) (t : String) (payload : Bytes) (env : Envelope)
      → sign_payload (c.sha256_key_id key) f t payload ≡ some env
      → (sig : Bytes) × (f (encoding t payload) ≡ some sig)
        × ((test : Bytes → Bytes → Bool)
            → test (encoding t payload) sig ≡ true
            → c.verify_and_decode env
                (record { key_id = c.sha256_key_id key; public = key; verify = test } ∷ [])
              ≡ record {
                calls = record { verifier = 0; signed = encoding t payload; sig = sig } ∷ [];
                accepted = true;
              })
  pub one_verifier : (verifier : DsseVerifier) → c.envelope_verifier (verifier ∷ []) ≡ true

module _ (c : Crypto) (sign_payload : SignPayload) (dsse : IsDsse c sign_payload) where
  -- The run on a signed envelope marks the only verifier.
  verify-signed :
      (env : Envelope) (cert : Certificate) (message sig : Bytes)
      → accepts c cert.public_key message sig ≡ true
      → run_on c env (cert ∷ []) ≡ record {
        calls = record { verifier = 0; signed = message; sig = sig } ∷ [];
        accepted = true;
      }
      → verify c (some env) (cert ∷ []) ≡ ok (identity_from_cert c cert)
  unfolding verify guard or_error ◌>>=◌ verify_signature
  verify-signed env cert message sig good run =
      rw (dsse.one_verifier (verifier_of c cert), run) (rw good refl)

  -- For a DSSE library that signs the encoding of the payload and hands it to the verifier of the
  -- same key, and a key pair of the standard library, an envelope that `Sign` returns is verified
  -- with any certificate of that key and gives the identity of that certificate.
  pub verify-sign :
      (key : Signer) (payload_type : String) (payload : Bytes) (env : Envelope) (cert : Certificate)
      → IsKeyPair c key key.public
      → cert.public_key ≡ key.public
      → sign c sign_payload payload_type payload (some key) ≡ ok env
      → verify c (some env) (cert ∷ []) ≡ ok (identity_from_cert c cert)
  unfolding sign or_error ◌>>=◌
  verify-sign key payload_type payload env cert pair same signed =
      let used : String = if payload_type == "" then payload_type_in_toto else payload_type in
      let made : sign_payload (c.sha256_key_id key.public) (sign_bytes c key.public key) used
            payload
          ≡ some env =
        ground arith in
      let (sig, produced, run) =
        dsse.signs key.public (sign_bytes c key.public key) used payload env made in
      let message = dsse.encoding used payload in
      let good : accepts c cert.public_key message sig ≡ true =
        rw same (accepts-sign_bytes c key key.public message sig pair produced) in
      verify-signed env cert message sig good
        (rw same (run (accepts c key.public) (rw same at good)))
