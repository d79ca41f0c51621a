-- ===== src/Signing/Bundle.antt =====
-- internal/signing/bundle.go: a Sigstore bundle's envelope, chain and payload.
pub mod Verified
use agentattest.Prelude.{
  String, Bool, true, false, not, Option, none, some, List, [], ◌∷◌, ◌++◌, if◌then◌else◌,
}
use agentattest.Json.{
  Value, null, boolean, number, float, text, arr, obj, Items, nil, cons, Fields, end, field, get,
  as_text, as_object, array?,
}
use agentattest.Env.{Bytes}
use agentattest.Signing.Types.{
  Certificate, Signature, Envelope, VerifiedContext, TrustRoot, Result, ok, err, ◌>>=◌, ◌>>◌, guard,
  or_error, bad_bundle, no_envelope, envelope_not_object, bad_certificate, no_certificate_chain,
  bad_payload, Crypto,
}
use agentattest.Signing.Certificates.{parse_certificates}
use agentattest.Signing.Envelope.{verify_with_trust_root}
use agentattest.Signing.Rekor.{find_key, verify_rekor_inclusion}

-- An envelope and the certificates found beside it, if any.
abbrev pub Found : Type 0
Found = Option (Value × Option Value)

abbrev first_bundle : Found → Found → Found
first_bundle none later = later
first_bundle (some f) later = some f

-- `findBundle`
unfoldable mutual
  pub find_bundle : Value → Found
  find_bundle (obj m) = elim (get "dsseEnvelope" m) [
    | some env ↦ some (env, find_key "certificates" (obj m))
    | none ↦ find_bundle_fields m
  ]
  find_bundle (arr xs) = find_bundle_items xs
  find_bundle null = none
  find_bundle (boolean b) = none
  find_bundle (number n) = none
  find_bundle (float x) = none
  find_bundle (text s) = none

  pub find_bundle_items : Items → Found
  find_bundle_items nil = none
  find_bundle_items (cons v xs) = first_bundle (find_bundle v) (find_bundle_items xs)

  pub find_bundle_fields : Fields → Found
  find_bundle_fields end = none
  find_bundle_fields (field k v m) = first_bundle (find_bundle v) (find_bundle_fields m)

signature_of : Value → Signature
signature_of v =
    let sm = as_object (some v) in
    record { keyid = as_text (get "keyid" sm); sig = as_text (get "sig" sm) }

signatures_of : Items → List Signature
signatures_of nil = []
signatures_of (cons v vs) = signature_of v ∷ signatures_of vs

listed_signatures : Option Items → List Signature
listed_signatures none = []
listed_signatures (some vs) = signatures_of vs

-- `parseEnvelope`
unfoldable pub parse_envelope : Value → Result Envelope
unfolding listed_signatures signatures_of signature_of
parse_envelope (obj m) = ok (record {
  payload_type = as_text (get "payloadType" m);
  payload = as_text (get "payload" m);
  signatures = listed_signatures (array? (get "signatures" m));
})
parse_envelope _ = err envelope_not_object

module _ (c : Crypto) where
  first_of_chain : Result (List Certificate) → Result Certificate
  first_of_chain (ok (cert ∷ certs)) = ok cert
  first_of_chain (ok []) = err bad_certificate
  first_of_chain (err e) = err bad_certificate

  der_certificate : Option Bytes → Option Certificate
  der_certificate none = none
  der_certificate (some der) = c.parse_certificate der

  -- `parseCertString`: base64 DER, or else PEM.
  unfoldable pub parse_cert_string : String → Result Certificate
  unfolding first_of_chain der_certificate
  parse_cert_string s = elim (der_certificate (c.base64_std s)) [
    | some cert ↦ ok cert
    | none ↦ first_of_chain (parse_certificates c (c.bytes_of s))
  ]

  -- `parseCertArray` over the items that are strings; an absent chain is empty.
  parse_cert_items : Items → Result (List Certificate)
  unfolding parse_cert_string
  parse_cert_items nil = ok []
  parse_cert_items (cons (text s) vs) = do
    cert ← parse_cert_string s
    certs ← parse_cert_items vs
    ok (cert ∷ certs)
  parse_cert_items (cons v vs) = parse_cert_items vs

  unfoldable pub parse_cert_array : Option Value → Result (List Certificate)
  unfolding parse_cert_items
  parse_cert_array (some (arr vs)) = parse_cert_items vs
  parse_cert_array _ = ok []

  head_and_rest : List Certificate → Option (Certificate × List Certificate)
  head_and_rest [] = none
  head_and_rest (leaf ∷ rest) = some (leaf, rest)

  -- `FromSigstoreBundle`
  unfoldable pub from_sigstore_bundle : Bytes → TrustRoot → Result (VerifiedContext × Bytes)
  unfolding head_and_rest
  from_sigstore_bundle bundle_json trust = do
    root ← or_error (c.unmarshal bundle_json) bad_bundle
    (env_raw, certs_raw) ← or_error (find_bundle root) no_envelope
    env ← parse_envelope env_raw
    certs ← parse_cert_array certs_raw
    (leaf, intermediates) ← or_error (head_and_rest certs) no_certificate_chain
    vc ← verify_with_trust_root c (some env) (some leaf) intermediates trust
    verify_rekor_inclusion c root trust
    payload ← or_error (c.decode_payload env) bad_payload
    ok (vc, payload)
