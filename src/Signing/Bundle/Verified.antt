-- ===== src/Signing/Bundle/Verified.antt =====
-- What is known of the identity and the payload that a bundle yields.
use agentattest.Prelude.{
  String, ◌≡◌, inl, inr, Option, some, List, [], ◌∷◌, arith, ap, sym, ◌∙◌, subst, Option-cases,
}
use agentattest.Json.{
  Value, null, boolean, number, float, text, arr, obj, Items, nil, cons, Fields, end, field, get,
}
use agentattest.Env.{Bytes}
use agentattest.Signing.Types.{
  Certificate, Envelope, VerifiedContext, TrustRoot, Result, ok, Crypto,
}
use agentattest.Signing.Envelope.Sound.{bind-ok, or_error-ok, IsTrusted, verify_leaf_ok}
use agentattest.Signing.Rekor.{find_key, verify_rekor_inclusion}
use agentattest.Signing.Bundle.{
  find_bundle, find_bundle_items, find_bundle_fields, parse_envelope, parse_cert_array,
  head_and_rest, from_sigstore_bundle,
}

-- A value stands somewhere inside another.
mutual
  pub data Inside (v : Value) : Value → Type 0 where
    whole : Inside v v
    in_array : (xs : Items) → InsideItems v xs → Inside v (arr xs)
    in_object : (m : Fields) → InsideFields v m → Inside v (obj m)

  pub data InsideItems (v : Value) : Items → Type 0 where
    item_here : (w : Value) (xs : Items) → Inside v w → InsideItems v (cons w xs)
    item_later : (w : Value) (xs : Items) → InsideItems v xs → InsideItems v (cons w xs)

  pub data InsideFields (v : Value) : Fields → Type 0 where
    entry_here : (k : String) (w : Value) (m : Fields) → Inside v w → InsideFields v (field k w m)
    entry_later :
        (k : String) (w : Value) (m : Fields) → InsideFields v m → InsideFields v (field k w m)

-- The envelope and the certificates are those of one object.
abbrev pub IsPair : Value → Option Value → Fields → Type 0
IsPair env certs m = (get "dsseEnvelope" m ≡ some env) × (certs ≡ find_key "certificates" (obj m))

mutual
  unfolding find_bundle

  find_bundle-IsPair :
      (v : Value) (env : Value) (certs : Option Value)
      → find_bundle v ≡ some (env, certs)
      → (m : Fields) × Inside (obj m) v × IsPair env certs m
  find_bundle-IsPair (obj m) env certs h = elim (Option-cases (get "dsseEnvelope" m)) [
    | inl e ↦
        let (n, at, pair) = find_bundle_fields-IsPair m env certs (ground arith) in
        (n, in_object m at, pair)
    | inr (x, e) ↦ (m, whole, (ground arith, ground arith))
  ]
  find_bundle-IsPair (arr xs) env certs h =
      let (n, at, pair) = find_bundle_items-IsPair xs env certs h in (n, in_array xs at, pair)
  find_bundle-IsPair null env certs h = cc h
  find_bundle-IsPair (boolean b) env certs h = cc h
  find_bundle-IsPair (number n) env certs h = cc h
  find_bundle-IsPair (float x) env certs h = cc h
  find_bundle-IsPair (text s) env certs h = cc h

  find_bundle_items-IsPair :
      (xs : Items) (env : Value) (certs : Option Value)
      → find_bundle_items xs ≡ some (env, certs)
      → (m : Fields) × InsideItems (obj m) xs × IsPair env certs m
  find_bundle_items-IsPair nil env certs h = cc h
  find_bundle_items-IsPair (cons v xs) env certs h = elim (Option-cases (find_bundle v)) [
    | inl e ↦
        let (n, at, pair) = find_bundle_items-IsPair xs env certs (ground arith) in
        (n, item_later v xs at, pair)
    | inr (x, e) ↦
        let (n, at, pair) = find_bundle-IsPair v env certs (ground arith) in
        (n, item_here v xs at, pair)
  ]

  find_bundle_fields-IsPair :
      (fs : Fields) (env : Value) (certs : Option Value)
      → find_bundle_fields fs ≡ some (env, certs)
      → (m : Fields) × InsideFields (obj m) fs × IsPair env certs m
  find_bundle_fields-IsPair end env certs h = cc h
  find_bundle_fields-IsPair (field k v m) env certs h = elim (Option-cases (find_bundle v)) [
    | inl e ↦
        let (n, at, pair) = find_bundle_fields-IsPair m env certs (ground arith) in
        (n, entry_later k v m at, pair)
    | inr (x, e) ↦
        let (n, at, pair) = find_bundle-IsPair v env certs (ground arith) in
        (n, entry_here k v m at, pair)
  ]

head_and_rest-some :
    (c : Crypto) (certs rest : List Certificate) (leaf : Certificate)
    → head_and_rest c certs ≡ some (leaf, rest)
    → certs ≡ leaf ∷ rest
unfolding head_and_rest
head_and_rest-some c [] rest leaf h = cc h
head_and_rest-some c (cert ∷ certs) rest leaf h = ground arith

-- What stands behind an identity and a payload: an object of the bundle that holds the envelope
-- and the certificates, of which the first is trusted with the identity, and whose payload is the
-- one that is returned.
pub record IsBacked (c : Crypto) (bundle_json : Bytes) (trust : TrustRoot) (vc : VerifiedContext)
    (payload : Bytes) : Type 0 where
  pub root : Value
  pub decoded : c.unmarshal bundle_json ≡ some root
  pub holder : Fields
  pub inside : Inside (obj holder) root
  pub env_raw : Value
  pub envelope_held : get "dsseEnvelope" holder ≡ some env_raw
  pub env : Envelope
  pub envelope_parsed : parse_envelope env_raw ≡ ok env
  pub leaf : Certificate
  pub intermediates : List Certificate
  pub chain_held :
      parse_cert_array c (find_key "certificates" (obj holder)) ≡ ok (leaf ∷ intermediates)
  -- roots, chain, issuer, an accepted run, an accepted signature, and the identity
  pub trusted : IsTrusted c env leaf intermediates trust vc
  pub included : verify_rekor_inclusion c root trust ≡ ok tt
  pub payload_decoded : c.decode_payload env ≡ some payload

same_pair :
    {v w : VerifiedContext} {x y : Bytes}
    → ◌≡◌ {A = Result (VerifiedContext × Bytes)} (ok (v, x)) (ok (w, y))
    → (v ≡ w) × (x ≡ y)
same_pair h = (cc h, cc h)

-- If `FromSigstoreBundle` returns an identity and a payload, then some object of the decoded bundle
-- holds an envelope that parses and a certificate chain whose leaf chains to a non-empty set of
-- roots; the leaf's issuer is on the allowlist, if there is one; the leaf's key accepted a signature
-- of a run that accepted the envelope; the identity is the leaf's; the inclusion check passed on the
-- bundle; and the payload is the envelope's.
pub from_sigstore_bundle_ok :
    (c : Crypto) (bundle_json : Bytes) (trust : TrustRoot) (vc : VerifiedContext) (payload : Bytes)
    → from_sigstore_bundle c bundle_json trust ≡ ok (vc, payload)
    → IsBacked c bundle_json trust vc payload
unfolding from_sigstore_bundle
from_sigstore_bundle_ok c bundle_json trust vc payload h =
    let (root, decoded, h1) = or_error-ok _ _ _ h in
    let ((env_raw, certs_raw), found, h2) = or_error-ok _ _ _ h1 in
    let (env, envelope_parsed, h3) = bind-ok _ _ h2 in
    let (certs, certs_parsed, h4) = bind-ok _ _ h3 in
    let ((leaf, intermediates), split, h5) = or_error-ok _ _ _ h4 in
    let (vc', verified, h6) = bind-ok _ _ h5 in
    let (_, included, h7) = bind-ok _ _ h6 in
    let (payload', payload_decoded, h8) = or_error-ok _ _ _ h7 in
    let (holder, inside, pair) = find_bundle-IsPair root env_raw certs_raw found in
    record {
      root = root;
      decoded = decoded;
      holder = holder;
      inside = inside;
      env_raw = env_raw;
      envelope_held = pair.0;
      env = env;
      envelope_parsed = envelope_parsed;
      leaf = leaf;
      intermediates = intermediates;
      chain_held =
          ap (parse_cert_array c) (sym pair.1)
          ∙ certs_parsed
          ∙ ap ok (head_and_rest-some c certs intermediates leaf split);
      trusted =
          subst (IsTrusted c env leaf intermediates trust) (same_pair h8).0
            (verify_leaf_ok c env leaf intermediates trust vc' verified);
      included = included;
      payload_decoded = payload_decoded ∙ ap some (same_pair h8).1;
    }
