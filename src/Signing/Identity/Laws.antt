-- ===== src/Signing/Identity/Laws.antt =====
-- What an identity can and cannot claim, and what its context map holds.
use agentattest.Prelude.{
  String, ◌≡◌, refl, ◌⊎◌, inl, inr, true, Option, none, some, List, [], ◌∷◌, ◌==◌, eq_iff, arith,
  Bool-cases, if◌then◌else◌,
}
use agentattest.Json.{Value, text, get}
use agentattest.Json.Laws.{get-put_text}
use agentattest.Signing.Types.{Certificate, VerifiedContext, Crypto}
use agentattest.Signing.Identity.{
  to_context_map, is_github_workflow_ref, fulcio_issuer, identity_of, identity_from_cert,
}

identity_of_builder :
    (c : Crypto) (uris emails names : List String) (common issuer : String)
    → let vc = identity_of c uris emails names common issuer in
      (vc.verified_builder_id ≡ vc.verified_workflow_ref)
      × (vc.verified_issuer ≡ issuer)
      × ((vc.verified_builder_id ≡ "")
          ⊎ ((uri : String) × (rest : List String) × (uris ≡ uri ∷ rest)
              × (is_github_workflow_ref uri ≡ true)
              × (vc.verified_builder_id ≡ uri)
              × (vc.verified_signer ≡ uri)))
unfolding identity_of
identity_of_builder c (uri ∷ rest) emails names common issuer =
    elim (Bool-cases (is_github_workflow_ref uri)) [
      | inl p ↦ rw (p, identity_of) (refl, refl, inr (uri, rest, refl, p, refl, refl))
      | inr p ↦ rw (p, identity_of) (refl, refl, inl refl)
    ]
identity_of_builder c [] (email ∷ emails) names common issuer = (refl, refl, inl refl)
identity_of_builder c [] [] (name ∷ names) common issuer = (refl, refl, inl refl)
identity_of_builder c [] [] [] common issuer = (refl, refl, inl refl)

-- The builder id and the workflow of a certificate's identity are the same, its issuer is that of
-- the Fulcio extension, and the builder is empty or is the certificate's first URI, which is then a
-- GitHub workflow reference and the signer.
pub identity_from_cert_builder :
    (c : Crypto) (cert : Certificate)
    → let vc = identity_from_cert c cert in
      (vc.verified_builder_id ≡ vc.verified_workflow_ref)
      × (vc.verified_issuer ≡ fulcio_issuer c cert)
      × ((vc.verified_builder_id ≡ "")
          ⊎ ((uri : String) × (rest : List String) × (cert.uris ≡ uri ∷ rest)
              × (is_github_workflow_ref uri ≡ true)
              × (vc.verified_builder_id ≡ uri)
              × (vc.verified_signer ≡ uri)))
unfolding identity_from_cert
identity_from_cert_builder c cert =
    identity_of_builder c cert.uris cert.email_addresses cert.dns_names cert.common_name
      (fulcio_issuer c cert)

abbrev pub present : String → Option Value
present s = if s == "" then none else some (text s)

abbrev pub field_of : VerifiedContext → String → Option Value
field_of vc key =
    if "verifiedIssuer" == key
    then present vc.verified_issuer
    else if "verifiedWorkflowRef" == key
    then present vc.verified_workflow_ref
    else if "verifiedBuilderId" == key
    then present vc.verified_builder_id
    else if "verifiedSigner" == key
    then present vc.verified_signer
    else none

-- The context map of an identity has each field that is not empty under that field's context key,
-- and no other key.
pub get-to_context_map :
    (vc : VerifiedContext) (key : String) → get key (to_context_map vc) ≡ field_of vc key
unfolding to_context_map get
get-to_context_map vc key = rw (get-put_text "verifiedIssuer" key vc.verified_issuer) (
    rw (get-put_text "verifiedWorkflowRef" key vc.verified_workflow_ref) (
      rw (get-put_text "verifiedBuilderId" key vc.verified_builder_id) (
        rw (get-put_text "verifiedSigner" key vc.verified_signer) (
          ground (
            arith,
            eq_iff "verifiedIssuer" key,
            eq_iff "verifiedWorkflowRef" key,
            eq_iff "verifiedBuilderId" key,
            eq_iff "verifiedSigner" key,
            eq_iff "verifiedIssuer" "verifiedWorkflowRef",
            eq_iff "verifiedIssuer" "verifiedBuilderId",
            eq_iff "verifiedIssuer" "verifiedSigner",
            eq_iff "verifiedWorkflowRef" "verifiedBuilderId",
            eq_iff "verifiedWorkflowRef" "verifiedSigner",
            eq_iff "verifiedBuilderId" "verifiedSigner",
          )))))
