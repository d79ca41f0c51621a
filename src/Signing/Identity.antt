-- ===== src/Signing/Identity.antt =====
-- internal/signing/signing.go: the identity that a certificate carries, and its context keys.
pub mod Laws
use agentattest.Prelude.{
  String, Bool, true, false, Option, none, some, List, [], ◌∷◌, ◌==◌, ◌&&◌, starts_with, find?,
  if◌then◌else◌,
}
use agentattest.Json.{text, Fields, end, put_text}
use agentattest.Signing.Types.{Certificate, Extension, VerifiedContext, Crypto}

abbrev pub fulcio_issuer_oid : String
fulcio_issuer_oid = "1.3.6.1.4.1.57264.1.1"

-- `ToContextMap`: the fields that are not empty.
unfoldable pub to_context_map : VerifiedContext → Fields
unfolding put_text
to_context_map vc = put_text "verifiedIssuer" vc.verified_issuer (
    put_text "verifiedWorkflowRef" vc.verified_workflow_ref (
      put_text "verifiedBuilderId" vc.verified_builder_id
        (put_text "verifiedSigner" vc.verified_signer end)))

unfoldable pub has_text : String → String → Bool
has_text s sub = elim (find? s sub) [ none ↦ false | some at ↦ true ]

unfoldable pub is_github_workflow_ref : String → Bool
is_github_workflow_ref s = starts_with s "https://github.com/" && has_text s "/.github/workflows/"

module _ (c : Crypto) where
  unfoldable pub issuer_of : List Extension → String
  issuer_of [] = ""
  issuer_of (ext ∷ rest) =
      if ext.id == fulcio_issuer_oid then c.trim_space (c.string_of ext.value) else issuer_of rest

  unfoldable pub fulcio_issuer : Certificate → String
  unfolding issuer_of
  fulcio_issuer cert = issuer_of cert.extensions

  -- A signer that is a GitHub workflow is also the workflow and the builder.
  from_uri : String → String → VerifiedContext
  unfolding is_github_workflow_ref
  from_uri uri issuer =
      if is_github_workflow_ref uri
      then record {
        verified_signer = uri;
        verified_builder_id = uri;
        verified_workflow_ref = uri;
        verified_issuer = issuer;
      }
      else record {
        verified_signer = uri;
        verified_builder_id = "";
        verified_workflow_ref = "";
        verified_issuer = issuer;
      }

  named : String → String → VerifiedContext
  named signer issuer = record {
    verified_signer = signer;
    verified_builder_id = "";
    verified_workflow_ref = "";
    verified_issuer = issuer;
  }

  -- The `switch`: the first URI, else the first address, else the first DNS name, else the name.
  identity_of : List String → List String → List String → String → String → VerifiedContext
  unfolding from_uri named
  identity_of (uri ∷ _) emails names common issuer = from_uri uri issuer
  identity_of [] (email ∷ _) names common issuer = named email issuer
  identity_of [] [] (name ∷ _) common issuer = named name issuer
  identity_of [] [] [] common issuer = named common issuer

  unfoldable pub identity_from_cert : Certificate → VerifiedContext
  unfolding identity_of fulcio_issuer
  identity_from_cert cert =
      identity_of cert.uris cert.email_addresses cert.dns_names cert.common_name
        (fulcio_issuer cert)
