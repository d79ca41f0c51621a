-- ===== src/App/Context/Laws.antt =====
-- What the verified identity can and cannot change in the verifier context.
use agentattest.Prelude.{
  String, ◌≡◌, refl, sym, ap, ◌∙◌, some, none, ◌==◌, eq_iff, inl, inr, Bool-cases,
}
use agentattest.Json.{text, end, get, as_text}
use agentattest.Json.Laws.{IsMap, put_text-IsMap, get-merge, or_else}
use agentattest.Gitbind.Types.{Result}
use agentattest.Signing.Types.{VerifiedContext}
use agentattest.Signing.Identity.{to_context_map}
use agentattest.Signing.Identity.Laws.{get-to_context_map, field_of, present}
use agentattest.App.Context.{
  level_or_default, patch_subjects, build_verifier_context, bundle_context,
}

to_context_map-IsMap : (vc : VerifiedContext) → IsMap (to_context_map vc)
unfolding to_context_map
to_context_map-IsMap vc = put_text-IsMap "verifiedIssuer" vc.verified_issuer _ (
    put_text-IsMap "verifiedWorkflowRef" vc.verified_workflow_ref _ (
      put_text-IsMap "verifiedBuilderId" vc.verified_builder_id _
        (put_text-IsMap "verifiedSigner" vc.verified_signer end tt)))

module _ (vc : VerifiedContext) (result : Result) (required_level : String) where
  get-bundle_context :
      (key : String)
      → get key (bundle_context vc result required_level)
        ≡ or_else (field_of vc key) (get key (build_verifier_context result required_level))
  unfolding bundle_context
  get-bundle_context key =
      get-merge key (to_context_map vc) (build_verifier_context result required_level)
        (to_context_map-IsMap vc)
      ∙ rw (get-to_context_map vc key) refl

  as_text-present : (s : String) → as_text (or_else (present s) none) ≡ s
  unfolding as_text
  as_text-present s = elim (Bool-cases (s == "")) [
    | inl p ↦ rw p (sym ((eq_iff s "").0 p))
    | inr p ↦ rw p refl
  ]

  -- Whatever identity a bundle has, the repository, the base commit, the required level and the
  -- subjects of the context are those of the checkout and the command line; and each identity key
  -- of the context reads as the field of the verified identity.
  pub bundle_context_lem :
      let m = bundle_context vc result required_level in
      (get "repoUrl" m ≡ some (text result.repo_url))
      × (get "baseCommit" m ≡ some (text result.base_commit))
      × (get "requiredLevel" m ≡ some (text (level_or_default required_level)))
      × (get "subjects" m ≡ some (patch_subjects result))
      × (as_text (get "verifiedSigner" m) ≡ vc.verified_signer)
      × (as_text (get "verifiedBuilderId" m) ≡ vc.verified_builder_id)
      × (as_text (get "verifiedWorkflowRef" m) ≡ vc.verified_workflow_ref)
      × (as_text (get "verifiedIssuer" m) ≡ vc.verified_issuer)
  unfolding build_verifier_context get
  bundle_context_lem = (
    get-bundle_context "repoUrl",
    get-bundle_context "baseCommit",
    get-bundle_context "requiredLevel",
    get-bundle_context "subjects",
    ap as_text (get-bundle_context "verifiedSigner") ∙ as_text-present vc.verified_signer,
    ap as_text (get-bundle_context "verifiedBuilderId") ∙ as_text-present vc.verified_builder_id,
    ap as_text (get-bundle_context "verifiedWorkflowRef")
        ∙ as_text-present vc.verified_workflow_ref,
    ap as_text (get-bundle_context "verifiedIssuer") ∙ as_text-present vc.verified_issuer,
  )
