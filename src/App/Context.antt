-- ===== src/App/Context.antt =====
-- internal/app/context_summary.go: the verifier context of a checkout and of a verified bundle.
pub mod Laws
use agentattest.Prelude.{String, [], ◌∷◌, ◌==◌, if◌then◌else◌}
use agentattest.Json.{Value, text, arr, obj, of_list, map_of, Fields, put_all}
use agentattest.Gitbind.Types.{Result}
use agentattest.Signing.Types.{VerifiedContext}
use agentattest.Signing.Identity.{to_context_map}

unfoldable pub level_or_default : String → String
level_or_default required_level = if required_level == "" then "evidence-grade" else required_level

unfoldable pub patch_subjects : Result → Value
patch_subjects result = arr (
    of_list (
      obj (
        map_of (
          ("name", text "patch.diff")
          ∷ ("algorithm", text result.patch.algorithm)
          ∷ ("digest", text result.patch.digest)
          ∷ []))
      ∷ []))

unfoldable pub build_verifier_context : Result → String → Fields
unfolding level_or_default patch_subjects
build_verifier_context result required_level = map_of (
    ("repoUrl", text result.repo_url)
    ∷ ("baseCommit", text result.base_commit)
    ∷ ("requiredLevel", text (level_or_default required_level))
    ∷ ("subjects", patch_subjects result)
    ∷ [])

-- The context of `runVerifyBundle`: the checkout's, with the verified identity merged in.
unfoldable pub bundle_context : VerifiedContext → Result → String → Fields
unfolding put_all to_context_map build_verifier_context
bundle_context verified result required_level =
    put_all (to_context_map verified) (build_verifier_context result required_level)
