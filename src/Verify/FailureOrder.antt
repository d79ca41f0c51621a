-- ===== src/Verify/FailureOrder.antt =====
-- internal/verify/failure_order.go: the priorities of the failure codes, and the deterministic
-- order in which they are presented. The set `seen` is the list of its members.
pub mod Canonical
use agentattest.Prelude.{
  ℕ, String, Bool, true, false, Option, none, some, List, [], ◌∷◌, ◌++◌, ◌||◌, ◌==◌, ltb,
  if◌then◌else◌,
}
use agentattest.Prelude.Sort.{sort_slice}
use agentattest.Prelude.Text.{text_less}

-- `m[key]` of a Go map literal, with whether the key is there.
unfoldable pub lookup {ℓ} : {V : Type ℓ} → String → List (String × V) → Option V
lookup key [] = none
lookup key ((k, v) ∷ m) = if k == key then some v else lookup key m

abbrev pub failure_priority : List (String × ℕ)
failure_priority =
    ("unsupported_statement_type", 10)
    ∷ ("predicate_type_mismatch", 20)
    ∷ ("unsupported_predicate_version", 30)
    ∷ ("schema_invalid", 40)
    ∷ ("signature_invalid", 50)
    ∷ ("transparency_verification_failed", 60)
    ∷ ("subject_digest_mismatch", 70)
    ∷ ("repo_url_mismatch", 80)
    ∷ ("base_commit_mismatch", 90)
    ∷ ("signer_identity_mismatch", 100)
    ∷ ("builder_identity_mismatch", 110)
    ∷ ("replay_detected", 120)
    ∷ ("privacy_violation", 130)
    ∷ ("level_escalation", 140)
    ∷ ("level_below_required", 150)
    ∷ ("missing_evidence", 160)
    ∷ ("stale_attestation", 170)
    ∷ ("policy_eval_error", 180)
    ∷ []

unfoldable pub priority : String → Option ℕ
priority code = lookup code failure_priority

-- The comparison of the sort: known codes by priority and first, unknown ones by their text.
by_priority : Option ℕ → Option ℕ → String → String → Bool
by_priority (some left) (some right) a b = ltb left right
by_priority (some left) none a b = true
by_priority none (some right) a b = false
by_priority none none a b = text_less a b

unfoldable pub code_less : String → String → Bool
unfolding by_priority
code_less a b = by_priority (priority a) (priority b) a b

unfoldable pub contains : List String → String → Bool
contains [] a = false
contains (x ∷ xs) a = x == a || contains xs a

-- The loop that keeps the first occurrence of each code.
unique : List String → List String → List String → List String
unfolding contains
unique [] seen ordered = ordered
unique (code ∷ codes) seen ordered =
    unique codes (if contains seen code then seen else code ∷ seen)
      (if contains seen code then ordered else ordered ++ code ∷ [])

unfoldable pub order_failure_codes : List String → List String
unfolding unique sort_slice code_less
order_failure_codes codes = sort_slice code_less (unique codes [] [])
