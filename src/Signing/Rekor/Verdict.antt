-- ===== src/Signing/Rekor/Verdict.antt =====
-- When the check of the inclusion proof passes, and what it does not look at.
use agentattest.Prelude.{
  ◌≡◌, refl, ◌↔◌, ◌⊎◌, inl, inr, true, false, Option, none, some, [], ◌∷◌, arith, sym, subst,
}
use agentattest.Json.{Value}
use agentattest.Env.{Bytes}
use agentattest.Signing.Types.{TrustRoot, ok, RekorInclusion, Crypto}
use agentattest.Signing.Rekor.{
  find_key, bytes_equal, extract_rekor_inclusion, verify_inclusion, judge, pinned_root,
  verify_rekor_inclusion,
}

pub bytes_equal_iff : (xs ys : Bytes) → (bytes_equal xs ys ≡ true) ↔ (xs ≡ ys)
unfolding bytes_equal
bytes_equal_iff [] [] = (λ h. refl, λ e. refl)
bytes_equal_iff [] (b ∷ ys) = (λ h. cc h, λ e. cc e)
bytes_equal_iff (a ∷ xs) [] = (λ h. cc h, λ e. cc e)
bytes_equal_iff (a ∷ xs) (b ∷ ys) = ground (arith, bytes_equal_iff xs ys)

pinned_root_iff :
    (c : Crypto) (proven pinned : Bytes)
    → (pinned_root c proven pinned ≡ ok tt) ↔ ((pinned ≡ []) ⊎ (proven ≡ pinned))
unfolding pinned_root
pinned_root_iff c proven [] = (λ h. inl refl, λ h. refl)
pinned_root_iff c proven (b ∷ pinned) = ground (arith, bytes_equal_iff proven (b ∷ pinned))

judge-some :
    (c : Crypto) (trust : TrustRoot) (inc : RekorInclusion)
    → verify_inclusion c inc ≡ true
    → (trust.rekor_root_hash ≡ []) ⊎ (inc.root_hash ≡ trust.rekor_root_hash)
    → judge c trust (some inc) ≡ ok tt
unfolding judge
judge-some c trust inc good pin =
    rw good ((pinned_root_iff c inc.root_hash trust.rekor_root_hash).1 pin)

judge_iff :
    (c : Crypto) (trust : TrustRoot) (o : Option RekorInclusion)
    → (judge c trust o ≡ ok tt) ↔ (
        ((o ≡ none) × (trust.require_inclusion ≡ false))
        ⊎ ((inc : RekorInclusion) × (o ≡ some inc)
            × (c.verify_inclusion inc.log_index inc.tree_size
                  (c.hash_leaf inc.leaf_data)
                  inc.proof
                  inc.root_hash
                ≡ true)
            × ((trust.rekor_root_hash ≡ []) ⊎ (inc.root_hash ≡ trust.rekor_root_hash))))
unfolding judge
judge_iff c trust none = ground arith
judge_iff c trust (some inc) = (
  λ h. inr (
    inc,
    refl,
    ground arith,
    (pinned_root_iff c inc.root_hash trust.rekor_root_hash).0 (ground arith),
  ),
  λ h. elim h [
    | inl (e, _) ↦ cc e
    | inr (x, e, good, pin) ↦
        subst (λ o. judge c trust o ≡ ok tt) (sym e) (judge-some c trust x good pin)
  ],
)

module _ (c : Crypto) (root : Value) (trust : TrustRoot) where
  -- The check passes exactly when the bundle has a proof that the Merkle library verifies, whose
  -- root is the pinned one if a root is pinned, or has no proof and none is required.
  pub verify_rekor_inclusion_iff : (verify_rekor_inclusion c root trust ≡ ok tt) ↔ (
      ((extract_rekor_inclusion c root ≡ none) × (trust.require_inclusion ≡ false))
      ⊎ ((inc : RekorInclusion) × (extract_rekor_inclusion c root ≡ some inc)
          × (c.verify_inclusion inc.log_index inc.tree_size
                (c.hash_leaf inc.leaf_data)
                inc.proof
                inc.root_hash
              ≡ true)
          × ((trust.rekor_root_hash ≡ []) ⊎ (inc.root_hash ≡ trust.rekor_root_hash))))
  unfolding verify_rekor_inclusion verify_inclusion
  verify_rekor_inclusion_iff = judge_iff c trust (extract_rekor_inclusion c root)

-- Two bundles with the same first `tlogEntries` field pass or fail the inclusion check alike,
-- whatever else they hold, their envelopes included.
pub verify_rekor_inclusion_blind :
    (c : Crypto) (trust : TrustRoot) (root other : Value)
    → find_key "tlogEntries" root ≡ find_key "tlogEntries" other
    → verify_rekor_inclusion c root trust ≡ verify_rekor_inclusion c other trust
unfolding verify_rekor_inclusion extract_rekor_inclusion
verify_rekor_inclusion_blind c trust root other same = rw same
