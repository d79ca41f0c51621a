-- ===== src/App/Report.antt =====
-- What the exit code of a verify command says.
use agentattest.Prelude.{
  ◌≡◌, refl, ◌⊎◌, inl, inr, String, Bool, true, false, some, List, if◌then◌else◌, Bool-cases, arith,
}
use agentattest.Prelude.Early.Rules.{Ends, early_rules}
use agentattest.Verify.Pipeline.{Result}
use agentattest.App.Command.{
  World, Outcome, failure, signature_failure, reported, verify_steps, run_verify, bundle_steps,
  run_verify_bundle,
}

-- The code is 0 exactly for a valid result on the standard output, and is at most 2.
pub record IsVerdict (o : Outcome) : Type 0 where
  pub valid : (o.code ≡ 0) → (r : Result) × (o.report ≡ some r) × (r.valid ≡ true)
  pub zero_code : (r : Result) → o.report ≡ some r → r.valid ≡ true → o.code ≡ 0
  pub small : (o.code ≡ 0) ⊎ ((o.code ≡ 1) ⊎ (o.code ≡ 2))

failure_one-IsVerdict : IsVerdict (failure 1)
failure_one-IsVerdict = record {
  valid = λ h. cc h;
  zero_code = λ r h v. cc h;
  small = inr (inl refl);
}

failure_two-IsVerdict : IsVerdict (failure 2)
failure_two-IsVerdict = record {
  valid = λ h. cc h;
  zero_code = λ r h v. cc h;
  small = inr (inr refl);
}

module _ (w : World) where
  signature_failure-IsVerdict : IsVerdict (signature_failure w)
  unfolding signature_failure
  signature_failure-IsVerdict = record {
    valid = λ h. cc h;
    zero_code = λ r h v. ground arith;
    small = inr (inl refl);
  }

  written-IsVerdict :
      (r : Result) (v : Bool)
      → r.valid ≡ v
      → IsVerdict (record { code = if r.valid then 0 else 1; report = some r })
  written-IsVerdict r true e = record {
    valid = λ h. (r, refl, e);
    zero_code = λ s h v. rw e refl;
    small = rw e (inl refl);
  }
  written-IsVerdict r false e = record {
    valid = λ h. ground arith;
    zero_code = λ s h v. ground arith;
    small = rw e (inr (inl refl));
  }

  reported-IsVerdict : (r : Result) → IsVerdict (reported w r)
  unfolding reported
  reported-IsVerdict r = elim (Bool-cases w.writable) [
    | inl p ↦ rw p (written-IsVerdict r r.valid refl)
    | inr p ↦ rw p failure_one-IsVerdict
  ]

ruleset verdict_rules = (
  early_rules, failure_one-IsVerdict, failure_two-IsVerdict, signature_failure-IsVerdict,
  reported-IsVerdict,
)

verify_steps-IsVerdict : (w : World) (args : List String) → Ends IsVerdict (verify_steps w args)
unfolding verify_steps
verify_steps-IsVerdict w args = search verdict_rules depth 40

bundle_steps-IsVerdict : (w : World) (args : List String) → Ends IsVerdict (bundle_steps w args)
unfolding bundle_steps
bundle_steps-IsVerdict w args = search verdict_rules depth 40

-- For every command line and whatever the tools answer, `verify predicate` and `verify bundle` exit
-- with 0, 1 or 2, and with 0 exactly where a valid result was written to the standard output.
pub commands-IsVerdict :
    (w : World) (args : List String)
    → IsVerdict (run_verify w args) × IsVerdict (run_verify_bundle w args)
unfolding run_verify run_verify_bundle
commands-IsVerdict w args = ((verify_steps-IsVerdict w args).at, (bundle_steps-IsVerdict w args).at)
