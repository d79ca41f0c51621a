-- ===== src/App/EndToEnd.antt =====
-- Everything that stands behind the exit code 0 of `verify bundle`.
use agentattest.Prelude.{
  ℕ, suc, String, ◌≡◌, refl, ◌≢◌, ◌⊎◌, Bool, true, false, not, Option, some, List, ◌==◌, ◌||◌,
  eq_iff, arith, inl, inr,
}
use agentattest.Prelude.Early.{Early, ◌>>=◌, ◌>>◌, require, ensure, ended}
use agentattest.Prelude.Early.Rules.{require-holds, ensure-holds}
use agentattest.Env.{Bytes}
use agentattest.Contracts.{Files, locate}
use agentattest.Verify.Pipeline.{Result}
use agentattest.Verify.Pipeline.Accepts.{Accepts, predicate-valid_iff}
use agentattest.Gitbind.Types.{Result as Binding}
use agentattest.Gitbind.Compute.{compute}
use agentattest.Signing.Types.{TrustRoot, VerifiedContext}
use agentattest.Signing.Types.{Result as Answer, ok, err}
use agentattest.Signing.Certificates.{load_trust_root}
use agentattest.Signing.Bundle.Verified.{IsBacked, from_sigstore_bundle_ok}
use agentattest.App.Context.{bundle_context}
use agentattest.App.Command.{
  World, BundleFlags, Outcome, answered, given, signature_failure, reported, bundle_steps,
  run_verify_bundle,
}

-- Where a command ends with 0, each step had what it required.
require-zero {ℓ} :
    {A : Type ℓ} (o : Option A) (bad : Outcome) (rest : A → Early Outcome Outcome)
    → bad.code ≢ 0
    → (ended (require o bad >>= rest)).code ≡ 0
    → (a : A) × (o ≡ some a) × ((ended (rest a)).code ≡ 0)
require-zero = require-holds (λ o. o.code ≡ 0)

ensure-zero :
    (b : Bool) (bad : Outcome) (rest : Early Outcome Outcome)
    → bad.code ≢ 0
    → (ended (ensure b bad >> rest)).code ≡ 0
    → (b ≡ true) × ((ended rest).code ≡ 0)
ensure-zero = ensure-holds (λ o. o.code ≡ 0)

answered-some {ℓ} : {A : Type ℓ} {a : A} (r : Answer A) → answered r ≡ some a → r ≡ ok a
answered-some (ok a) h = cc h
answered-some (err e) h = cc h

given_not_blank :
    (flag : String) (blank : Bool)
    → (flag == "" || not blank) ≡ true
    → (flag ≡ "") ⊎ (blank ≡ false)
given_not_blank flag true h = inl ((eq_iff flag "").0 (ground arith))
given_not_blank flag false h = inr refl

suc-ne-zero : (n : ℕ) → suc n ≢ 0
suc-ne-zero n h = cc h

signature_failure-ne-zero : (w : World) → (signature_failure w).code ≢ 0
unfolding signature_failure
signature_failure-ne-zero w = λ h. cc h

reported-zero : (w : World) (r : Result) → (reported w r).code ≡ 0 → (r.valid ≡ true)
unfolding reported
reported-zero w r h = ground arith

-- A bundle file and its resolved trust root back an identity and a payload; the payload is accepted
-- against the context of the checkout with that identity merged in.
pub record IsEndToEnd (w : World) (args : List String) : Type 0 where
  pub flags : BundleFlags
  pub flags_parsed : w.parse_bundle args ≡ some flags
  pub bundle_json : Bytes
  pub bundle_read : w.env.read_file flags.bundle ≡ some bundle_json
  pub trust_pem : Bytes
  pub pem_read : given w w.env.read_file flags.trust_root ≡ some trust_pem
  -- a trust root that is given is not blank
  pub pem_given : (flags.trust_root ≡ "") ⊎ (w.blank trust_pem ≡ false)
  pub trust : TrustRoot
  pub resolved :
      load_trust_root w.crypto w.tuf (record { explicit_pem = trust_pem; cache_dir = "" })
      ≡ ok trust.roots
  pub inclusion_flag : trust.require_inclusion ≡ flags.require_inclusion
  pub pinned : given w w.decode_hex flags.rekor_root ≡ some trust.rekor_root_hash
  pub verified : VerifiedContext
  pub payload : Bytes
  pub backed : IsBacked w.crypto bundle_json trust verified payload
  pub checkout : Binding
  pub computed : compute w.env w.git flags.repo ≡ some checkout
  pub context_json : Bytes
  pub marshalled :
      w.marshal (bundle_context verified checkout flags.required_level) ≡ some context_json
  pub files : Files
  pub located : locate w.env "" ≡ some files
  pub accepted : Accepts w.env files payload context_json

-- If `verify bundle` exits with 0, then the bundle of its flags was read; its trust root came from
-- the file that was given, which is not blank, or from TUF where none was given; that trust root and
-- the inclusion options of the flags back an identity and a payload of the bundle; and the verifier
-- accepts the payload against the context of the checkout with that identity merged in.
pub run_verify_bundle_zero :
    (w : World) (args : List String) → (run_verify_bundle w args).code ≡ 0 → IsEndToEnd w args
unfolding run_verify_bundle bundle_steps
run_verify_bundle_zero w args h =
    let bad = signature_failure-ne-zero w in
    let one : 1 ≢ 0 = suc-ne-zero 0 in
    let two : 2 ≢ 0 = suc-ne-zero 1 in
    let (flags, flags_parsed, h1) = require-zero _ _ _ two h in
    let (_, h2) = ensure-zero _ _ _ two h1 in
    let (bundle_json, bundle_read, h3) = require-zero _ _ _ one h2 in
    let (trust_pem, pem_read, h4) = require-zero _ _ _ one h3 in
    let (not_blank, h5) = ensure-zero _ _ _ bad h4 in
    let (roots, resolved, h6) = require-zero _ _ _ bad h5 in
    let (root_hash, pinned, h7) = require-zero _ _ _ two h6 in
    let ((verified, payload), passed, h8) = require-zero _ _ _ bad h7 in
    let (checkout, computed, h9) = require-zero _ _ _ one h8 in
    let (context_json, marshalled, h10) = require-zero _ _ _ one h9 in
    let (files, located, h11) = require-zero _ _ _ one h10 in
    record {
      flags = flags;
      flags_parsed = flags_parsed;
      bundle_json = bundle_json;
      bundle_read = bundle_read;
      trust_pem = trust_pem;
      pem_read = pem_read;
      pem_given = given_not_blank flags.trust_root (w.blank trust_pem) not_blank;
      trust = _;
      resolved = answered-some _ resolved;
      inclusion_flag = refl;
      pinned = pinned;
      verified = verified;
      payload = payload;
      backed =
          from_sigstore_bundle_ok w.crypto bundle_json _ verified payload (answered-some _ passed);
      checkout = checkout;
      computed = computed;
      context_json = context_json;
      marshalled = marshalled;
      files = files;
      located = located;
      accepted = (predicate-valid_iff w.env files payload context_json).0 (reported-zero w _ h11);
    }
