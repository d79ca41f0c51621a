-- ===== src/App/Answers.antt =====
-- When `verify bundle` writes a result.
use agentattest.Prelude.{
  String, ◌≡◌, refl, Bool, true, false, Option, none, some, List, ◌==◌, arith,
}
use agentattest.Prelude.Early.{Early, ◌>>=◌, ◌>>◌, require, ensure, ended}
use agentattest.Contracts.{locate}
use agentattest.Verify.Pipeline.{Result}
use agentattest.Gitbind.Types.{Result as Binding}
use agentattest.Gitbind.Compute.{compute}
use agentattest.Signing.Types.{VerifiedContext}
use agentattest.App.Context.{bundle_context}
use agentattest.App.Command.{
  World, BundleFlags, Outcome, given, signature_failure, reported, bundle_steps, run_verify_bundle,
}

-- What keeps `verify bundle` from writing a result: its flags, a file or a digest that they name,
-- the checkout, the context, the contract pack, or the standard output.
pub data Silenced (w : World) (args : List String) : Type 0 where
  bad_flags : w.parse_bundle args ≡ none → Silenced w args
  no_bundle :
      (flags : BundleFlags)
      → w.parse_bundle args ≡ some flags
      → (flags.bundle == "") ≡ true
      → Silenced w args
  unread_bundle :
      (flags : BundleFlags)
      → w.parse_bundle args ≡ some flags
      → w.env.read_file flags.bundle ≡ none
      → Silenced w args
  unread_root :
      (flags : BundleFlags)
      → w.parse_bundle args ≡ some flags
      → given w w.env.read_file flags.trust_root ≡ none
      → Silenced w args
  bad_pin :
      (flags : BundleFlags)
      → w.parse_bundle args ≡ some flags
      → given w w.decode_hex flags.rekor_root ≡ none
      → Silenced w args
  no_binding :
      (flags : BundleFlags)
      → w.parse_bundle args ≡ some flags
      → compute w.env w.git flags.repo ≡ none
      → Silenced w args
  bad_context :
      (flags : BundleFlags) (verified : VerifiedContext) (checkout : Binding)
      → w.parse_bundle args ≡ some flags
      → compute w.env w.git flags.repo ≡ some checkout
      → w.marshal (bundle_context verified checkout flags.required_level) ≡ none
      → Silenced w args
  no_contracts : locate w.env "" ≡ none → Silenced w args
  unwritable : w.writable ≡ false → Silenced w args

module _ {κ} {E : Type κ} where
  -- A step that ends the command without a result only for the given reason.
  require-report {ℓ} :
      {A : Type ℓ} (o : Option A) (bad : Outcome) (rest : A → Early Outcome Outcome)
      → (o ≡ none → bad.report ≡ none → E)
      → ((a : A) → o ≡ some a → (ended (rest a)).report ≡ none → E)
      → (ended (require o bad >>= rest)).report ≡ none
      → E
  unfolding require ◌>>=◌
  require-report none bad rest f g h = f refl h
  require-report (some a) bad rest f g h = g a refl h

  ensure-report :
      (b : Bool) (bad : Outcome) (rest : Early Outcome Outcome)
      → (b ≡ false → bad.report ≡ none → E)
      → ((ended rest).report ≡ none → E)
      → (ended (ensure b bad >> rest)).report ≡ none
      → E
  unfolding ensure ◌>>=◌
  ensure-report false bad rest f g h = f refl h
  ensure-report true bad rest f g h = g h

module _ (w : World) (args : List String) where
  refused_silently : (signature_failure w).report ≡ none → Silenced w args
  unfolding signature_failure
  refused_silently h = unwritable (ground arith)

  reported_silently : (r : Result) → (reported w r).report ≡ none → Silenced w args
  unfolding reported
  reported_silently r h = unwritable (ground arith)

  -- `verify bundle` writes a result to the standard output, unless its flags are wrong, a file or a
  -- digest that they name cannot be read, the checkout has no binding, the context cannot be encoded,
  -- there is no contract pack, or the standard output cannot be written.
  pub run_verify_bundle_answers : (run_verify_bundle w args).report ≡ none → Silenced w args
  unfolding run_verify_bundle bundle_steps
  run_verify_bundle_answers =
      require-report _ _ _ (λ e h. bad_flags e)
        (λ flags parsed.
          ensure-report _ _ _ (λ e h. no_bundle flags parsed (ground arith))
            (require-report _ _ _ (λ e h. unread_bundle flags parsed e)
              (λ bundle_json read.
                require-report _ _ _ (λ e h. unread_root flags parsed e)
                  (λ trust_pem pem_read.
                    ensure-report _ _ _ (λ e h. refused_silently h)
                      (require-report _ _ _ (λ e h. refused_silently h)
                        (λ roots resolved.
                          require-report _ _ _ (λ e h. bad_pin flags parsed e)
                            (λ root_hash pinned.
                              require-report _ _ _ (λ e h. refused_silently h)
                                (λ (verified, payload) passed.
                                  require-report _ _ _ (λ e h. no_binding flags parsed e)
                                    (λ checkout computed.
                                      require-report _ _ _
                                        (λ e h.
                                          bad_context flags verified checkout parsed computed e)
                                        (λ context_json marshalled.
                                          require-report _ _ _ (λ e h. no_contracts e)
                                            (λ files located h. reported_silently _ h)))))))))))
