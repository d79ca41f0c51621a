-- ===== src/App/Command.antt =====
-- internal/app/app.go and context_summary.go: `runVerify`, `runVerifyBundle`, `signatureFailure`.
use agentattest.Prelude.{
  ℕ, String, Bool, false, not, Option, none, some, List, [], ◌∷◌, ◌==◌, ◌||◌, if◌then◌else◌,
}
use agentattest.Prelude.Early.{Early, next, ◌>>=◌, ◌>>◌, require, ensure, ended}
use agentattest.Json.{Fields}
use agentattest.Env.{Env, Bytes}
use agentattest.Contracts.{locate}
use agentattest.Verify.Pipeline.{Result, predicate}
use agentattest.Gitbind.Types.{Git}
use agentattest.Gitbind.Compute.{compute}
use agentattest.Signing.Types.{Crypto, TrustRoot}
use agentattest.Signing.Types.{Result as Answer, ok, err}
use agentattest.Signing.Certificates.{Tuf, TrustRootOptions, load_trust_root}
use agentattest.Signing.Bundle.{from_sigstore_bundle}
use agentattest.App.Context.{bundle_context}

pub record VerifyFlags : Type 0 where
  pub statement_path : String
  pub context_path : String

pub record BundleFlags : Type 0 where
  pub bundle : String
  pub trust_root : String
  pub repo : String
  pub required_level : String
  pub require_inclusion : Bool
  pub rekor_root : String

-- What the commands call beside the packages.
pub record World : Type 0 where
  pub env : Env
  pub crypto : Crypto
  pub git : Git
  pub tuf : Tuf
  -- the flag package on the arguments of a command
  pub parse_verify : List String → Option VerifyFlags
  pub parse_bundle : List String → Option BundleFlags
  -- json.Marshal, hex.DecodeString, whether bytes.TrimSpace leaves nothing
  pub marshal : Fields → Option Bytes
  pub decode_hex : String → Option Bytes
  pub blank : Bytes → Bool
  -- whether writing to the standard output succeeds
  pub writable : Bool

-- The exit code, and the result that was written to the standard output.
pub record Outcome : Type 0 where
  pub code : ℕ
  pub report : Option Result

abbrev pub answered {ℓ} : {A : Type ℓ} → Answer A → Option A
answered (ok a) = some a
answered (err e) = none

abbrev pub failure : ℕ → Outcome
failure code = record { code = code; report = none }

module _ (w : World) where
  unfoldable pub signature_failure : Outcome
  signature_failure = record {
    code = 1;
    report =
        if w.writable
        then some (record { valid = false; level = ""; failure_codes = "signature_invalid" ∷ [] })
        else none;
  }

  -- The end of both commands: the result is written, and the code says whether it is valid.
  unfoldable pub reported : Result → Outcome
  reported result =
      if w.writable
      then record { code = if result.valid then 0 else 1; report = some result }
      else failure 1

  unfoldable pub verify_steps : List String → Early Outcome Outcome
  unfolding reported
  verify_steps args = do
    flags ← require (w.parse_verify args) (failure 2)
    ensure (not (flags.statement_path == "" || flags.context_path == "")) (failure 2)
    statement_json ← require (w.env.read_file flags.statement_path) (failure 1)
    context_json ← require (w.env.read_file flags.context_path) (failure 1)
    files ← require (locate w.env "") (failure 1)
    next (reported (predicate w.env files statement_json context_json))

  unfoldable pub run_verify : List String → Outcome
  unfolding verify_steps
  run_verify args = ended (verify_steps args)

  -- A file or a text that a flag gives, nothing without the flag.
  abbrev pub given : (String → Option Bytes) → String → Option Bytes
  given read flag = if flag == "" then some [] else read flag

  unfoldable pub bundle_steps : List String → Early Outcome Outcome
  unfolding reported signature_failure
  bundle_steps args = do
    flags ← require (w.parse_bundle args) (failure 2)
    ensure (not (flags.bundle == "")) (failure 2)
    bundle_json ← require (w.env.read_file flags.bundle) (failure 1)
    trust_pem ← require (given w.env.read_file flags.trust_root) (failure 1)
    ensure (flags.trust_root == "" || not (w.blank trust_pem)) signature_failure
    let root_options : TrustRootOptions = record { explicit_pem = trust_pem; cache_dir = "" }
    roots ← require (answered (load_trust_root w.crypto w.tuf root_options)) signature_failure
    root_hash ← require (given w.decode_hex flags.rekor_root) (failure 2)
    let trust : TrustRoot = record {
      roots = roots;
      allowed_issuers = [];
      require_inclusion = flags.require_inclusion;
      rekor_root_hash = root_hash;
    }
    (verified, payload) ←
        require (answered (from_sigstore_bundle w.crypto bundle_json trust)) signature_failure
    result ← require (compute w.env w.git flags.repo) (failure 1)
    context_json ←
        require (w.marshal (bundle_context verified result flags.required_level)) (failure 1)
    files ← require (locate w.env "") (failure 1)
    next (reported (predicate w.env files payload context_json))

  unfoldable pub run_verify_bundle : List String → Outcome
  unfolding bundle_steps
  run_verify_bundle args = ended (bundle_steps args)
