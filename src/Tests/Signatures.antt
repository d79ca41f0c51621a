-- ===== src/Tests/Signatures.antt =====
-- Signing, certificates, bundles and log proofs with the toy cryptography.
use agentattest.Prelude.{
  ◌+◌, ◌%◌, ◌^◌, String, ◌≡◌, refl, ◌↔◌, ◌⊎◌, ◌≢◌, true, false, Option, none, some, List, [], ◌∷◌,
  ◌++◌, map, In, arith, if◌then◌else◌,
}
use agentattest.Json.{
  null, obj, arr, cons, nil, field, end, Value, get, object?, array?, as_object, as_text,
}
use agentattest.Env.{Bytes}
use agentattest.Signing.Types.{
  ed25519_key, Certificate, Envelope, VerifiedContext, TrustRoot, Block, ok, RekorInclusion, ◌>>=◌,
  guard, or_error,
}
use agentattest.Signing.Identity.{
  identity_from_cert, to_context_map, fulcio_issuer, is_github_workflow_ref, has_text,
}
use agentattest.Signing.Identity.Laws.{identity_from_cert_builder, get-to_context_map, field_of}
use agentattest.Signing.Certificates.{
  TrustRootOptions, parse_certificates, load_trust_root, roots_from, fulcio_roots_via_tuf,
  cache_dir_of,
}
use agentattest.Signing.Certificates.Laws.{
  BlocksShrink, Blocks, certificates_of, outcome, parse_certificates_lem, load_trust_root_ok,
  IsFetched,
}
use agentattest.Signing.Envelope.{
  Signer, SignPayload, sign, verify, verify_with_trust_root, run_on, slices_contains,
}
use agentattest.Signing.Envelope.Sound.{Accepted, verify_ok, verify_with_trust_root_ok}
use agentattest.Signing.Envelope.RoundTrip.{IsKeyPair, IsDsse, verify-sign}
use agentattest.Signing.Rekor.{
  find_key, extract_rekor_inclusion, verify_rekor_inclusion, parse_digits, codes, bytes_equal,
}
use agentattest.Signing.Rekor.Number.{value_from, parse_digits_lem}
use agentattest.Signing.Rekor.Verdict.{
  bytes_equal_iff, verify_rekor_inclusion_iff, verify_rekor_inclusion_blind,
}
use agentattest.Signing.Bundle.{
  from_sigstore_bundle, find_bundle, parse_envelope, parse_cert_array, parse_cert_string,
}
use agentattest.Signing.Bundle.Verified.{IsBacked, from_sigstore_bundle_ok}
use agentattest.Tests.Samples.{
  toy_tuf, statement_json, workflow, leaf, root_ca, toy, sample_bundle, sample_entry,
}

abbrev trust : TrustRoot
trust = record {
  roots = root_ca ∷ [];
  allowed_issuers = [];
  require_inclusion = true;
  rekor_root_hash = [];
}

abbrev envelope : Envelope
envelope = record { payload_type = "t"; payload = "p"; signatures = [] }

identity : VerifiedContext
unfolding identity_from_cert is_github_workflow_ref has_text
identity = identity_from_cert toy leaf

identity_is_workflow : identity.verified_builder_id ≡ workflow
unfolding identity
identity_is_workflow = refl

bundle_verifies :
    from_sigstore_bundle toy [] trust ≡ ok (identity_from_cert toy leaf, statement_json)
unfolding from_sigstore_bundle find_bundle parse_envelope parse_cert_array parse_cert_string
    verify_with_trust_root verify verify_rekor_inclusion extract_rekor_inclusion get object? array?
    as_object as_text find_key ◌>>=◌ guard or_error
bundle_verifies = refl

from_sigstore_bundle_ok_example : IsBacked toy [] trust (identity_from_cert toy leaf) statement_json
from_sigstore_bundle_ok_example =
    from_sigstore_bundle_ok toy [] trust (identity_from_cert toy leaf) statement_json
      bundle_verifies

verify_runs : verify toy (some envelope) (leaf ∷ []) ≡ ok (identity_from_cert toy leaf)
unfolding verify ◌>>=◌ guard or_error
verify_runs = refl

verify_ok_example :
    (env : Envelope) × (some envelope ≡ some env)
    × ((run_on toy env (leaf ∷ [])).accepted ≡ true)
    × ((cert : Certificate) × In cert (leaf ∷ [])
        × Accepted toy (leaf ∷ []) (run_on toy env (leaf ∷ [])).calls cert
        × (identity_from_cert toy leaf ≡ identity_from_cert toy cert))
verify_ok_example =
    verify_ok toy (some envelope) (leaf ∷ []) (identity_from_cert toy leaf) verify_runs

trust_runs :
    verify_with_trust_root toy (some envelope) (some leaf) [] trust
    ≡ ok (identity_from_cert toy leaf)
unfolding verify_with_trust_root verify ◌>>=◌ guard or_error
trust_runs = refl

verify_with_trust_root_ok_example :
    (env : Envelope) × (l : Certificate) × (some envelope ≡ some env)
    × (some leaf ≡ some l)
    × (trust.roots ≢ [])
    × (toy.chain_verifies l [] trust.roots ≡ true)
    × ((trust.allowed_issuers ≡ [])
        ⊎ ((fulcio_issuer toy l ≢ "")
            × (slices_contains trust.allowed_issuers (fulcio_issuer toy l) ≡ true)))
    × ((run_on toy env (l ∷ [])).accepted ≡ true)
    × Accepted toy (l ∷ []) (run_on toy env (l ∷ [])).calls l
    × (identity_from_cert toy leaf ≡ identity_from_cert toy l)
verify_with_trust_root_ok_example =
    verify_with_trust_root_ok toy (some envelope) (some leaf) [] trust (identity_from_cert toy leaf)
      trust_runs

abbrev key : Signer
key = record {
  public = ed25519_key (7 ∷ []);
  sign_digest = λ d. none;
  sign_message = λ m. some (1 ∷ []);
}

-- A library that signs a fixed encoding, the one on which the toy run calls its verifier, and
-- that knows one signature.
abbrev wrap : Option Bytes → Option Envelope
wrap none = none
wrap (some sig) = if bytes_equal sig (1 ∷ []) then some envelope else none

abbrev sign_envelope : SignPayload
sign_envelope key_id f t payload = wrap (f (9 ∷ []))

wrap-some : (o : Option Bytes) {env : Envelope} → wrap o ≡ some env → o ≡ some (1 ∷ [])
wrap-some none h = cc h
wrap-some (some sig) h = ground (arith, bytes_equal_iff sig (1 ∷ []))

toy-IsDsse : IsDsse toy sign_envelope
toy-IsDsse = record {
  encoding = λ t payload. 9 ∷ [];
  signs =
      λ key f t payload env made. (1 ∷ [], wrap-some (f (9 ∷ [])) made, λ test good. rw good refl);
  one_verifier = λ k. refl;
}

key-IsKeyPair : IsKeyPair toy key key.public
key-IsKeyPair message sig made = refl

signs : sign toy sign_envelope "" (5 ∷ []) (some key) ≡ ok envelope
unfolding sign ◌>>=◌ or_error bytes_equal
signs = refl

verify-sign_example : verify toy (some envelope) (leaf ∷ []) ≡ ok (identity_from_cert toy leaf)
verify-sign_example =
    verify-sign toy sign_envelope toy-IsDsse key "" (5 ∷ []) envelope leaf key-IsKeyPair refl signs

identity_from_cert_builder_example :
    let vc = identity_from_cert toy leaf in
    (vc.verified_builder_id ≡ vc.verified_workflow_ref)
    × (vc.verified_issuer ≡ fulcio_issuer toy leaf)
    × ((vc.verified_builder_id ≡ "")
        ⊎ ((uri : String) × (rest : List String) × (leaf.uris ≡ uri ∷ rest)
            × (is_github_workflow_ref uri ≡ true)
            × (vc.verified_builder_id ≡ uri)
            × (vc.verified_signer ≡ uri)))
identity_from_cert_builder_example = identity_from_cert_builder toy leaf

get-to_context_map_example :
    get "verifiedSigner" (to_context_map identity) ≡ field_of identity "verifiedSigner"
get-to_context_map_example = get-to_context_map identity "verifiedSigner"

toy-BlocksShrink : BlocksShrink toy
toy-BlocksShrink [] b h = cc h
toy-BlocksShrink (x ∷ xs) b h = ground arith

parse_certificates_lem_example :
    (bs : List Block) × Blocks toy (5 ∷ 6 ∷ []) bs
    × (parse_certificates toy (5 ∷ 6 ∷ []) ≡ outcome toy (certificates_of toy bs))
parse_certificates_lem_example = parse_certificates_lem toy toy-BlocksShrink (5 ∷ 6 ∷ [])

abbrev no_options : TrustRootOptions
no_options = record { explicit_pem = []; cache_dir = "" }

roots_resolve : load_trust_root toy toy_tuf no_options ≡ ok (leaf ∷ [])
unfolding load_trust_root fulcio_roots_via_tuf roots_from parse_certificates
roots_resolve = refl

load_trust_root_ok_example :
    (◌≢◌ {A = List Certificate} (leaf ∷ []) [])
    × (((◌≢◌ {A = Bytes} [] []) × (parse_certificates toy [] ≡ ok (leaf ∷ [])))
        ⊎ ((◌≡◌ {A = Bytes} [] []) × IsFetched toy toy_tuf (cache_dir_of toy_tuf "") (leaf ∷ [])))
load_trust_root_ok_example = load_trust_root_ok toy toy_tuf no_options (leaf ∷ []) roots_resolve

verify_rekor_inclusion_iff_example : (verify_rekor_inclusion toy sample_bundle trust ≡ ok tt) ↔ (
    ((extract_rekor_inclusion toy sample_bundle ≡ none) × (trust.require_inclusion ≡ false))
    ⊎ ((inc : RekorInclusion) × (extract_rekor_inclusion toy sample_bundle ≡ some inc)
        × (toy.verify_inclusion inc.log_index inc.tree_size
              (toy.hash_leaf inc.leaf_data)
              inc.proof
              inc.root_hash
            ≡ true)
        × ((trust.rekor_root_hash ≡ []) ⊎ (inc.root_hash ≡ trust.rekor_root_hash))))
verify_rekor_inclusion_iff_example = verify_rekor_inclusion_iff toy sample_bundle trust

-- The same entries beside another envelope.
abbrev forged : Value
forged = obj (field "dsseEnvelope" null (field "tlogEntries" (arr (cons sample_entry nil)) end))

verify_rekor_inclusion_blind_example :
    verify_rekor_inclusion toy sample_bundle trust ≡ verify_rekor_inclusion toy forged trust
unfolding find_key get
verify_rekor_inclusion_blind_example =
    verify_rekor_inclusion_blind toy trust sample_bundle forged refl

parse_digits_lem_example :
    parse_digits (map (λ d. d + 48) (4 ∷ 2 ∷ []) ++ b'x' ∷ []) 0
    ≡ value_from 0 (4 ∷ 2 ∷ []) % 2 ^ 64
parse_digits_lem_example = parse_digits_lem (4 ∷ 2 ∷ []) (b'x' ∷ []) (omega arith) refl

parse_digits_wraps : parse_digits (codes "18446744073709551617") 0 ≡ 1
unfolding parse_digits
parse_digits_wraps = refl
