-- ===== src/Signing/Envelope/Sound.antt =====
-- An identity is handed on only for a trusted certificate whose key verified a signature.
use mathlib.Core.Path.{subst₂}
use agentattest.Prelude.{
  ℕ, zero, suc, String, ◌≡◌, refl, ◌≢◌, ◌⊎◌, inl, inr, Bool, true, false, not, Option, none, some,
  List, [], ◌∷◌, map, arith, Bool-cases, All, In, here, there, subst, eq_iff,
}
use agentattest.Signing.Types.{
  Certificate, Envelope, VerifiedContext, TrustRoot, Result, ok, err, Error, ◌>>=◌, ◌>>◌, guard,
  or_error, Call, Crypto,
}
use agentattest.Signing.Identity.{identity_from_cert, fulcio_issuer}
use agentattest.Signing.Envelope.{
  CertVerifier, fresh, is_nil, accepts, verify_signature, make_call, make_calls, first_verified,
  run_on, verify, issuer_allowed, verify_with_trust_root, slices_contains,
}

-- Inversion of a successful chain.
pub bind-ok {ℓ κ} :
    {A : Type ℓ} {B : Type κ} {value : B} (first : Result A) (after : A → Result B)
    → (first >>= after) ≡ ok value
    → (a : A) × (first ≡ ok a) × (after a ≡ ok value)
unfolding ◌>>=◌
bind-ok (err e) after h = cc h
bind-ok (ok a) after h = (a, refl, h)

pub guard-ok {κ} :
    {B : Type κ} (t : Bool) (e : Error) (r : Result B) {b : B}
    → (guard t e >> r) ≡ ok b
    → (t ≡ true) × (r ≡ ok b)
unfolding guard ◌>>=◌
guard-ok true e r h = (refl, h)
guard-ok false e r h = cc h

pub or_error-ok {ℓ κ} :
    {A : Type ℓ} {B : Type κ} (o : Option A) (e : Error) (f : A → Result B) {b : B}
    → (or_error o e >>= f) ≡ ok b
    → (a : A) × (o ≡ some a) × (f a ≡ ok b)
unfolding or_error ◌>>=◌
or_error-ok (some a) e f h = (a, refl, h)
or_error-ok none e f h = cc h

module _ (c : Crypto) (certs : List Certificate) (calls : List Call) where
  -- The key of the certificate accepted what the library passed it in one of its calls.
  abbrev pub Accepted : Certificate → Type 0
  Accepted cert =
      (call : Call) × In call calls × (accepts c cert.public_key call.signed call.sig ≡ true)

  -- A verifier is one of the trusted certificates', and is marked only with a reason.
  abbrev Sound : CertVerifier → Type 0
  Sound v = In v.cert certs × (v.verified ≡ true → Accepted v.cert)

  fresh-Sound : (cert : Certificate) → In cert certs → Sound (fresh cert)
  fresh-Sound cert m = (m, λ h. cc h)

  fresh-All :
      (sub : List Certificate)
      → ((cert : Certificate) → In cert sub → In cert certs)
      → All Sound (map fresh sub)
  fresh-All [] h = tt
  fresh-All (cert ∷ sub) h = (fresh-Sound cert (h cert here), fresh-All sub (λ d m. h d (there m)))

  verify_signature-Sound :
      (v : CertVerifier) (call : Call)
      → In call calls
      → Sound v
      → Sound (verify_signature c v call.signed call.sig).0
  unfolding verify_signature
  verify_signature-Sound v call made s =
      elim (Bool-cases (accepts c v.cert.public_key call.signed call.sig)) [
        | inl p ↦ rw (p, verify_signature) (s.0, λ _. (call, made, p))
        | inr p ↦ rw (p, verify_signature) s
      ]

  make_call-Sound :
      (at : ℕ) (call : Call) (vs : List CertVerifier)
      → In call calls
      → All Sound vs
      → All Sound (make_call c at call.signed call.sig vs)
  unfolding make_call
  make_call-Sound at call [] made h = tt
  make_call-Sound zero call (v ∷ vs) made h = (verify_signature-Sound v call made h.0, h.1)
  make_call-Sound (suc at) call (v ∷ vs) made h = (h.0, make_call-Sound at call vs made h.1)

  make_calls-Sound :
      (some_calls : List Call) (vs : List CertVerifier)
      → ((call : Call) → In call some_calls → In call calls)
      → All Sound vs
      → All Sound (make_calls c some_calls vs)
  unfolding make_calls
  make_calls-Sound [] vs sub h = h
  make_calls-Sound (call ∷ rest) vs sub h =
      make_calls-Sound rest _ (λ d m. sub d (there m))
        (make_call-Sound call.verifier call vs (sub call here) h)

  first_verified-Sound :
      (vs : List CertVerifier) {vc : VerifiedContext}
      → All Sound vs
      → first_verified c vs ≡ ok vc
      → (cert : Certificate) × In cert certs × Accepted cert × (vc ≡ identity_from_cert c cert)
  unfolding first_verified
  first_verified-Sound [] h e = cc e
  first_verified-Sound (v ∷ vs) h e = elim (Bool-cases v.verified) [
    | inl p ↦ (v.cert, h.0.0, h.0.1 p, ground arith)
    | inr p ↦ first_verified-Sound vs h.1 (rw (p, first_verified) at e)
  ]

one-of :
    (cert leaf : Certificate) → In cert (leaf ∷ []) → (P : Certificate → Type 0) → P cert → P leaf
one-of cert leaf here P p = p
one-of cert leaf (there m) P p = elim m [ ]

module _ (c : Crypto) where
  -- `Verify` hands on only the identity of a trusted certificate whose key accepted a signature
  -- that the DSSE library passed to its verifier, in a run that accepted the envelope.
  pub verify_ok :
      (envelope : Option Envelope) (certs : List Certificate) (vc : VerifiedContext)
      → verify c envelope certs ≡ ok vc
      → (env : Envelope) × (envelope ≡ some env)
        × ((run_on c env certs).accepted ≡ true)
        × ((cert : Certificate) × In cert certs
            × Accepted c certs (run_on c env certs).calls cert
            × (vc ≡ identity_from_cert c cert))
  unfolding verify
  verify_ok envelope certs vc h =
      let (env, given, h1) = or_error-ok _ _ _ h in
      let (_, h2) = guard-ok _ _ _ h1 in
      let (_, h3) = guard-ok _ _ _ h2 in
      let (accepted, h4) = guard-ok _ _ _ h3 in
      let calls = (run_on c env certs).calls in
      let sound =
        make_calls-Sound c certs calls calls (map fresh certs) (λ d m. m)
          (fresh-All c certs calls certs (λ d m. m)) in
      (env, given, accepted, first_verified-Sound c certs calls _ sound h4)

  -- With a single trusted certificate the identity is that certificate's.
  verify_one_ok :
      (env : Envelope) (leaf : Certificate) (vc : VerifiedContext)
      → verify c (some env) (leaf ∷ []) ≡ ok vc
      → ((run_on c env (leaf ∷ [])).accepted ≡ true)
        × Accepted c (leaf ∷ []) (run_on c env (leaf ∷ [])).calls leaf
        × (vc ≡ identity_from_cert c leaf)
  verify_one_ok env leaf vc h =
      let (x, same, run, found) = verify_ok (some env) (leaf ∷ []) vc h in
      let (cert, m, accepted, identity) = found in
      let e : x ≡ env = cc same in
      one-of cert leaf m
        (λ d.
          ((run_on c env (leaf ∷ [])).accepted ≡ true)
          × Accepted c (leaf ∷ []) (run_on c env (leaf ∷ [])).calls d
          × (vc ≡ identity_from_cert c d))
        (
          subst (λ y. (run_on c y (leaf ∷ [])).accepted ≡ true) e run,
          subst (λ y. Accepted c (leaf ∷ []) (run_on c y (leaf ∷ [])).calls cert) e accepted,
          identity,
        )

  is_nil-false : (roots : List Certificate) → not (is_nil roots) ≡ true → roots ≢ []
  unfolding is_nil
  is_nil-false [] h e = cc h
  is_nil-false (r ∷ roots) h e = cc e

  issuer_allowed-true :
      (allowed : List String) (issuer : String)
      → issuer_allowed c allowed issuer ≡ true
      → (allowed ≡ []) ⊎ ((issuer ≢ "") × (slices_contains allowed issuer ≡ true))
  unfolding issuer_allowed
  issuer_allowed-true [] issuer h = inl refl
  issuer_allowed-true (a ∷ allowed) issuer h =
      inr (λ e. ground (arith, eq_iff issuer ""), ground arith)

  -- With a trust root, an identity is handed on only for a given leaf certificate that chains to
  -- one or more roots over the intermediates, whose issuer is on the allowlist if there is one,
  -- and whose key accepted a signature in a run that accepted the envelope.
  pub verify_with_trust_root_ok :
      (envelope : Option Envelope) (leaf_cert : Option Certificate)
      (intermediates : List Certificate) (trust : TrustRoot) (vc : VerifiedContext)
      → verify_with_trust_root c envelope leaf_cert intermediates trust ≡ ok vc
      → (env : Envelope) × (leaf : Certificate) × (envelope ≡ some env)
        × (leaf_cert ≡ some leaf)
        × (trust.roots ≢ [])
        × (c.chain_verifies leaf intermediates trust.roots ≡ true)
        × ((trust.allowed_issuers ≡ [])
            ⊎ ((fulcio_issuer c leaf ≢ "")
                × (slices_contains trust.allowed_issuers (fulcio_issuer c leaf) ≡ true)))
        × ((run_on c env (leaf ∷ [])).accepted ≡ true)
        × Accepted c (leaf ∷ []) (run_on c env (leaf ∷ [])).calls leaf
        × (vc ≡ identity_from_cert c leaf)
  unfolding verify_with_trust_root
  verify_with_trust_root_ok envelope leaf_cert intermediates trust vc h =
      let (env, given, h1) = or_error-ok _ _ _ h in
      let (leaf, leaf_given, h2) = or_error-ok _ _ _ h1 in
      let (rooted, h3) = guard-ok _ _ _ h2 in
      let (chained, h4) = guard-ok _ _ _ h3 in
      let (allowed, h5) = guard-ok _ _ _ h4 in
      let (run, accepted, identity) = verify_one_ok env leaf vc h5 in
      (
        env,
        leaf,
        given,
        leaf_given,
        is_nil-false trust.roots rooted,
        chained,
        issuer_allowed-true _ _ allowed,
        run,
        accepted,
        identity,
      )

  -- What stands behind an identity that a leaf certificate gives under a trust root.
  pub record IsTrusted (env : Envelope) (leaf : Certificate) (intermediates : List Certificate)
      (trust : TrustRoot) (vc : VerifiedContext) : Type 0 where
    pub rooted : trust.roots ≢ []
    pub chained : c.chain_verifies leaf intermediates trust.roots ≡ true
    pub issued :
        (trust.allowed_issuers ≡ [])
        ⊎ ((fulcio_issuer c leaf ≢ "")
            × (slices_contains trust.allowed_issuers (fulcio_issuer c leaf) ≡ true))
    pub run_accepted : (run_on c env (leaf ∷ [])).accepted ≡ true
    pub accepted : Accepted c (leaf ∷ []) (run_on c env (leaf ∷ [])).calls leaf
    pub identity : vc ≡ identity_from_cert c leaf

  -- The same for an envelope and a leaf that are at hand.
  pub verify_leaf_ok :
      (env : Envelope) (leaf : Certificate) (intermediates : List Certificate) (trust : TrustRoot)
      (vc : VerifiedContext)
      → verify_with_trust_root c (some env) (some leaf) intermediates trust ≡ ok vc
      → IsTrusted env leaf intermediates trust vc
  verify_leaf_ok env leaf intermediates trust vc h =
      let (e, l, given, leaf_given, rooted, chained, issued, run, accepted, identity) =
        verify_with_trust_root_ok (some env) (some leaf) intermediates trust vc h in
      let at_env : e ≡ env = cc given in
      let at_leaf : l ≡ leaf = cc leaf_given in
      subst₂ (λ x y. IsTrusted x y intermediates trust vc) at_env at_leaf
        (record {
          rooted = rooted;
          chained = chained;
          issued = issued;
          run_accepted = run;
          accepted = accepted;
          identity = identity;
        })
