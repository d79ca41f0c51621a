-- ===== src/Signing/Certificates/Laws.antt =====
-- The certificates of a PEM text are those of its blocks, in order, and the loop ends.
use mathlib.Core.List.{append-nil, append_assoc}
use agentattest.Prelude.{
  ℕ, zero, suc, ◌<◌, String, ◌≡◌, refl, ◌≢◌, ◌∙◌, ◌⊎◌, inl, inr, Option, none, some, List, [], ◌∷◌,
  ◌++◌, ◌==◌, arith, Bool-cases, true, length, Option-cases, if◌then◌else◌, sym, ap,
}
use agentattest.Env.{Bytes}
use agentattest.Signing.Types.{
  Certificate, Block, Crypto, Result, ok, err, bad_certificate, no_certificates,
}
use agentattest.Signing.Certificates.{
  Parse, parsed, malformed, parse_blocks, some_certificates, parse_certificates, roots_from,
  load_trust_root, Tuf, Client, TrustRootOptions, fulcio_roots_via_tuf, cache_dir_of, target_roots,
  fulcio_targets,
}

-- A decoded block leaves less of the input (`pem.Decode`).
abbrev pub BlocksShrink : Crypto → Type 0
BlocksShrink c =
    (rest : Bytes) (b : Block) → c.pem_decode rest ≡ some b → length b.rest < length rest

module _ (c : Crypto) where
  -- The blocks of an input, one after the other, up to where no further one is found.
  pub data Blocks : Bytes → List Block → Type 0 where
    no_block : (rest : Bytes) → c.pem_decode rest ≡ none → Blocks rest []
    block :
        (rest : Bytes) (b : Block) (bs : List Block)
        → c.pem_decode rest ≡ some b
        → Blocks b.rest bs
        → Blocks rest (b ∷ bs)

  abbrev prepend : Option Certificate → Option (List Certificate) → Option (List Certificate)
  prepend (some cert) (some certs) = some (cert ∷ certs)
  prepend (some cert) none = none
  prepend none certs = none

  -- The certificates of the certificate blocks; `none` if one of them does not parse.
  unfoldable pub certificates_of : List Block → Option (List Certificate)
  certificates_of [] = some []
  certificates_of (b ∷ bs) =
      if b.type == "CERTIFICATE"
      then prepend (c.parse_certificate b.content) (certificates_of bs)
      else certificates_of bs

  abbrev onto : List Certificate → Option (List Certificate) → Parse
  onto certs none = malformed
  onto certs (some more) = parsed (certs ++ more)

  abbrev pub outcome : Option (List Certificate) → Result (List Certificate)
  outcome none = err bad_certificate
  outcome (some []) = err no_certificates
  outcome (some (cert ∷ certs)) = ok (cert ∷ certs)

  onto-prepend :
      (certs : List Certificate) (cert : Certificate) (more : Option (List Certificate))
      → onto (certs ++ cert ∷ []) more ≡ onto certs (prepend (some cert) more)
  onto-prepend certs cert none = refl
  onto-prepend certs cert (some more) = ap parsed (append_assoc certs (cert ∷ []) more)

  -- One block: the rest of the loop, from the certificates so far.
  parse_blocks_step :
      (fuel : ℕ) (rest : Bytes) (b : Block) (bs : List Block) (certs : List Certificate)
      → c.pem_decode rest ≡ some b
      → ((done : List Certificate)
          → parse_blocks c fuel b.rest done ≡ onto done (certificates_of bs))
      → parse_blocks c (suc fuel) rest certs ≡ onto certs (certificates_of (b ∷ bs))
  unfolding parse_blocks certificates_of
  parse_blocks_step fuel rest b bs certs found ih =
      elim (Option-cases (c.parse_certificate b.content)) [
        | inl q ↦ ground (arith, ih certs)
        | inr (cert, q) ↦
            ground (
              arith,
              ih certs,
              ih (certs ++ cert ∷ []),
              onto-prepend certs cert (certificates_of bs),
            )
      ]

  -- The blocks of an input are found with as much fuel as the input is long.
  Blocks-exists :
      BlocksShrink c
      → (fuel : ℕ) (rest : Bytes) → length rest < fuel
      → (bs : List Block) × Blocks rest bs
  Blocks-exists shrink zero rest h = absurd (omega arith)
  Blocks-exists shrink (suc fuel) rest h = elim (Option-cases (c.pem_decode rest)) [
    | inl e ↦ ([], no_block rest e)
    | inr (b, e) ↦
        let smaller : length b.rest < fuel = omega (arith, shrink rest b e) in
        let (bs, found) = Blocks-exists shrink fuel b.rest smaller in
        (b ∷ bs, block rest b bs e found)
  ]

  parse_blocks-eq :
      BlocksShrink c
      → (fuel : ℕ) (rest : Bytes) (bs : List Block) → length rest < fuel
      → Blocks rest bs
      → (certs : List Certificate)
      → parse_blocks c fuel rest certs ≡ onto certs (certificates_of bs)
  parse_blocks-eq shrink zero rest bs h found certs = absurd (omega arith)
  parse_blocks-eq shrink (suc fuel) rest [] h (no_block _ e) certs =
      unfold parse_blocks certificates_of in
      rw (e, parse_blocks) (ap parsed (sym (append-nil certs)))
  parse_blocks-eq shrink (suc fuel) rest (b ∷ bs) h (block _ _ _ e found) certs =
      parse_blocks_step fuel rest b bs certs e
        (parse_blocks-eq shrink fuel b.rest bs (omega (arith, shrink rest b e)) found)

  some_certificates-onto :
      (found : Option (List Certificate)) → some_certificates c (onto [] found) ≡ outcome found
  unfolding some_certificates
  some_certificates-onto none = refl
  some_certificates-onto (some []) = refl
  some_certificates-onto (some (cert ∷ certs)) = refl

  -- Where each PEM block leaves a shorter rest, `ParseCertificates` ends and its result is the
  -- certificates of the input's certificate blocks, in their order; it is an error if one of them
  -- does not parse, or if there is none.
  pub parse_certificates_lem :
      BlocksShrink c
      → (pem : Bytes)
      → (bs : List Block) × Blocks pem bs
        × (parse_certificates c pem ≡ outcome (certificates_of bs))
  unfolding parse_certificates
  parse_certificates_lem shrink pem =
      let (bs, found) = Blocks-exists shrink (suc (length pem)) pem (omega arith) in
      (
        bs,
        found,
        ap (some_certificates c)
              (parse_blocks-eq shrink (suc (length pem)) pem bs (omega arith) found [])
            ∙ some_certificates-onto (certificates_of bs),
      )

  -- A parsed chain has a certificate.
  parse_certificates-ne-nil :
      (pem : Bytes) (certs : List Certificate) → parse_certificates c pem ≡ ok certs → certs ≢ []
  unfolding parse_certificates
  parse_certificates-ne-nil pem certs h = ground arith

  target_roots-some :
      (fetched : Option Bytes) (roots : List Certificate)
      → target_roots c fetched ≡ some roots
      → (blob : Bytes) × (fetched ≡ some blob) × (parse_certificates c blob ≡ ok roots)
  unfolding target_roots
  target_roots-some none roots h = cc h
  target_roots-some (some blob) roots h = (blob, refl, ground arith)

  -- The roots of the first target that is fetched and parses.
  roots_from_ok :
      (get_target : String → Option Bytes) (names : List String) (roots : List Certificate)
      → roots_from c get_target names ≡ ok roots
      → (name : String) × (blob : Bytes) × (get_target name ≡ some blob)
        × (parse_certificates c blob ≡ ok roots)
  roots_from_ok get_target [] roots h = unfold roots_from in cc h
  roots_from_ok get_target (name ∷ names) roots h =
      elim (Option-cases (target_roots c (get_target name))) [
        | inl e ↦
            roots_from_ok get_target names roots (unfold roots_from in rw (e, roots_from) at h)
        | inr (found, e) ↦
            let (blob, fetched, read) = target_roots-some (get_target name) found e in
            let same : found ≡ roots = unfold roots_from in ground arith in
            (name, blob, fetched, read ∙ ap ok same)
      ]

  -- A client that was made in the directory and refreshed has a target of these certificates.
  pub record IsFetched (tuf : Tuf) (dir : String) (roots : List Certificate) : Type 0 where
    pub client : Client
    pub created : tuf.create dir ≡ some client
    pub refreshed : client.refresh ≡ true
    pub name : String
    pub blob : Bytes
    pub fetched : client.get_target name ≡ some blob
    pub read : parse_certificates c blob ≡ ok roots

  fulcio_roots_via_tuf_ok :
      (tuf : Tuf) (dir : String) (roots : List Certificate)
      → fulcio_roots_via_tuf c tuf dir ≡ ok roots
      → IsFetched tuf dir roots
  unfolding fulcio_roots_via_tuf
  fulcio_roots_via_tuf_ok tuf dir roots h = elim (Option-cases (tuf.create dir)) [
    | inl p ↦ cc (rw (fulcio_roots_via_tuf, p) at h)
    | inr (client, p) ↦ elim (Bool-cases client.refresh) [
      | inr q ↦ cc (rw (fulcio_roots_via_tuf, p, q) at h)
      | inl q ↦
          let (name, blob, fetched, read) =
            roots_from_ok client.get_target (fulcio_targets c) roots
              (rw (fulcio_roots_via_tuf, p, q) at h) in
          record {
            client = client;
            created = p;
            refreshed = q;
            name = name;
            blob = blob;
            fetched = fetched;
            read = read;
          }
    ]
  ]

  loaded_ok :
      (tuf : Tuf) (opts : TrustRootOptions) (pem : Bytes) (roots : List Certificate)
      → opts.explicit_pem ≡ pem
      → load_trust_root c tuf opts ≡ ok roots
      → ((opts.explicit_pem ≢ []) × (parse_certificates c opts.explicit_pem ≡ ok roots))
        ⊎ ((opts.explicit_pem ≡ []) × IsFetched tuf (cache_dir_of tuf opts.cache_dir) roots)
  unfolding load_trust_root
  loaded_ok tuf opts [] roots e h = inr (
    e,
    fulcio_roots_via_tuf_ok tuf (cache_dir_of tuf opts.cache_dir) roots
        (rw (load_trust_root, e) at h),
  )
  loaded_ok tuf opts (b ∷ pem) roots e h =
      inl ((λ none_given. cc (e, none_given)), rw e (rw (load_trust_root, e) at h))

  -- Resolved roots are never empty. They are those of the PEM text that was given, or, where none
  -- was given, those of a target of a refreshed TUF client with the given cache directory, or the
  -- default one where none was given.
  pub load_trust_root_ok :
      (tuf : Tuf) (opts : TrustRootOptions) (roots : List Certificate)
      → load_trust_root c tuf opts ≡ ok roots
      → (roots ≢ [])
        × (((opts.explicit_pem ≢ []) × (parse_certificates c opts.explicit_pem ≡ ok roots))
            ⊎ ((opts.explicit_pem ≡ []) × IsFetched tuf (cache_dir_of tuf opts.cache_dir) roots))
  load_trust_root_ok tuf opts roots h = elim (loaded_ok tuf opts opts.explicit_pem roots refl h) [
    | inl (given, read) ↦
        (parse_certificates-ne-nil opts.explicit_pem roots read, inl (given, read))
    | inr (absent, found) ↦
        (parse_certificates-ne-nil found.blob roots found.read, inr (absent, found))
  ]
