-- ===== src/App/Main/Fetch.antt =====
-- What `verify bundle` leaves on the disk.
use agentattest.Prelude.{
  String, ◌≡◌, refl, ap, ◌⊎◌, inl, inr, Bool, true, false, Option, none, some, List, [], ◌∷◌, ◌==◌,
  ◌||◌, not, ◌∙◌, option_bind-some, same_some, Bool-cases, sym, subst, eq_iff, if◌then◌else◌,
}
use agentattest.Env.{Bytes}
use agentattest.Signing.Certificates.{cache_dir_of, default_tuf_cache_dir}
use agentattest.App.Command.{BundleFlags, given}
use agentattest.App.Main.{Shell, root_pem, after_load, main_verify}

-- `verify bundle`, whose flags give no PEM text as the trust root, has left the cache of a TUF client
-- in the default directory.
pub record IsFetch {S : Type 0} (sh : Shell S) (s : S) (args : List String) (after : S)
    : Type 0 where
  pub rest : List String
  pub bundle : args ≡ "verify" ∷ "bundle" ∷ rest
  pub flags : BundleFlags
  pub flags_parsed : sh.world.parse_bundle rest ≡ some flags
  pub no_pem : given sh.world sh.world.env.read_file flags.trust_root ≡ some []
  pub cached : after ≡ sh.tuf_cached s (default_tuf_cache_dir sh.world.tuf)

passed-some {ℓ} :
    {A : Type ℓ} (b : Bool) (a value : A) → (if b then some a else none) ≡ some value → a ≡ value
passed-some true a value h = same_some h
passed-some false a value h = cc h

module _ {S : Type 0} (sh : Shell S) where
  root_pem-some :
      (args : List String) (pem : Bytes)
      → root_pem sh args ≡ some pem
      → (flags : BundleFlags) × (sh.world.parse_bundle args ≡ some flags)
        × (given sh.world sh.world.env.read_file flags.trust_root ≡ some pem)
  unfolding root_pem
  root_pem-some args pem h =
      let (flags, parsed, h1) = option_bind-some _ _ h in
      let (_, _, h2) = option_bind-some _ _ h1 in
      let (_, _, h3) = option_bind-some _ _ h2 in
      let (trust_pem, read, h4) = option_bind-some _ _ h3 in
      let same : trust_pem ≡ pem =
        passed-some (flags.trust_root == "" || not (sh.world.blank trust_pem)) trust_pem pem h4 in
      (flags, parsed, read ∙ ap some same)

  after_load-kept :
      (s : S) (args : List String) (o : Option Bytes)
      → root_pem sh args ≡ o
      → (after_load sh s o ≡ s) ⊎ IsFetch sh s ("verify" ∷ "bundle" ∷ args) (after_load sh s o)
  unfolding after_load cache_dir_of
  after_load-kept s args none e = inl refl
  after_load-kept s args (some []) e =
      let (flags, parsed, read) = root_pem-some args [] e in
      inr (record {
        rest = args;
        bundle = refl;
        flags = flags;
        flags_parsed = parsed;
        no_pem = read;
        cached = refl;
      })
  after_load-kept s args (some (b ∷ pem)) e = inl refl

  pub main_verify-kept :
      (s : S) (args : List String)
      → ((main_verify sh s args).0 ≡ s) ⊎ IsFetch sh s ("verify" ∷ args) (main_verify sh s args).0
  unfolding main_verify
  main_verify-kept s [] = inl refl
  main_verify-kept s (command ∷ args) = elim (Bool-cases (command == "predicate")) [
    | inl p ↦ rw (main_verify, p) (inl refl)
    | inr p ↦ elim (Bool-cases (command == "bundle")) [
      | inl q ↦
          rw (main_verify, p, q)
            (subst
              (λ name.
                (after_load sh s (root_pem sh args) ≡ s)
                ⊎ IsFetch sh s ("verify" ∷ name ∷ args) (after_load sh s (root_pem sh args)))
              (sym ((eq_iff command "bundle").0 q))
              (after_load-kept s args (root_pem sh args) refl))
      | inr q ↦ rw (main_verify, p, q) (inl refl)
    ]
  ]
