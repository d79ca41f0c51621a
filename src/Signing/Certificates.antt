-- ===== src/Signing/Certificates.antt =====
-- internal/signing: `ParseCertificates`, and the trust root of trustroot.go. The PEM loop takes
-- fuel; one more unit than the input has bytes is enough, since each block leaves less.
pub mod Laws
use agentattest.Prelude.{
  ℕ, zero, suc, String, Bool, true, false, Option, none, some, List, [], ◌∷◌, ◌++◌, ◌==◌, length,
  if◌then◌else◌,
}
use agentattest.Env.{Bytes}
use agentattest.Signing.Types.{
  Certificate, Block, Crypto, Error, Result, ok, err, bad_certificate, no_certificates,
}

-- What the loop makes of its input, or that its fuel ran out.
pub data Parse : Type 0 where
  parsed : List Certificate → Parse
  malformed : Parse
  out_of_fuel : Parse

-- A client of a TUF repository: `Refresh` without an error, and `GetTarget`.
pub record Client : Type 0 where
  pub refresh : Bool
  pub get_target : String → Option Bytes

-- The TUF library: a client by its cache directory; and os.UserCacheDir, os.TempDir, filepath.Join.
pub record Tuf : Type 0 where
  pub create : String → Option Client
  pub user_cache_dir : Option String
  pub temp_dir : String
  pub join : List String → String

pub record TrustRootOptions : Type 0 where
  pub explicit_pem : Bytes
  pub cache_dir : String

unfoldable pub default_tuf_cache_dir : Tuf → String
default_tuf_cache_dir tuf =
    let base : String = elim tuf.user_cache_dir [ none ↦ tuf.temp_dir | some dir ↦ dir ] in
    tuf.join (base ∷ "agentattest" ∷ "tuf" ∷ [])

unfoldable pub cache_dir_of : Tuf → String → String
unfolding default_tuf_cache_dir
cache_dir_of tuf cache_dir = if cache_dir == "" then default_tuf_cache_dir tuf else cache_dir

module _ (c : Crypto) where
  -- The `for`; `certs` are those of the blocks before.
  unfoldable pub parse_blocks : ℕ → Bytes → List Certificate → Parse
  parse_blocks zero rest certs = out_of_fuel
  parse_blocks (suc fuel) rest certs = elim (c.pem_decode rest) [
    | none ↦ parsed certs
    | some block ↦
        if block.type == "CERTIFICATE"
        then (elim (c.parse_certificate block.content) [
          | none ↦ malformed
          | some cert ↦ parse_blocks fuel block.rest (certs ++ cert ∷ [])
        ])
        else parse_blocks fuel block.rest certs
  ]

  unfoldable pub some_certificates : Parse → Result (List Certificate)
  some_certificates (parsed []) = err no_certificates
  some_certificates (parsed (cert ∷ certs)) = ok (cert ∷ certs)
  some_certificates malformed = err bad_certificate
  some_certificates out_of_fuel = err bad_certificate

  -- `ParseCertificates`
  unfoldable pub parse_certificates : Bytes → Result (List Certificate)
  unfolding parse_blocks some_certificates
  parse_certificates pem = some_certificates (parse_blocks (suc (length pem)) pem [])

  abbrev pub fulcio_targets : List String
  fulcio_targets = "fulcio_v1.crt.pem" ∷ "fulcio.crt.pem" ∷ []

  -- One target: the fetched bytes parse to one or more certificates.
  target_roots : Option Bytes → Option (List Certificate)
  target_roots none = none
  target_roots (some blob) = elim (parse_certificates blob) [
    | err e ↦ none
    | ok [] ↦ none
    | ok (root ∷ roots) ↦ some (root ∷ roots)
  ]

  -- The loop of `rootsFromFetcher` over the candidate names.
  unfoldable pub roots_from : (String → Option Bytes) → List String → Result (List Certificate)
  unfolding target_roots
  roots_from get_target [] = err no_certificates
  roots_from get_target (name ∷ names) = elim (target_roots (get_target name)) [
    | none ↦ roots_from get_target names
    | some roots ↦ ok roots
  ]

  -- `fulcioRootsViaTUF`
  unfoldable pub fulcio_roots_via_tuf : Tuf → String → Result (List Certificate)
  unfolding roots_from
  fulcio_roots_via_tuf tuf cache_dir = elim (tuf.create cache_dir) [
    | none ↦ err no_certificates
    | some client ↦
        if client.refresh then roots_from client.get_target fulcio_targets else err no_certificates
  ]

  -- `LoadTrustRoot`
  unfoldable pub load_trust_root : Tuf → TrustRootOptions → Result (List Certificate)
  unfolding fulcio_roots_via_tuf cache_dir_of
  load_trust_root tuf opts = elim opts.explicit_pem [
    | [] ↦ fulcio_roots_via_tuf tuf (cache_dir_of tuf opts.cache_dir)
    | b ∷ explicit_pem ↦ parse_certificates (b ∷ explicit_pem)
  ]
