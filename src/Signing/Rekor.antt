-- ===== src/Signing/Rekor.antt =====
-- internal/signing/rekor.go: the inclusion proof of a bundle's first log entry.
pub mod Number
pub mod Verdict
use Prim.Native.Char.{code}
use agentattest.Prelude.{
  ℕ, zero, suc, ◌+◌, ◌-◌, ◌*◌, ◌%◌, ◌^◌, String, Bool, true, false, not, Option, none, some, List,
  [], ◌∷◌, ◌&&◌, ◌||◌, ◌==◌, ltb, leb, if◌then◌else◌,
}
use agentattest.Json.{
  Value, null, boolean, number, float, text, arr, obj, Items, nil, cons, Fields, end, field, get,
  as_object, object?, array?,
}
use agentattest.Env.{Bytes}
use agentattest.Signing.Types.{
  TrustRoot, Result, ok, err, no_inclusion_proof, bad_inclusion_proof, root_hash_mismatch,
  RekorInclusion, Crypto,
}

abbrev first_found : Option Value → Option Value → Option Value
first_found none later = later
first_found (some v) later = some v

-- `findKey`: the first value under a key anywhere in a structure.
unfoldable mutual
  pub find_key : String → Value → Option Value
  find_key key (obj m) = elim (get key m) [ some v ↦ some v | none ↦ find_in_fields key m ]
  find_key key (arr xs) = find_in_items key xs
  find_key key null = none
  find_key key (boolean b) = none
  find_key key (number n) = none
  find_key key (float x) = none
  find_key key (text s) = none

  pub find_in_items : String → Items → Option Value
  find_in_items key nil = none
  find_in_items key (cons v xs) = first_found (find_key key v) (find_in_items key xs)

  pub find_in_fields : String → Fields → Option Value
  find_in_fields key end = none
  find_in_fields key (field k v m) = first_found (find_key key v) (find_in_fields key m)

-- `bytes.Equal`
unfoldable pub bytes_equal : Bytes → Bytes → Bool
bytes_equal [] [] = true
bytes_equal (a ∷ xs) (b ∷ ys) = leb a b && leb b a && bytes_equal xs ys
bytes_equal _ _ = false

abbrev pub codes : String → List ℕ
codes String.[] = []
codes (String.◌∷◌ ch s) = code ch ∷ codes s

-- The loop of `parseUint` over a text: up to the first character that is no digit, in a uint64.
unfoldable pub parse_digits : List ℕ → ℕ → ℕ
parse_digits [] u = u
parse_digits (ch ∷ rest) u =
    let more = parse_digits rest ((u * 10 + (ch - 48)) % 2 ^ 64) in
    if ltb ch 48 || ltb 57 ch then u else more

module _ (c : Crypto) where
  unfoldable pub parse_uint : Option Value → ℕ
  unfolding parse_digits
  parse_uint (some (float x)) = c.uint_of_float x
  parse_uint (some (number n)) = c.uint_of_number n
  parse_uint (some (text s)) = parse_digits (codes s) 0
  parse_uint (some null) = 0
  parse_uint (some (boolean b)) = 0
  parse_uint (some (arr xs)) = 0
  parse_uint (some (obj m)) = 0
  parse_uint none = 0

  first_decoded : Option Bytes → Option Bytes → Option Bytes → Bytes
  first_decoded (some b) _ _ = b
  first_decoded none (some b) _ = b
  first_decoded none none (some b) = b
  first_decoded none none none = []

  -- `decodeB64`: standard, unpadded or URL base64; no bytes where none of them reads the text.
  unfoldable pub decode_b64 : Option Value → Bytes
  unfolding first_decoded
  decode_b64 (some (text s)) =
      if s == "" then [] else first_decoded (c.base64_std s) (c.base64_raw s) (c.base64_url s)
  decode_b64 _ = []

  decode_hashes : Items → List Bytes
  decode_hashes nil = []
  decode_hashes (cons h hs) = decode_b64 (some h) ∷ decode_hashes hs

  proof_of : Option Items → List Bytes
  proof_of none = []
  proof_of (some hashes) = decode_hashes hashes

  inclusion_of : Fields → Option Fields → Option RekorInclusion
  inclusion_of entry none = none
  inclusion_of entry (some raw) = some (record {
    log_index = parse_uint (get "logIndex" raw);
    tree_size = parse_uint (get "treeSize" raw);
    root_hash = decode_b64 (get "rootHash" raw);
    proof = proof_of (array? (get "hashes" raw));
    leaf_data = decode_b64 (get "canonicalizedBody" entry);
  })

  first_entry : Option Items → Option RekorInclusion
  first_entry none = none
  first_entry (some nil) = none
  first_entry (some (cons v vs)) =
      let entry = as_object (some v) in inclusion_of entry (object? (get "inclusionProof" entry))

  -- `extractRekorInclusion`
  unfoldable pub extract_rekor_inclusion : Value → Option RekorInclusion
  unfolding first_entry inclusion_of proof_of decode_hashes decode_b64 parse_uint
  extract_rekor_inclusion root = first_entry (array? (find_key "tlogEntries" root))

  -- `VerifyInclusion`
  unfoldable pub verify_inclusion : RekorInclusion → Bool
  verify_inclusion inc =
      c.verify_inclusion inc.log_index inc.tree_size (c.hash_leaf inc.leaf_data) inc.proof
        inc.root_hash

  pinned_root : Bytes → Bytes → Result (Unit {0})
  pinned_root proven [] = ok tt
  pinned_root proven (b ∷ pinned) =
      if bytes_equal proven (b ∷ pinned) then ok tt else err root_hash_mismatch

  judge : TrustRoot → Option RekorInclusion → Result (Unit {0})
  unfolding verify_inclusion pinned_root
  judge trust none = if trust.require_inclusion then err no_inclusion_proof else ok tt
  judge trust (some inc) =
      if verify_inclusion inc
      then pinned_root inc.root_hash trust.rekor_root_hash
      else err bad_inclusion_proof

  -- `verifyRekorInclusion`
  unfoldable pub verify_rekor_inclusion : Value → TrustRoot → Result (Unit {0})
  unfolding judge
  verify_rekor_inclusion root trust = judge trust (extract_rekor_inclusion root)
