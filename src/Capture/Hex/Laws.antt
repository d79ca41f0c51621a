-- ===== src/Capture/Hex/Laws.antt =====
-- The texts that `^[a-f0-9]{64}$` matches.
use Prim.Native.Char.{code}
use Prim.Native.String.{String, [], ◌∷◌}
use agentattest.Prelude.{
  ℕ, zero, suc, ◌≤◌, ◌≡◌, ◌↔◌, ◌⊎◌, refl, true, false, arith, All, length, ◌==◌, inl, inr,
  Bool-cases, eq_iff, ap,
}
use agentattest.Signing.Rekor.{codes}
use agentattest.Capture.Hex.{is_hex_digit, hex_digits, is_hex_sha256}

-- The code of one of the characters a to f and 0 to 9.
abbrev pub IsHexCode : ℕ → Type 0
IsHexCode n = ((97 ≤ n) × (n ≤ 102)) ⊎ ((48 ≤ n) × (n ≤ 57))

abbrev pub IsHexSha256 : String → Type 0
IsHexSha256 s = (length (codes s) ≡ 64) × All IsHexCode (codes s)

is_hex_digit_iff : (c : _) → (is_hex_digit c ≡ true) ↔ IsHexCode (code c)
unfolding is_hex_digit
is_hex_digit_iff c = ground arith

hex_digits_iff :
    (n : ℕ) (s : String)
    → (hex_digits n s ≡ true) ↔ ((length (codes s) ≡ n) × All IsHexCode (codes s))
unfolding hex_digits
hex_digits_iff zero [] = (λ h. (refl, tt), λ h. refl)
hex_digits_iff zero (c ∷ s) = (λ h. cc h, λ h. absurd (omega (arith, h.0)))
hex_digits_iff (suc n) [] = (λ h. cc h, λ h. absurd (omega (arith, h.0)))
hex_digits_iff (suc n) (c ∷ s) =
    let one = is_hex_digit_iff c in
    let rest = hex_digits_iff n s in
    (
      λ h.
          let (size, all) = rest.0 (ground (arith, h)) in
          (omega (arith, size), (one.0 (ground (arith, h)), all)),
      λ h.
          let first = one.1 h.1.0 in
          let later = rest.1 (omega (arith, h.0), h.1.1) in ground (arith, first, later),
    )

pub is_hex_sha256_iff : (s : String) → (is_hex_sha256 s ≡ true) ↔ IsHexSha256 s
unfolding is_hex_sha256
is_hex_sha256_iff s = hex_digits_iff 64 s

empty-eq : is_hex_sha256 [] ≡ false
unfolding is_hex_sha256 hex_digits
empty-eq = refl

pub is_hex_sha256-ne : (s : String) → is_hex_sha256 s ≡ true → (s == []) ≡ false
is_hex_sha256-ne s h = elim (Bool-cases (s == [])) [
  | inl p ↦ cc (ap is_hex_sha256 ((eq_iff s []).0 p), empty-eq, h)
  | inr p ↦ p
]
