-- ===== src/Capture/Hex.antt =====
-- internal/capture/capture.go: the regular expression `^[a-f0-9]{64}$`.
pub mod Laws
use Prim.Native.Char.{Char, code}
use Prim.Native.String.{String, [], ◌∷◌}
use agentattest.Prelude.{ℕ, zero, suc, Bool, true, false, ◌&&◌, ◌||◌, leb}

unfoldable pub is_hex_digit : Char → Bool
is_hex_digit c = (leb 97 (code c) && leb (code c) 102) || (leb 48 (code c) && leb (code c) 57)

-- The given number of digits, and nothing after them.
unfoldable pub hex_digits : ℕ → String → Bool
unfolding is_hex_digit
hex_digits zero [] = true
hex_digits zero (c ∷ s) = false
hex_digits (suc n) [] = false
hex_digits (suc n) (c ∷ s) = is_hex_digit c && hex_digits n s

unfoldable pub is_hex_sha256 : String → Bool
unfolding hex_digits
is_hex_sha256 s = hex_digits 64 s
