-- ===== src/Signing/Rekor/Number.antt =====
-- `parseUint` on the decimal text of a number.
use agentattest.Prelude.{
  ℕ, ◌+◌, ◌*◌, ◌%◌, ◌^◌, ◌≤◌, ◌<◌, ◌≡◌, ◌∙◌, true, List, [], ◌∷◌, ◌++◌, map, arith, All, ◌||◌, ltb,
  false, ◌-◌,
}
use agentattest.Signing.Rekor.{parse_digits}

-- The number that a list of decimal digits stands for, from an earlier value.
unfoldable pub value_from : ℕ → List ℕ → ℕ
value_from u [] = u
value_from u (d ∷ ds) = value_from (u * 10 + d) ds

-- What stands behind the digits: nothing, or a character that is no digit.
abbrev pub Stops : List ℕ → Type 0
Stops [] = Unit
Stops (ch ∷ rest) = (ltb ch 48 || ltb 57 ch) ≡ true

value_from-mod :
    (u v : ℕ) (ds : List ℕ)
    → u % 2 ^ 64 ≡ v % 2 ^ 64
    → value_from u ds % 2 ^ 64 ≡ value_from v ds % 2 ^ 64
unfolding value_from
value_from-mod u v [] h = h
value_from-mod u v (d ∷ ds) h = value_from-mod (u * 10 + d) (v * 10 + d) ds (omega arith)

parse_digits_from :
    (ds rest : List ℕ) (u : ℕ)
    → u < 2 ^ 64
    → All (λ d. d ≤ 9) ds
    → Stops rest
    → parse_digits (map (λ d. d + 48) ds ++ rest) u ≡ value_from u ds % 2 ^ 64
unfolding parse_digits value_from
parse_digits_from [] [] u h all stop = omega arith
parse_digits_from [] (ch ∷ rest) u h all stop = rw stop (omega arith)
parse_digits_from (d ∷ ds) rest u h all stop =
    let digit : (ltb (d + 48) 48 || ltb 57 (d + 48)) ≡ false = ground (arith, all.0) in
    let same : d + 48 - 48 ≡ d = omega arith in
    rw (digit, same)
      (parse_digits_from ds rest ((u * 10 + d) % 2 ^ 64) (omega arith) all.1 stop
        ∙ value_from-mod ((u * 10 + d) % 2 ^ 64) (u * 10 + d) ds (omega arith))

-- Decimal digits, followed by nothing or by a character that is no digit, are read as their number
-- modulo 2 ^ 64.
pub parse_digits_lem :
    (ds rest : List ℕ)
    → All (λ d. d ≤ 9) ds
    → Stops rest
    → parse_digits (map (λ d. d + 48) ds ++ rest) 0 ≡ value_from 0 ds % 2 ^ 64
parse_digits_lem ds rest all stop = parse_digits_from ds rest 0 (omega arith) all stop
