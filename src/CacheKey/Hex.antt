-- ===== src/CacheKey/Hex.antt =====
-- `to_hex` read back.
use cpp_design_patterns.Prelude.{
  ℕ, ◌+◌, ◌-◌, ◌*◌, ◌/◌, ◌%◌, ◌<◌, ◌≡◌, refl, List, [], ◌∷◌, Option, none, some, length, ltb,
  if◌then◌else◌, All, arith,
}
use cpp_design_patterns.CacheKey.{Bytes, hex_digit, to_hex}

-- The value of a hexadecimal digit, a small letter or not a letter.
abbrev pub digit_value : ℕ → ℕ
digit_value c = if ltb c 58 then c - 48 else c - 87

unfoldable pub read_hex : List ℕ → Option Bytes
read_hex [] = some []
read_hex (a ∷ []) = none
read_hex (a ∷ b ∷ rest) = elim (read_hex rest) [
  | none ↦ none
  | some bs ↦ some ((digit_value a * 16 + digit_value b) ∷ bs)
]

digit_value-hex_digit : (n : ℕ) → n < 16 → digit_value (hex_digit n) ≡ n
digit_value-hex_digit n h = ground arith

byte_halves : (b : ℕ) → b < 256 → (b / 16 % 16) * 16 + b % 16 ≡ b
byte_halves b h = omega arith

digit_value-byte :
    (b : ℕ)
    → b < 256
    → digit_value (hex_digit (b / 16 % 16)) * 16 + digit_value (hex_digit (b % 16)) ≡ b
digit_value-byte b h =
    rw
      (
        digit_value-hex_digit (b / 16 % 16) (omega arith),
        digit_value-hex_digit (b % 16) (omega arith),
      )
      (byte_halves b h)

-- For bytes below 256: their hexadecimal text has two digits for each, and read back gives the same
-- bytes.
pub read_hex-to_hex :
    (bs : Bytes)
    → All (λ b. b < 256) bs
    → (length (to_hex bs) ≡ 2 * length bs) × (read_hex (to_hex bs) ≡ some bs)
unfolding to_hex read_hex
read_hex-to_hex [] h = (refl, refl)
read_hex-to_hex (b ∷ bs) (h, hs) =
    let (size, back) = read_hex-to_hex bs hs in
    (omega (arith, size), rw (read_hex, back, digit_value-byte b h) refl)
