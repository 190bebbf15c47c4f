-- ===== src/Uri/Hex.antt =====
-- Reading back what HexEncode writes.
use daichod.Base.{
  ℕ, ◌+◌, ◌-◌, ◌*◌, ◌/◌, ◌%◌, ◌<◌, ◌≡◌, refl, ap₂, [], ◌∷◌, length, ltb, All, if◌then◌else◌, arith,
}
use daichod.Base.Text.{Bytes}
use daichod.Uri.{hex_encode, hex_digit}

-- The value of a lowercase hexadecimal digit.
abbrev pub digit_value : ℕ → ℕ
digit_value c = if ltb c b'a' then c - b'0' else c - b'a' + 10

-- Reads pairs of digits.
pub hex_decode : Bytes → Bytes
hex_decode [] = []
hex_decode (c ∷ []) = []
hex_decode (c ∷ d ∷ s) = (digit_value c * 16 + digit_value d) ∷ hex_decode s

digit_value-hex_digit : (n : ℕ) → n < 16 → digit_value (hex_digit n) ≡ n
digit_value-hex_digit n h = ground arith

-- Bytes survive encoding and decoding, and the text is twice as long.
pub hex_decode-hex_encode :
    (s : Bytes)
    → All (λ b. b < 256) s
    → (hex_decode (hex_encode s) ≡ s) × (length (hex_encode s) ≡ 2 * length s)
unfolding hex_decode hex_encode
hex_decode-hex_encode [] h = (refl, refl)
hex_decode-hex_encode (b ∷ s) h =
    let (same, long) = hex_decode-hex_encode s h.1 in
    (
      ap₂ (λ (x : ℕ) (y : Bytes). x ∷ y)
          (omega (
            arith,
            digit_value-hex_digit (b / 16) (omega (arith, h.0)),
            digit_value-hex_digit (b % 16) (omega arith),
          ))
          same,
      omega (arith, long),
    )
