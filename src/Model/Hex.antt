-- ===== src/Model/Hex.antt =====
-- `write_hex` of src/model.rs, by which the ids are displayed.
use rl_rust_client.Common.{
  ℕ, ◌+◌, ◌-◌, ◌*◌, ◌/◌, ◌%◌, ◌<◌, ◌≡◌, refl, ap, arith, ltb, if◌then◌else◌, List, [], ◌∷◌, All,
}

-- `{:x}` of a digit
abbrev pub hex_digit : ℕ → ℕ
hex_digit d = if ltb d 10 then b'0' + d else b'a' + (d - 10)

-- `write_hex`: two digits for each byte.
unfoldable pub write_hex : List ℕ → List ℕ
write_hex [] = []
write_hex (byte ∷ bytes) = hex_digit (byte / 16) ∷ (hex_digit (byte % 16) ∷ write_hex bytes)

-- The bytes of a text of digits.
abbrev pub digit_value : ℕ → ℕ
digit_value c = if ltb c b'a' then c - b'0' else c - b'a' + 10

abbrev pub read_hex : List ℕ → List ℕ
read_hex (high ∷ (low ∷ cs)) = (digit_value high * 16 + digit_value low) ∷ read_hex cs
read_hex _ = []

digit_value-hex_digit : (d : ℕ) → d < 16 → digit_value (hex_digit d) ≡ d
digit_value-hex_digit d h = ground arith

-- The display of bytes is read back as these bytes.
pub read_hex-write_hex :
    (bytes : List ℕ) → All (λ b. b < 256) bytes → read_hex (write_hex bytes) ≡ bytes
unfolding write_hex
read_hex-write_hex [] h = refl
read_hex-write_hex (byte ∷ bytes) (small, h) =
    rw
      (
        digit_value-hex_digit (byte / 16) (omega arith),
        digit_value-hex_digit (byte % 16) (omega arith),
        read_hex-write_hex bytes h,
      )
      (ap (λ b. b ∷ bytes) (omega arith))
