-- ===== src/ApiKey/Bech32.antt =====
-- The bech32 encoding in src/api_key_codec.rs. A text is the list of its code points, which are its
-- bytes where the code has tested that it is ASCII.
pub mod Bits
pub mod Loop
pub mod Chars
pub mod Checksum
pub mod Digits
pub mod RoundTrip
pub mod Safe
use rl_rust_client.Common.{
  ℕ, zero, suc, ◌+◌, ◌-◌, ◌*◌, ◌/◌, ◌%◌, ◌^◌, List, [], ◌∷◌, ◌++◌, map, length, take, drop,
  get_elem?, all, Bool, true, false, not, ◌&&◌, ◌||◌, ltb, leb, ◌==◌, if◌then◌else◌, Option, none,
  some, Result, ok, err, panic, bail, ok_or, ◌>>=◌, ◌>>◌,
}
use rl_rust_client.Common.Bytes.{slice}
use Prim.Native.Nat.{bit_xor}

abbrev pub Text : Type 0
Text = List ℕ

pub data DecodeError : Type 0 where
  empty_input non_printable mixed_case missing_separator empty_hrp checksum_too_short : DecodeError
  invalid_charset : ℕ → DecodeError
  checksum_failed invalid_padding invalid_hrp_prefix : DecodeError
  unsupported_auth_method : Text → DecodeError
  invalid_payload_length : Text → ℕ → ℕ → DecodeError
  unsupported_format_version : ℕ → DecodeError
  invalid_packed_quota : DecodeError

-- The characters by their values: `qpzry9x8gf2tvdw0s3jn54khce6mua7l`.
abbrev pub charset : Text
charset =
    b'q' ∷ b'p' ∷ b'z' ∷ b'r' ∷ b'y' ∷ b'9' ∷ b'x' ∷ b'8' ∷ b'g' ∷ b'f' ∷ b'2' ∷ b't' ∷ b'v' ∷ b'd'
    ∷ b'w' ∷ b'0' ∷ b's' ∷ b'3' ∷ b'j' ∷ b'n' ∷ b'5' ∷ b'4' ∷ b'k' ∷ b'h' ∷ b'c' ∷ b'e' ∷ b'6'
    ∷ b'm' ∷ b'u' ∷ b'a' ∷ b'7' ∷ b'l' ∷ []

-- The value of `c`, where `v` is the value of the first character that is left.
abbrev pub value_from : ℕ → Text → ℕ → Option ℕ
value_from v [] c = none
value_from v (x ∷ xs) c = let rest = value_from (v + 1) xs c in if x == c then some v else rest

unfoldable pub char_to_value : ℕ → Option ℕ
char_to_value = value_from 0 charset

unfoldable pub value_to_char : ℕ → Option ℕ
value_to_char v = get_elem? charset v

unfoldable pub hrp_expand : Text → List ℕ
hrp_expand hrp = map (λ b. b / 32) hrp ++ (0 ∷ map (λ b. b % 32) hrp)

abbrev pub generators : List ℕ
generators = 0x3B6A57B2 ∷ 0x26508E6D ∷ 0x1EA119FA ∷ 0x3D4233DD ∷ 0x2A1462B3 ∷ []

-- The loop over the generators from the `i`-th on.
unfoldable pub add_generators : ℕ → ℕ → List ℕ → ℕ → ℕ
add_generators b i [] chk = chk
add_generators b i (g ∷ gs) chk =
    add_generators b (i + 1) gs (if b / 2 ^ i % 2 == 0 then chk else bit_xor chk g)

unfoldable pub polymod_step : ℕ → ℕ → ℕ
polymod_step chk v = add_generators (chk / 2 ^ 25) 0 generators (bit_xor (chk % 2 ^ 25 * 2 ^ 5) v)

unfoldable pub polymod_from : ℕ → List ℕ → ℕ
polymod_from chk [] = chk
polymod_from chk (v ∷ values) = polymod_from (polymod_step chk v) values

unfoldable pub polymod : List ℕ → ℕ
polymod values = polymod_from 1 values

unfoldable pub verify_checksum : Text → List ℕ → Bool
verify_checksum hrp values = polymod (hrp_expand hrp ++ values) == 1

abbrev pub checksum_digits : ℕ → List ℕ
checksum_digits pm =
    (pm / 2 ^ 25 % 32)
    ∷ (pm / 2 ^ 20 % 32)
    ∷ (pm / 2 ^ 15 % 32)
    ∷ (pm / 2 ^ 10 % 32)
    ∷ (pm / 2 ^ 5 % 32)
    ∷ (pm / 2 ^ 0 % 32)
    ∷ []

unfoldable pub create_checksum : Text → List ℕ → List ℕ
create_checksum hrp values =
    checksum_digits
      (bit_xor (polymod (hrp_expand hrp ++ (values ++ (0 ∷ 0 ∷ 0 ∷ 0 ∷ 0 ∷ 0 ∷ [])))) 1)

-- The inner loop of `convert_bits`: what is pushed, and the bits left. The fuel is the number of bits.
abbrev pub drain : ℕ → ℕ → ℕ → ℕ → List ℕ × ℕ
drain zero to_bits acc bits = ([], bits)
drain (suc fuel) to_bits acc bits =
    let rest = drain fuel to_bits acc (bits - to_bits) in
    if leb to_bits bits
    then (acc / 2 ^ (bits - to_bits) % 2 ^ to_bits ∷ rest.0, rest.1)
    else ([], bits)

-- `((acc << from_bits) | value) & max_acc`, where `value` has no more than `from_bits` bits.
abbrev pub shift_in : ℕ → ℕ → ℕ → ℕ → ℕ
shift_in from_bits to_bits acc value = (acc * 2 ^ from_bits + value) % 2 ^ (from_bits + to_bits - 1)

-- The loop over the values. It answers what is pushed, `acc` and `bits`.
abbrev pub convert_from : ℕ → ℕ → ℕ → ℕ → List ℕ → Result DecodeError (List ℕ × ℕ × ℕ)
convert_from from_bits to_bits acc bits [] = ok ([], acc, bits)
convert_from from_bits to_bits acc bits (value ∷ values) = do
  bail (not (value / 2 ^ from_bits == 0)) invalid_padding
  let acc' = shift_in from_bits to_bits acc value
  let drained = drain (bits + from_bits) to_bits acc' (bits + from_bits)
  (out, acc'', bits'') ← convert_from from_bits to_bits acc' drained.1 values
  ok (drained.0 ++ out, acc'', bits'')

-- What follows the loop.
abbrev pub finish_bits : ℕ → ℕ → Bool → List ℕ → ℕ → ℕ → Result DecodeError (List ℕ)
finish_bits from_bits to_bits true out acc bits =
    ok (if ltb 0 bits then out ++ (acc * 2 ^ (to_bits - bits) % 2 ^ to_bits ∷ []) else out)
finish_bits from_bits to_bits false out acc bits = do
  bail (leb from_bits bits) invalid_padding
  bail (not (acc * 2 ^ (to_bits - bits) % 2 ^ to_bits == 0)) invalid_padding
  ok out

unfoldable pub convert_bits : List ℕ → ℕ → ℕ → Bool → Result DecodeError (List ℕ)
convert_bits values from_bits to_bits pad = do
  (out, acc, bits) ← convert_from from_bits to_bits 0 0 values
  finish_bits from_bits to_bits pad out acc bits

abbrev pub is_printable : ℕ → Bool
is_printable c = leb 33 c && leb c 126

abbrev pub is_ascii_lowercase : ℕ → Bool
is_ascii_lowercase c = leb b'a' c && leb c b'z'

abbrev pub is_ascii_uppercase : ℕ → Bool
is_ascii_uppercase c = leb b'A' c && leb c b'Z'

abbrev pub to_ascii_lowercase : ℕ → ℕ
to_ascii_lowercase c = if is_ascii_uppercase c then c + 32 else c

abbrev pub any : (ℕ → Bool) → Text → Bool
any p [] = false
any p (c ∷ cs) = p c || any p cs

-- `s.rfind('1')`
abbrev pub rfind : ℕ → Text → Option ℕ
rfind c [] = none
rfind c (x ∷ xs) = elim (rfind c xs) [
  | some i ↦ some (suc i)
  | none ↦ if x == c then some 0 else none
]

-- The loop that collects the values of the characters.
abbrev pub values_of : Text → Result DecodeError (List ℕ)
values_of [] = ok []
values_of (c ∷ cs) = do
  v ← ok_or (char_to_value c) (invalid_charset c)
  vs ← values_of cs
  ok (v ∷ vs)

unfoldable pub bech32_decode : Text → Result DecodeError (Text × List ℕ)
bech32_decode addr = do
  bail (length addr == 0) empty_input
  bail (not (all is_printable addr)) non_printable
  bail (any is_ascii_lowercase addr && any is_ascii_uppercase addr) mixed_case
  let s = map to_ascii_lowercase addr
  pos ← ok_or (rfind b'1' s) missing_separator
  bail (ltb pos 1) empty_hrp
  bail (ltb (length s - pos - 1) 6) checksum_too_short
  hrp ← slice s 0 pos
  rest ← slice s (pos + 1) (length s)
  values ← values_of rest
  bail (not (verify_checksum hrp values)) checksum_failed
  payload5 ← slice values 0 (length values - 6)
  payload ← convert_bits payload5 5 8 false
  ok (hrp, payload)

-- `value_to_char(v).expect(…)`
abbrev pub expect_char : Option ℕ → Result DecodeError ℕ
expect_char none = panic
expect_char (some c) = ok c

abbrev pub chars_of : List ℕ → Result DecodeError Text
chars_of [] = ok []
chars_of (v ∷ vs) = do c ← expect_char (value_to_char v); cs ← chars_of vs; ok (c ∷ cs)

unfoldable pub bech32_encode : Text → List ℕ → Result DecodeError Text
bech32_encode hrp payload = do
  bail (length hrp == 0) empty_hrp
  bail (not (all is_printable hrp)) non_printable
  let lower = map to_ascii_lowercase hrp
  values ← convert_bits payload 8 5 true
  tail ← chars_of (values ++ create_checksum lower values)
  ok (lower ++ (b'1' ∷ tail))
