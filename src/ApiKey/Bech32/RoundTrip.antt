-- ===== src/ApiKey/Bech32/RoundTrip.antt =====
-- `bech32_encode` and then `bech32_decode` of src/api_key_codec.rs.
use rl_rust_client.Common.{
  ℕ, suc, ◌+◌, ◌-◌, ◌<◌, ◌≡◌, refl, subst, arith, List, [], ◌∷◌, ◌++◌, map, length, length-append,
  length-map, All, all, true, false, ◌==◌, le→ltb-false, Result, ok, Ensures-at,
}
use rl_rust_client.Common.Bytes.{IsByte, slice, slice-append}
use rl_rust_client.ApiKey.Bech32.{
  Text, DecodeError, convert_bits, is_printable, is_ascii_lowercase, is_ascii_uppercase,
  to_ascii_lowercase, any, values_of, create_checksum, verify_checksum, bech32_decode,
  bech32_encode,
}
use rl_rust_client.ApiKey.Bech32.Bits.{convert_bits_twice}
use rl_rust_client.ApiKey.Bech32.Checksum.{verify_checksum-create_checksum}
use mathlib.Core.List.{append-nil, append_assoc}
use rl_rust_client.ApiKey.Bech32.Chars.{
  and_false, IsDataChar, chars_of_lem, IsPlain, lower-IsPlain, data-IsPlain, All-append, plain_text,
  rfind-none, rfind-append,
}
use rl_rust_client.ApiKey.Bech32.Digits.{
  convert_bits-AreBelow, create_checksum-AreBelow, length-create_checksum,
}

-- The decoder on a text with a separator, whose data part stands for values with their checksum.
decode_parts :
    (hrp cs : Text) (groups sum payload : List ℕ)
    → All IsPlain hrp
    → All IsDataChar cs
    → 0 < length hrp
    → length cs ≡ length groups + 6
    → length sum ≡ 6
    → values_of cs ≡ ok (groups ++ sum)
    → verify_checksum hrp (groups ++ sum) ≡ true
    → convert_bits groups 5 8 false ≡ ok payload
    → bech32_decode (hrp ++ (b'1' ∷ cs)) ≡ ok (hrp, payload)
unfolding bech32_decode
decode_parts hrp cs groups sum payload plain good some_hrp len six values sum_ok bits = rw (
  nonempty,
  printable,
  no_upper,
  and_false (any is_ascii_lowercase whole),
  lower,
  rfind-append hrp cs (rfind-none cs good),
  le→ltb-false (length hrp) 1 some_hrp,
  le→ltb-false (length whole - length hrp - 1) 6 (omega (arith, size)),
  front,
  back,
  values,
  sum_ok,
  digits,
  bits,
)
  where
    whole : Text
    whole = hrp ++ (b'1' ∷ cs)

    size : length whole ≡ length hrp + suc (length cs)
    size = length-append hrp (b'1' ∷ cs)

    nonempty : (length whole == 0) ≡ false
    nonempty = ground (arith, size)

    facts :
        (all is_printable whole ≡ true)
        × (any is_ascii_uppercase whole ≡ false)
        × (map to_ascii_lowercase whole ≡ whole)
    facts =
        plain_text whole
          (All-append IsPlain hrp (b'1' ∷ cs) plain ((refl, refl), data-IsPlain cs good))

    printable : all is_printable whole ≡ true
    printable = facts.0

    no_upper : any is_ascii_uppercase whole ≡ false
    no_upper = facts.1

    lower : map to_ascii_lowercase whole ≡ whole
    lower = facts.2

    front : ◌≡◌ {A = Result DecodeError Text} (slice whole 0 (length hrp)) (ok hrp)
    front = slice-append [] hrp (b'1' ∷ cs) 0 (length hrp) refl (omega arith)

    around : (hrp ++ (b'1' ∷ [])) ++ (cs ++ []) ≡ whole
    around = rw (append-nil cs, append_assoc) refl

    back : ◌≡◌ {A = Result DecodeError Text} (slice whole (length hrp + 1) (length whole)) (ok cs)
    back =
        subst
          (λ w. ◌≡◌ {A = Result DecodeError Text} (slice w (length hrp + 1) (length whole)) (ok cs))
          around
          (slice-append (hrp ++ (b'1' ∷ [])) cs [] (length hrp + 1) (length whole)
            (omega (arith, length-append hrp (b'1' ∷ []))) (omega (arith, size)))

    digits :
        ◌≡◌ {A = Result DecodeError (List ℕ)}
          (slice (groups ++ sum) 0 (length (groups ++ sum) - 6))
          (ok groups)
    digits =
        slice-append [] groups sum 0 (length (groups ++ sum) - 6) refl
          (omega (arith, length-append groups sum))

-- For a printable name of one character or more and a payload of bytes, `bech32_encode` answers a
-- text, and `bech32_decode` of that text answers the name in lower case and the payload.
pub bech32_decode-bech32_encode :
    (hrp payload : List ℕ)
    → 0 < length hrp
    → all is_printable hrp ≡ true
    → All IsByte payload
    → (encoded : Text) × (bech32_encode hrp payload ≡ ok encoded)
      × (bech32_decode encoded ≡ ok (map to_ascii_lowercase hrp, payload))
unfolding bech32_encode
bech32_decode-bech32_encode hrp payload some_hrp printable bytes =
    let lower = map to_ascii_lowercase hrp in
    let (groups, made, back) = convert_bits_twice payload bytes in
    let sum = create_checksum lower groups in
    let six = length-create_checksum lower groups in
    let small =
      Ensures-at (convert_bits payload 8 5 true) (convert_bits-AreBelow payload 8 5 true) made in
    let (cs, text, values, len, good) =
      chars_of_lem (groups ++ sum)
        (All-append (λ v. v < 32) groups sum small (create_checksum-AreBelow lower groups)) in
    let nonempty : (length hrp == 0) ≡ false = ground arith in
    (
      lower ++ (b'1' ∷ cs),
      rw (nonempty, printable, made, text) refl,
      decode_parts lower cs groups sum payload (lower-IsPlain hrp printable) good
          (omega (arith, length-map to_ascii_lowercase hrp))
          (omega (arith, length-append groups sum)) six values
          (verify_checksum-create_checksum lower groups) back,
    )
