-- ===== src/Tests/ApiKey.antt =====
-- API keys: texts, payloads and what is read from them.
use rl_rust_client.Common.{◌≡◌, refl, arith, [], ◌∷◌, ◌++◌, ok, Ensures}
use rl_rust_client.Client.Auth.{AuthMethod}
use rl_rust_client.ApiKey.Bech32.{
  Text, char_to_value, drain, hrp_expand, add_generators, polymod_step, polymod_from, polymod,
  verify_checksum, convert_bits, bech32_decode, bech32_encode,
}
use rl_rust_client.ApiKey.Bech32.Loop.{IsDrained, drain-IsDrained}
use rl_rust_client.ApiKey.Bech32.RoundTrip.{bech32_decode-bech32_encode}
use rl_rust_client.ApiKey.Codec.{rl_prefix}
use rl_rust_client.ApiKey.Key.{from_str}
use rl_rust_client.ApiKey.Key.Valid.{IsApiKey, from_str-IsApiKey}
use rl_rust_client.ApiKey.Key.RoundTrip.{
  Quota, limits_of, method_name, key_payload, from_str-bech32_encode,
}
use rl_rust_client.Common.Bytes.{slice}

-- A text of the documentation of bech32: the name is `a` and the payload is empty.
abbrev empty_payload : Text
empty_payload = b'A' ∷ b'1' ∷ b'2' ∷ b'U' ∷ b'E' ∷ b'L' ∷ b'5' ∷ b'L' ∷ []

decode_empty : bech32_decode empty_payload ≡ ok (b'a' ∷ [], [])
unfolding bech32_decode char_to_value hrp_expand add_generators polymod_step polymod_from polymod
    verify_checksum convert_bits slice
decode_empty = refl

from_str-IsApiKey_example : Ensures IsApiKey (from_str empty_payload)
from_str-IsApiKey_example = from_str-IsApiKey empty_payload

bech32_decode-bech32_encode_example :
    (encoded : Text) × (bech32_encode (b'R' ∷ b'l' ∷ []) (255 ∷ 0 ∷ 7 ∷ []) ≡ ok encoded)
    × (bech32_decode encoded ≡ ok (b'r' ∷ b'l' ∷ [], 255 ∷ 0 ∷ 7 ∷ []))
bech32_decode-bech32_encode_example =
    bech32_decode-bech32_encode (b'R' ∷ b'l' ∷ []) (255 ∷ 0 ∷ 7 ∷ []) (omega arith) refl
      (omega arith, (omega arith, (omega arith, tt)))

abbrev pub test_quota : Quota
test_quota = record {
  rate_exp = 10;
  latency_exp = 3;
  labels_exp = 5;
  buffer_exp = 15;
  dedup_units = 200;
  window_exp = 31;
}

from_str-bech32_encode_example :
    (encoded : Text) × (bech32_encode
        (rl_prefix ++ method_name AuthMethod.none)
        (key_payload AuthMethod.none 99 test_quota)
      ≡ ok encoded)
    × (from_str encoded
        ≡ ok record { key_id = 99; auth_method = AuthMethod.none; limits = limits_of test_quota })
from_str-bech32_encode_example =
    from_str-bech32_encode AuthMethod.none 99 test_quota tt tt (omega arith) (record {
      rate_fits = omega arith;
      latency_fits = omega arith;
      labels_fit = omega arith;
      buffer_fits = omega arith;
      some_dedup = omega arith;
      dedup_fits = omega arith;
      window_fits = omega arith;
    })

drain-IsDrained_example : let (out, left) = drain 13 5 6844 13 in IsDrained 5 6844 13 out left
drain-IsDrained_example = drain-IsDrained 13 5 6844 13 (omega arith) (omega arith)
