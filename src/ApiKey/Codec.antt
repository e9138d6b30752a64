-- ===== src/ApiKey/Codec.antt =====
-- The fields of a decoded API key in src/api_key_codec.rs.
use rl_rust_client.Common.{
  ℕ, ◌+◌, ◌-◌, ◌*◌, ◌/◌, ◌%◌, ◌^◌, List, [], ◌∷◌, length, Bool, true, false, not, ◌&&◌, ◌||◌, ltb,
  leb, ◌==◌, if◌then◌else◌, Option, none, some, Result, ok, err, bail, ok_or, ◌>>=◌, ◌>>◌,
}
use rl_rust_client.Common.Bytes.{from_le_bytes, index, slice, to_array}
use rl_rust_client.ApiKey.Bech32.{
  Text, DecodeError, invalid_hrp_prefix, unsupported_auth_method, invalid_payload_length,
  unsupported_format_version, invalid_packed_quota, bech32_decode,
}

abbrev pub format_version : ℕ
format_version = 1

pub record ApiKeyLimits : Type 0 where
  pub rate_buckets_max : ℕ
  pub latency_services_max : ℕ
  pub metrics_labels_max : ℕ
  pub latency_buffer_size_max : ℕ
  pub dedup_ttl_ms_max : ℕ
  pub rate_window_size_ms_max : ℕ

pub record DecodedApiKey : Type 0 where
  pub hrp : Text
  pub auth_method : Text
  pub format_version : ℕ
  pub key_id : ℕ
  pub auth_secret : List ℕ
  pub limits : Option ApiKeyLimits

abbrev pub same_text : Text → Text → Bool
same_text [] [] = true
same_text [] (y ∷ ys) = false
same_text (x ∷ xs) [] = false
same_text (x ∷ xs) (y ∷ ys) = x == y && same_text xs ys

abbrev pub strip_prefix : Text → Text → Option Text
strip_prefix [] xs = some xs
strip_prefix (p ∷ ps) [] = none
strip_prefix (p ∷ ps) (x ∷ xs) = let rest = strip_prefix ps xs in if x == p then rest else none

-- The names in the code: `rl-`, `secret`, `none`, `cookie` and `aes`.
abbrev pub rl_prefix : Text
rl_prefix = b'r' ∷ b'l' ∷ b'-' ∷ []

abbrev pub secret_name : Text
secret_name = b's' ∷ b'e' ∷ b'c' ∷ b'r' ∷ b'e' ∷ b't' ∷ []

abbrev pub none_name : Text
none_name = b'n' ∷ b'o' ∷ b'n' ∷ b'e' ∷ []

abbrev pub cookie_name : Text
cookie_name = b'c' ∷ b'o' ∷ b'o' ∷ b'k' ∷ b'i' ∷ b'e' ∷ []

abbrev pub aes_name : Text
aes_name = b'a' ∷ b'e' ∷ b's' ∷ []

-- The largest window of exponent `window_exp`.
abbrev pub window_max : ℕ → ℕ
window_max window_exp = if window_exp == 31 then 2 ^ 32 - 1 else 2 ^ window_exp

-- The fields of the packed word.
unfoldable pub limits_of_word : ℕ → Result DecodeError ApiKeyLimits
limits_of_word word = do
  let rate_exp = word % 2 ^ 5
  let latency_exp = word / 2 ^ 5 % 2 ^ 5
  let labels_exp = word / 2 ^ 10 % 2 ^ 5
  let buffer_exp = word / 2 ^ 15 % 2 ^ 4
  let dedup_units = word / 2 ^ 19 % 2 ^ 8
  let window_exp = word / 2 ^ 27 % 2 ^ 5
  bail (ltb 24 rate_exp || (ltb 24 latency_exp || not (leb 1 dedup_units && leb dedup_units 200)))
      invalid_packed_quota
  ok record {
    rate_buckets_max = 2 ^ rate_exp;
    latency_services_max = 2 ^ latency_exp;
    metrics_labels_max = 2 ^ labels_exp;
    latency_buffer_size_max = 2 ^ buffer_exp;
    dedup_ttl_ms_max = dedup_units * 10;
    rate_window_size_ms_max = window_max window_exp;
  }

unfoldable pub limits_from_payload : List ℕ → ℕ → Result DecodeError ApiKeyLimits
limits_from_payload payload offset = do
  part ← slice payload offset (offset + 4)
  word ← to_array 4 part
  limits_of_word (from_le_bytes word)

-- The arm of `secret`.
unfoldable pub decode_secret : Text → Text → List ℕ → Result DecodeError DecodedApiKey
decode_secret hrp auth_method payload = do
  bail (not (length payload == 32)) (invalid_payload_length auth_method 32 (length payload))
  ok record {
    hrp = hrp;
    auth_method = secret_name;
    format_version = 0;
    key_id = 0;
    auth_secret = payload;
    limits = none;
  }

-- The arm of `none`.
unfoldable pub decode_none : Text → Text → List ℕ → Result DecodeError DecodedApiKey
decode_none hrp auth_method payload = do
  bail (not (length payload == 13)) (invalid_payload_length auth_method 13 (length payload))
  version ← index payload 0
  bail (not (version == format_version)) (unsupported_format_version version)
  part ← slice payload 1 9
  key_id ← to_array 8 part
  limits ← limits_from_payload payload 9
  ok record {
    hrp = hrp;
    auth_method = none_name;
    format_version = format_version;
    key_id = from_le_bytes key_id;
    auth_secret = [];
    limits = some limits;
  }

-- The arm of `cookie` and `aes`.
unfoldable pub decode_keyed : Text → Text → List ℕ → Result DecodeError DecodedApiKey
decode_keyed hrp auth_method payload = do
  bail (not (length payload == 45)) (invalid_payload_length auth_method 45 (length payload))
  version ← index payload 0
  bail (not (version == format_version)) (unsupported_format_version version)
  part ← slice payload 1 9
  key_id ← to_array 8 part
  auth_secret ← slice payload 9 41
  limits ← limits_from_payload payload 41
  ok record {
    hrp = hrp;
    auth_method = auth_method;
    format_version = format_version;
    key_id = from_le_bytes key_id;
    auth_secret = auth_secret;
    limits = some limits;
  }

-- The `match` on the authentication method.
unfoldable pub decode_fields : Text → Text → List ℕ → Result DecodeError DecodedApiKey
decode_fields hrp auth_method payload =
    if same_text auth_method secret_name
    then decode_secret hrp auth_method payload
    else if same_text auth_method none_name
    then decode_none hrp auth_method payload
    else if same_text auth_method cookie_name || same_text auth_method aes_name
    then decode_keyed hrp auth_method payload
    else err (unsupported_auth_method auth_method)

unfoldable pub decode_api_key : Text → Result DecodeError DecodedApiKey
decode_api_key encoded = do
  (hrp, payload) ← bech32_decode encoded
  auth_method ← ok_or (strip_prefix rl_prefix hrp) invalid_hrp_prefix
  decode_fields hrp auth_method payload
