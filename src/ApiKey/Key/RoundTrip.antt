-- ===== src/ApiKey/Key/RoundTrip.antt =====
-- The encoded text of a key, and `ApiKey::from_str` of src/api_key.rs on it.
use rl_rust_client.Common.{
  ℕ, ◌+◌, ◌*◌, ◌/◌, ◌%◌, ◌^◌, ◌≤◌, ◌<◌, ◌≡◌, refl, subst, arith, List, [], ◌∷◌, ◌++◌, length,
  length-append, map, all, All, true, Bool-cases, inl, inr, ltb, ◌==◌, if◌then◌else◌, ==_iff,
  le→leb, le→ltb-false, some, ok,
}
use rl_rust_client.Common.Bytes.{
  IsByte, IsUint, index, to_le_bytes, to_le_bytes-IsByte, from_le_bytes-to_le_bytes, slice,
  slice-append, to_array_lem,
}
use rl_rust_client.Client.Auth.{AuthMethod, cookie, aes_gcm}
use rl_rust_client.Client.Auth.RoundTrip.{IsAuthMethod}
use rl_rust_client.ApiKey.Bech32.{
  Text, DecodeError, is_printable, to_ascii_lowercase, bech32_encode,
}
use rl_rust_client.ApiKey.Bech32.RoundTrip.{bech32_decode-bech32_encode}
use rl_rust_client.ApiKey.Bech32.Chars.{All-append}
use rl_rust_client.ApiKey.Codec.{
  ApiKeyLimits, DecodedApiKey, format_version, rl_prefix, none_name, cookie_name, aes_name,
  window_max, limits_of_word, limits_from_payload, decode_none, decode_keyed, decode_fields,
  decode_api_key,
}
use rl_rust_client.ApiKey.Key.{auth_method_of, from_str}
use mathlib.Core.List.{append-nil}

-- The fields of the packed word, and their ranges.
pub record Quota : Type 0 where
  pub rate_exp : ℕ
  pub latency_exp : ℕ
  pub labels_exp : ℕ
  pub buffer_exp : ℕ
  pub dedup_units : ℕ
  pub window_exp : ℕ

pub record IsQuota (q : Quota) : Type 0 where
  pub rate_fits : q.rate_exp ≤ 24
  pub latency_fits : q.latency_exp ≤ 24
  pub labels_fit : q.labels_exp < 32
  pub buffer_fits : q.buffer_exp < 16
  pub some_dedup : 1 ≤ q.dedup_units
  pub dedup_fits : q.dedup_units ≤ 200
  pub window_fits : q.window_exp < 32

abbrev pub quota_word : Quota → ℕ
quota_word q =
    q.rate_exp
    + (32 * q.latency_exp
        + (1024 * q.labels_exp
            + (32768 * q.buffer_exp + (524288 * q.dedup_units + 134217728 * q.window_exp))))

-- The window of an exponent: a power of two, but for the last one, which stands for no bound.
abbrev pub longest_window : ℕ → ℕ
longest_window window_exp = if ltb window_exp 31 then 2 ^ window_exp else 4_294_967_295

abbrev pub limits_of : Quota → ApiKeyLimits
limits_of q = record {
  rate_buckets_max = 2 ^ q.rate_exp;
  latency_services_max = 2 ^ q.latency_exp;
  metrics_labels_max = 2 ^ q.labels_exp;
  latency_buffer_size_max = 2 ^ q.buffer_exp;
  dedup_ttl_ms_max = q.dedup_units * 10;
  rate_window_size_ms_max = longest_window q.window_exp;
}

abbrev pub method_name : AuthMethod → Text
method_name AuthMethod.none = none_name
method_name (cookie secret) = cookie_name
method_name (aes_gcm secret) = aes_name

abbrev pub secret_of : AuthMethod → List ℕ
secret_of AuthMethod.none = []
secret_of (cookie secret) = secret
secret_of (aes_gcm secret) = secret

abbrev pub key_payload : AuthMethod → ℕ → Quota → List ℕ
key_payload method key_id q =
    format_version ∷ (to_le_bytes 8 key_id ++ (secret_of method ++ to_le_bytes 4 (quota_word q)))

word_fits : (q : Quota) → IsQuota q → IsUint 4 (quota_word q)
word_fits q v =
    omega
      (arith, v.rate_fits, v.latency_fits, v.labels_fit, v.buffer_fits, v.dedup_fits, v.window_fits)

window_max-longest : (e : ℕ) → e < 32 → window_max e ≡ longest_window e
window_max-longest e h = elim (Bool-cases (e == 31)) [
  | inl last ↦ rw ((==_iff e 31).0 last) refl
  | inr other ↦ let smaller : ltb e 31 ≡ true = ground arith in rw (other, smaller) refl
]

limits_of_word_lem : (q : Quota) → IsQuota q → limits_of_word (quota_word q) ≡ ok (limits_of q)
unfolding limits_of_word
limits_of_word_lem q v =
    let f1 = v.rate_fits in
    let f2 = v.latency_fits in
    let f3 = v.labels_fit in
    let f4 = v.buffer_fits in
    let f5 = v.some_dedup in
    let f6 = v.dedup_fits in
    let f7 = v.window_fits in
    let rate : quota_word q % 32 ≡ q.rate_exp = omega arith in
    let latency : quota_word q / 32 % 32 ≡ q.latency_exp = omega arith in
    let labels : quota_word q / 1024 % 32 ≡ q.labels_exp = omega arith in
    let buffer : quota_word q / 32768 % 16 ≡ q.buffer_exp = omega arith in
    let units : quota_word q / 524288 % 256 ≡ q.dedup_units = omega arith in
    let window : quota_word q / 134217728 % 32 ≡ q.window_exp = omega arith in
    rw
      (
        rate,
        latency,
        labels,
        buffer,
        units,
        window,
        le→ltb-false 24 q.rate_exp f1,
        le→ltb-false 24 q.latency_exp f2,
        le→leb 1 q.dedup_units f5,
        le→leb q.dedup_units 200 f6,
        window_max-longest q.window_exp f7,
      )
      refl

-- The word that follows `pre`.
limits_from_payload_lem :
    (pre : List ℕ) (n : ℕ) (q : Quota)
    → length pre ≡ n
    → IsQuota q
    → limits_from_payload (pre ++ to_le_bytes 4 (quota_word q)) n ≡ ok (limits_of q)
unfolding limits_from_payload
limits_from_payload_lem pre n q size v =
    let w = to_le_bytes 4 (quota_word q) in
    let part : slice {E = DecodeError} (pre ++ w) n (n + 4) ≡ ok w =
      subst (λ tail. slice {E = DecodeError} (pre ++ tail) n (n + 4) ≡ ok w) (append-nil w)
        (slice-append pre w [] n (n + 4) size refl) in
    rw
      (
        part,
        to_array_lem {E = DecodeError} 4 w refl,
        from_le_bytes-to_le_bytes 4 (quota_word q) (word_fits q v),
        limits_of_word_lem q v,
      )
      refl

-- The first byte and the field of the key id.
version_read : (tail : List ℕ) → index {E = DecodeError} (format_version ∷ tail) 0 ≡ ok 1
unfolding index
version_read tail = refl

key_id_read :
    (key_id : ℕ) (tail : List ℕ)
    → slice {E = DecodeError} (format_version ∷ (to_le_bytes 8 key_id ++ tail)) 1 9
      ≡ ok (to_le_bytes 8 key_id)
key_id_read key_id tail = slice-append (1 ∷ []) (to_le_bytes 8 key_id) tail 1 9 refl refl

decode_none_lem :
    (hrp name : Text) (key_id : ℕ) (q : Quota)
    → key_id < 2 ^ 64
    → IsQuota q
    → decode_none hrp name (key_payload AuthMethod.none key_id q)
      ≡ ok record {
        hrp = hrp;
        auth_method = none_name;
        format_version = format_version;
        key_id = key_id;
        auth_secret = [];
        limits = some (limits_of q);
      }
unfolding decode_none
decode_none_lem hrp name key_id q fits v =
    rw
      (
        version_read (to_le_bytes 8 key_id ++ to_le_bytes 4 (quota_word q)),
        key_id_read key_id (to_le_bytes 4 (quota_word q)),
        to_array_lem {E = DecodeError} 8 (to_le_bytes 8 key_id) refl,
        limits_from_payload_lem (1 ∷ to_le_bytes 8 key_id) 9 q refl v,
        from_le_bytes-to_le_bytes 8 key_id fits,
      )
      refl

decode_keyed_lem :
    (hrp name : Text) (key_id : ℕ) (secret : List ℕ) (q : Quota)
    → key_id < 2 ^ 64
    → length secret ≡ 32
    → IsQuota q
    → decode_keyed hrp name (key_payload (cookie secret) key_id q)
      ≡ ok record {
        hrp = hrp;
        auth_method = name;
        format_version = format_version;
        key_id = key_id;
        auth_secret = secret;
        limits = some (limits_of q);
      }
unfolding decode_keyed
decode_keyed_lem hrp name key_id secret q fits len v =
    rw
      (
        (==_iff (length payload) 45).1 size,
        version_read (to_le_bytes 8 key_id ++ (secret ++ w)),
        key_id_read key_id (secret ++ w),
        to_array_lem {E = DecodeError} 8 (to_le_bytes 8 key_id) refl,
        secret_read,
        limits_read,
        from_le_bytes-to_le_bytes 8 key_id fits,
      )
      refl
  where
    w : List ℕ
    w = to_le_bytes 4 (quota_word q)

    payload : List ℕ
    payload = key_payload (cookie secret) key_id q

    size : length payload ≡ 45
    size = omega (arith, len, length-append secret w)

    secret_read : slice {E = DecodeError} payload 9 41 ≡ ok secret
    secret_read = slice-append (1 ∷ to_le_bytes 8 key_id) secret w 9 41 refl (omega (arith, len))

    limits_read : limits_from_payload payload 41 ≡ ok (limits_of q)
    limits_read =
        limits_from_payload_lem ((1 ∷ to_le_bytes 8 key_id) ++ secret) 41 q (omega (arith, len)) v

-- The decoded key, by its method.
decoded_of : AuthMethod → ℕ → Quota → DecodedApiKey
decoded_of method key_id q = record {
  hrp = rl_prefix ++ method_name method;
  auth_method = method_name method;
  format_version = format_version;
  key_id = key_id;
  auth_secret = secret_of method;
  limits = some (limits_of q);
}

decode_fields_lem :
    (method : AuthMethod) (key_id : ℕ) (q : Quota)
    → IsAuthMethod method
    → key_id < 2 ^ 64
    → IsQuota q
    → decode_fields
        (rl_prefix ++ method_name method)
        (method_name method)
        (key_payload method key_id q)
      ≡ ok (decoded_of method key_id q)
unfolding decode_fields decoded_of
decode_fields_lem AuthMethod.none key_id q a fits v = decode_none_lem _ _ key_id q fits v
decode_fields_lem (cookie secret) key_id q a fits v =
    decode_keyed_lem _ cookie_name key_id secret q fits a v
decode_fields_lem (aes_gcm secret) key_id q a fits v =
    decode_keyed_lem _ aes_name key_id secret q fits a v

auth_method_of_lem :
    (method : AuthMethod)
    → IsAuthMethod method
    → auth_method_of (method_name method) (secret_of method) ≡ ok method
unfolding auth_method_of
auth_method_of_lem AuthMethod.none a = refl
auth_method_of_lem (cookie secret) a =
    rw ((==_iff (length secret) 32).1 a, to_array_lem 32 secret a) refl
auth_method_of_lem (aes_gcm secret) a =
    rw ((==_iff (length secret) 32).1 a, to_array_lem 32 secret a) refl

key_payload-IsByte :
    (method : AuthMethod) (key_id : ℕ) (q : Quota)
    → All IsByte (secret_of method)
    → All IsByte (key_payload method key_id q)
key_payload-IsByte method key_id q h = (
  omega arith,
  All-append IsByte (to_le_bytes 8 key_id) _ (to_le_bytes-IsByte 8 key_id)
      (All-append IsByte (secret_of method) _ h (to_le_bytes-IsByte 4 (quota_word q))),
)

-- The names are printable and in lower case.
named :
    (method : AuthMethod)
    → (0 < length (rl_prefix ++ method_name method))
      × (all is_printable (rl_prefix ++ method_name method) ≡ true)
      × (map to_ascii_lowercase (method_name method) ≡ method_name method)
named AuthMethod.none = (omega arith, refl, refl)
named (cookie secret) = (omega arith, refl, refl)
named (aes_gcm secret) = (omega arith, refl, refl)

-- For a method whose secret, where it has one, is 32 bytes, a key id of 64 bits and a quota within
-- its ranges, `bech32_encode` of the method's name and of the payload (the version, the id, the
-- secret and the packed word) answers a text, and `from_str` of that text answers the key with this id,
-- method and secret, and with the limits that the quota stands for.
pub from_str-bech32_encode :
    (method : AuthMethod) (key_id : ℕ) (q : Quota)
    → IsAuthMethod method
    → All IsByte (secret_of method)
    → key_id < 2 ^ 64
    → IsQuota q
    → (encoded : Text) × (bech32_encode
          (rl_prefix ++ method_name method)
          (key_payload method key_id q)
        ≡ ok encoded)
      × (from_str encoded
          ≡ ok record { key_id = key_id; auth_method = method; limits = limits_of q })
unfolding from_str decode_api_key decoded_of
from_str-bech32_encode method key_id q a bytes fits v =
    let (some_name, printable, same) = named method in
    let (encoded, made, back) =
      bech32_decode-bech32_encode (rl_prefix ++ method_name method) (key_payload method key_id q)
        some_name printable (key_payload-IsByte method key_id q bytes) in
    (
      encoded,
      made,
      rw (back, same, decode_fields_lem method key_id q a fits v, auth_method_of_lem method a) refl,
    )
