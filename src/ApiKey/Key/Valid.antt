-- ===== src/ApiKey/Key/Valid.antt =====
-- What `ApiKey::from_str` of src/api_key.rs answers.
use rl_rust_client.Common.{
  ℕ, zero, suc, ◌+◌, ◌/◌, ◌%◌, ◌^◌, ◌≤◌, ◌<◌, ◌≡◌, refl, subst, arith, List, [], ◌∷◌, length, take,
  drop, All, Bool, true, false, not, ◌&&◌, ◌||◌, ltb, leb, ◌==◌, ==_iff, if◌then◌else◌, Bool-cases,
  Option, none, some, Result, ok, ok_or, map_err, ◌>>=◌, inl, inr, Ensures, ensures_ok, ensures_err,
  Ensures-bind, Ensures-bail, Ensures-map, Ensures-map_err, Ensures-ok_or,
}
use rl_rust_client.Common.Bytes.{
  IsByte, slice, to_array, from_le_bytes, from_le_bytes-IsUint, length-slice, slice_lem,
  Ensures-index, Ensures-slice, Ensures-to_array,
}
use rl_rust_client.Error.{ApiKeyError, unsupported_credential}
use rl_rust_client.Client.Auth.{AuthMethod, cookie, aes_gcm}
use rl_rust_client.Client.Auth.RoundTrip.{IsAuthMethod}
use rl_rust_client.ApiKey.Bech32.{Text, DecodeError, bech32_decode}
use rl_rust_client.ApiKey.Bech32.Safe.{bech32_decode-AreBytes}
use rl_rust_client.ApiKey.Codec.{
  ApiKeyLimits, DecodedApiKey, secret_name, none_name, cookie_name, aes_name, same_text,
  strip_prefix, rl_prefix, window_max, limits_of_word, limits_from_payload, decode_secret,
  decode_none, decode_keyed, decode_fields, decode_api_key,
}
use rl_rust_client.ApiKey.Key.{ApiKey, from_decode_error, auth_method_of, from_str}
use native.Mathlib.Nat.{one-le-pow, pow-le-pow_right}

-- The limits that a packed word can stand for.
pub record IsLimits (l : ApiKeyLimits) : Type 0 where
  some_buckets : 1 ≤ l.rate_buckets_max
  buckets_bound : l.rate_buckets_max ≤ 2 ^ 24
  some_services : 1 ≤ l.latency_services_max
  services_bound : l.latency_services_max ≤ 2 ^ 24
  some_labels : 1 ≤ l.metrics_labels_max
  labels_bound : l.metrics_labels_max ≤ 2 ^ 31
  some_buffer : 1 ≤ l.latency_buffer_size_max
  buffer_bound : l.latency_buffer_size_max ≤ 2 ^ 15
  some_ttl : 10 ≤ l.dedup_ttl_ms_max
  ttl_bound : l.dedup_ttl_ms_max ≤ 2000
  some_window : 1 ≤ l.rate_window_size_ms_max
  window_bound : l.rate_window_size_ms_max < 2 ^ 32

abbrev pub IsApiKey : ApiKey → Type 0
IsApiKey key = IsAuthMethod key.auth_method × IsLimits key.limits × (key.key_id < 2 ^ 64)

pow_bounds : (e n : ℕ) → e ≤ n → (1 ≤ 2 ^ e) × (2 ^ e ≤ 2 ^ n)
pow_bounds e n h = (one-le-pow e 2 (omega arith), pow-le-pow_right (omega arith) h)

window_max_bounds : (e : ℕ) → e < 32 → (1 ≤ window_max e) × (window_max e < 2 ^ 32)
window_max_bounds e h = elim (Bool-cases (e == 31)) [
  | inl last ↦ rw last (omega arith, omega arith)
  | inr other ↦ let (low, high) = pow_bounds e 30 (ground arith) in rw other (low, omega arith)
]

or_false : (b c : Bool) → (b || c) ≡ false → (b ≡ false) × (c ≡ false)
or_false true c h = absurd (cc)
or_false false c h = (refl, h)

between : (x low high : ℕ) → not (leb low x && leb x high) ≡ false → (low ≤ x) × (x ≤ high)
between x low high h = ground arith

limits_of_word-IsLimits : (word : ℕ) → Ensures IsLimits (limits_of_word word)
unfolding limits_of_word
limits_of_word-IsLimits word =
    let rate_exp = word % 2 ^ 5 in
    let latency_exp = word / 2 ^ 5 % 2 ^ 5 in
    let units = word / 2 ^ 19 % 2 ^ 8 in
    Ensures-bail (ltb 24 rate_exp || (ltb 24 latency_exp || not (leb 1 units && leb units 200))) _ _
      λ e.
        let (rate, r) = or_false (ltb 24 rate_exp) _ e in
        let (latency, dedup) = or_false (ltb 24 latency_exp) _ r in
        let fitting = between units 1 200 dedup in
        let rate_pow = pow_bounds rate_exp 24 (ground arith) in
        let latency_pow = pow_bounds latency_exp 24 (ground arith) in
        let labels_pow = pow_bounds (word / 2 ^ 10 % 2 ^ 5) 31 (omega arith) in
        let buffer_pow = pow_bounds (word / 2 ^ 15 % 2 ^ 4) 15 (omega arith) in
        let window = window_max_bounds (word / 2 ^ 27 % 2 ^ 5) (omega arith) in
        ensures_ok (record {
          some_buckets = rate_pow.0;
          buckets_bound = rate_pow.1;
          some_services = latency_pow.0;
          services_bound = latency_pow.1;
          some_labels = labels_pow.0;
          labels_bound = labels_pow.1;
          some_buffer = buffer_pow.0;
          buffer_bound = buffer_pow.1;
          some_ttl = omega (arith, fitting);
          ttl_bound = omega (arith, fitting);
          some_window = window.0;
          window_bound = window.1;
        })

limits_from_payload-IsLimits :
    (payload : List ℕ) (offset : ℕ)
    → offset + 4 ≤ length payload
    → Ensures IsLimits (limits_from_payload payload offset)
unfolding limits_from_payload
limits_from_payload-IsLimits payload offset h =
    Ensures-slice payload offset (offset + 4) _ (omega arith) h λ part size.
      Ensures-to_array 4 part _ (omega (arith, size)) (limits_of_word-IsLimits (from_le_bytes part))

abbrev pub IsLimited : Option ApiKeyLimits → Type 0
IsLimited none = Unit
IsLimited (some l) = IsLimits l

abbrev pub IsDecoded : DecodedApiKey → Type 0
IsDecoded d = IsLimited d.limits × (d.key_id < 2 ^ 64)

All-take : (P : ℕ → Type 0) (n : ℕ) (xs : List ℕ) → All P xs → All P (take n xs)
All-take P zero xs h = tt
All-take P (suc n) [] h = tt
All-take P (suc n) (x ∷ xs) (hx, h) = (hx, All-take P n xs h)

All-drop : (P : ℕ → Type 0) (n : ℕ) (xs : List ℕ) → All P xs → All P (drop n xs)
All-drop P zero xs h = h
All-drop P (suc n) [] h = tt
All-drop P (suc n) (x ∷ xs) (hx, h) = All-drop P n xs h

-- The field that the key's number is read from.
Ensures-key_id :
    {B : Type 0} {P : B → Type 0} (payload : List ℕ) (f : List ℕ → Result DecodeError B)
    → All IsByte payload
    → 9 ≤ length payload
    → ((part : List ℕ) → from_le_bytes part < 2 ^ 64 → Ensures P (f part))
    → Ensures P (slice payload 1 9 >>= λ part. to_array 8 part >>= f)
Ensures-key_id payload f bytes h k =
    let part = take 8 (drop 1 payload) in
    let size : length part ≡ 8 = length-slice payload 1 9 h in
    let small : from_le_bytes part < 2 ^ 64 =
      subst (λ n. from_le_bytes part < 256 ^ n) size
        (from_le_bytes-IsUint part (All-take IsByte 8 _ (All-drop IsByte 1 payload bytes))) in
    rw (slice_lem {E = DecodeError} payload 1 9 (omega arith) h)
      (Ensures-to_array 8 part f size (k part small))

same_length : (a b : ℕ) → not (a == b) ≡ false → a ≡ b
same_length a b h = ground arith

decode_secret-IsDecoded :
    (hrp name : Text) (payload : List ℕ) → Ensures IsDecoded (decode_secret hrp name payload)
unfolding decode_secret
decode_secret-IsDecoded hrp name payload =
    Ensures-bail (not (length payload == 32)) _ _ λ e. ensures_ok (tt, omega arith)

decode_none-IsDecoded :
    (hrp name : Text) (payload : List ℕ)
    → All IsByte payload
    → Ensures IsDecoded (decode_none hrp name payload)
unfolding decode_none
decode_none-IsDecoded hrp name payload bytes = Ensures-bail (not (length payload == 13)) _ _ λ e.
    let size = same_length (length payload) 13 e in
    Ensures-index payload 0 _ (omega arith) λ version. Ensures-bail (not (version == 1)) _ _ λ e'.
      Ensures-key_id payload _ bytes (omega arith) λ part small.
        Ensures-bind (limits_from_payload payload 9) _ (
          Ensures-map (λ l valid. ensures_ok (valid, small))
            (limits_from_payload-IsLimits payload 9 (omega arith)))

decode_keyed-IsDecoded :
    (hrp name : Text) (payload : List ℕ)
    → All IsByte payload
    → Ensures IsDecoded (decode_keyed hrp name payload)
unfolding decode_keyed
decode_keyed-IsDecoded hrp name payload bytes = Ensures-bail (not (length payload == 45)) _ _ λ e.
    let size = same_length (length payload) 45 e in
    Ensures-index payload 0 _ (omega arith) λ version. Ensures-bail (not (version == 1)) _ _ λ e'.
      Ensures-key_id payload _ bytes (omega arith) λ part small.
        Ensures-slice payload 9 41 _ (omega arith) (omega arith) λ secret len.
          Ensures-bind (limits_from_payload payload 41) _ (
            Ensures-map (λ l valid. ensures_ok (valid, small))
              (limits_from_payload-IsLimits payload 41 (omega arith)))

Ensures-if :
    {E B : Type 0} {P : B → Type 0} (b : Bool) (x y : Result E B)
    → Ensures P x
    → Ensures P y
    → Ensures P (if b then x else y)
Ensures-if true x y h k = h
Ensures-if false x y h k = k

decode_fields-IsDecoded :
    (hrp name : Text) (payload : List ℕ)
    → All IsByte payload
    → Ensures IsDecoded (decode_fields hrp name payload)
unfolding decode_fields
decode_fields-IsDecoded hrp name payload bytes =
    Ensures-if (same_text name secret_name) _ _ (decode_secret-IsDecoded hrp name payload) (
      Ensures-if (same_text name none_name) _ _ (decode_none-IsDecoded hrp name payload bytes) (
        Ensures-if (same_text name cookie_name || same_text name aes_name) _ _
          (decode_keyed-IsDecoded hrp name payload bytes) ensures_err))

decode_api_key-IsDecoded : (encoded : Text) → Ensures IsDecoded (decode_api_key encoded)
unfolding decode_api_key
decode_api_key-IsDecoded encoded = Ensures-bind (bech32_decode encoded) _ (
    Ensures-map
      (λ r bytes. Ensures-bind (ok_or (strip_prefix rl_prefix r.0) _) _ (
        Ensures-map (λ name h. decode_fields-IsDecoded r.0 name r.1 bytes)
          (Ensures-ok_or (strip_prefix rl_prefix r.0) _)))
      (bech32_decode-AreBytes encoded))

copied_secret :
    (make : List ℕ → AuthMethod) (b : Bool) (secret : List ℕ) (k : Result ApiKeyError AuthMethod)
    → ((s : List ℕ) → length s ≡ 32 → IsAuthMethod (make s))
    → Ensures IsAuthMethod k
    → Ensures IsAuthMethod
        (if b && length secret == 32 then (do copied ← to_array 32 secret; ok (make copied)) else k)
copied_secret make false secret k valid rest = rest
copied_secret make true secret k valid rest = elim (Bool-cases (length secret == 32)) [
  | inl e ↦
      let size = (==_iff (length secret) 32).0 e in
      rw e (Ensures-to_array 32 secret _ size (ensures_ok (valid secret size)))
  | inr e ↦ rw e rest
]

auth_method_of-IsAuthMethod :
    (name : Text) (secret : List ℕ) → Ensures IsAuthMethod (auth_method_of name secret)
unfolding auth_method_of
auth_method_of-IsAuthMethod name secret =
    Ensures-if (same_text name none_name && length secret == 0) _ _ (ensures_ok tt) (
      copied_secret cookie (same_text name cookie_name) secret _ (λ s h. h)
        (copied_secret aes_gcm (same_text name aes_name) secret _ (λ s h. h) ensures_err))

Ensures-limits :
    {B : Type 0} {P : B → Type 0} (o : Option ApiKeyLimits) (e : ApiKeyError)
    (f : ApiKeyLimits → Result ApiKeyError B)
    → IsLimited o
    → ((l : ApiKeyLimits) → IsLimits l → Ensures P (f l))
    → Ensures P (ok_or o e >>= f)
Ensures-limits none e f h k = ensures_err
Ensures-limits (some l) e f h k = k l h

-- At every text `from_str` returns without a panic, and a key that it accepts has a secret of 32
-- bytes where its method has one, limits within the ranges of the packed word, and a key id of 64 bits.
pub from_str-IsApiKey : (encoded : Text) → Ensures IsApiKey (from_str encoded)
unfolding from_str
from_str-IsApiKey encoded = Ensures-bind (map_err from_decode_error (decode_api_key encoded)) _ (
    Ensures-map
      (λ d decoded. Ensures-limits d.limits unsupported_credential _ decoded.0 λ l valid.
        Ensures-bind (auth_method_of d.auth_method d.auth_secret) _ (
          Ensures-map (λ method good. ensures_ok (good, valid, decoded.1))
            (auth_method_of-IsAuthMethod d.auth_method d.auth_secret)))
      (Ensures-map_err from_decode_error (decode_api_key encoded)
        (decode_api_key-IsDecoded encoded)))
