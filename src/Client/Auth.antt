-- ===== src/Client/Auth.antt =====
-- The authentication of packets: `AuthMethod` of src/config.rs, and `auth_header_size`,
-- `append_auth_tlv` and `parse_auth_tlv` of src/client.rs.
pub mod RoundTrip
use rl_rust_client.Common.{
  ℕ, ◌+◌, List, [], ◌∷◌, ◌++◌, length, Bool, true, false, not, ◌&&◌, ltb, ◌==◌, if◌then◌else◌,
  Option, some, Result, ok, err, panic, ◌>>=◌, ◌>>◌, bail, ok_or,
}
use rl_rust_client.Common.Bytes.{to_le_bytes, slice, slice_from, to_array, u16_at}
use rl_rust_client.Error.{CoreError, protocol, auth, text, message, number}
use rl_rust_client.Protocol.{tlv_auth_none, tlv_auth_cookie, tlv_auth_aes}
use rl_rust_client.Protocol.Cipher.{Cipher, encrypt_pdu, decrypt_pdu}

pub data AuthMethod : Type 0 where
  none : AuthMethod
  cookie : List ℕ → AuthMethod
  aes_gcm : List ℕ → AuthMethod

-- `cookie_hash_cache` and `aes_key_cache`, as `CoreClient::new` fills them.
unfoldable pub cookie_hash_cache : AuthMethod → Option (List ℕ)
cookie_hash_cache (AuthMethod.cookie secret) = some secret
cookie_hash_cache _ = Option.none

unfoldable pub aes_key_cache : AuthMethod → Option (List ℕ)
aes_key_cache (AuthMethod.aes_gcm secret) = some secret
aes_key_cache _ = Option.none

unfoldable pub auth_header_size : AuthMethod → ℕ
auth_header_size AuthMethod.none = 4
auth_header_size (AuthMethod.cookie _) = 36
auth_header_size (AuthMethod.aes_gcm _) = 32

-- `cache.as_ref().unwrap()`
abbrev unwrap : Option (List ℕ) → Result CoreError (List ℕ)
unwrap (some key) = ok key
unwrap Option.none = panic

-- The equality of byte strings.
pub same_bytes : List ℕ → List ℕ → Bool
same_bytes [] [] = true
same_bytes (x ∷ xs) (y ∷ ys) = x == y && same_bytes xs ys
same_bytes _ _ = false

-- The packet with the authentication TLV and the PDU behind it. The nonce is drawn at random.
unfoldable pub append_auth_tlv :
    Cipher → AuthMethod → List ℕ → List ℕ → List ℕ → Result CoreError (List ℕ)
append_auth_tlv c AuthMethod.none nonce packet pdu_data =
    ok (packet ++ (to_le_bytes 2 tlv_auth_none ++ (to_le_bytes 2 4 ++ pdu_data)))
append_auth_tlv c (AuthMethod.cookie secret) nonce packet pdu_data = do
  let header = packet ++ (to_le_bytes 2 tlv_auth_cookie ++ to_le_bytes 2 36)
  hash ←
      ok_or (cookie_hash_cache (AuthMethod.cookie secret)) (auth (text "Missing cookie hash cache"))
  ok (header ++ (hash ++ pdu_data))
append_auth_tlv c (AuthMethod.aes_gcm secret) nonce packet pdu_data = do
  key ← unwrap (aes_key_cache (AuthMethod.aes_gcm secret))
  let header = packet ++ (to_le_bytes 2 tlv_auth_aes ++ to_le_bytes 2 32)
  (encrypted_pdu, auth_tag) ← encrypt_pdu c pdu_data key nonce header
  ok (header ++ (nonce ++ (auth_tag ++ encrypted_pdu)))

abbrev pub expected_auth_type : AuthMethod → ℕ
expected_auth_type AuthMethod.none = tlv_auth_none
expected_auth_type (AuthMethod.cookie _) = tlv_auth_cookie
expected_auth_type (AuthMethod.aes_gcm _) = tlv_auth_aes

-- The arms of the match on the TLV type: the packet, the TLV's position and size, and the start of
-- the PDU.
unfoldable pub parse_none_body : List ℕ → ℕ → ℕ → Result CoreError (List ℕ)
parse_none_body packet auth_tlv_size pdu_start = do
  bail (not (auth_tlv_size == 4))
      (protocol (message "Invalid size for AUTH_NONE TLV: {}" (number auth_tlv_size ∷ [])))
  slice_from packet pdu_start

-- `if matches!(auth_method, AuthMethod::Cookie(_)) { ... }`
unfoldable pub check_cookie : AuthMethod → Option (List ℕ) → List ℕ → Result CoreError (Unit {0})
check_cookie (AuthMethod.cookie _) cache auth_tlv_body = do
  expected ← ok_or cache (auth (text "Missing cookie hash cache"))
  bail (not (same_bytes auth_tlv_body expected)) (auth (text "Cookie auth mismatch"))
check_cookie _ cache auth_tlv_body = ok tt

unfoldable pub parse_cookie_body :
    AuthMethod → Option (List ℕ) → List ℕ → ℕ → ℕ → ℕ → Result CoreError (List ℕ)
parse_cookie_body method cache packet pos auth_tlv_size pdu_start = do
  bail (not (auth_tlv_size == 36))
      (protocol (message "Invalid size for AUTH_COOKIE TLV: {}" (number auth_tlv_size ∷ [])))
  auth_tlv_body ← slice packet (pos + 4) (pos + auth_tlv_size)
  check_cookie method cache auth_tlv_body
  slice_from packet pdu_start

unfoldable pub parse_aes_body :
    Cipher → Option (List ℕ) → List ℕ → ℕ → ℕ → ℕ → Result CoreError (List ℕ)
parse_aes_body c cache packet pos auth_tlv_size pdu_start = do
  bail (not (auth_tlv_size == 32))
      (protocol (message "Invalid size for AUTH_AES TLV: {}" (number auth_tlv_size ∷ [])))
  auth_tlv_body ← slice packet (pos + 4) (pos + auth_tlv_size)
  nonce_bytes ← slice auth_tlv_body 0 12
  nonce ← to_array 12 nonce_bytes
  tag_bytes ← slice auth_tlv_body 12 28
  auth_tag ← to_array 16 tag_bytes
  key ← ok_or cache (auth (text "Missing AES key cache"))
  encrypted_pdu ← slice_from packet pdu_start
  aad ← slice packet 0 (pos + 4 + 12)
  ok_or (decrypt_pdu c encrypted_pdu key nonce auth_tag aad)
      (protocol (text "AES decryption failed"))

unfoldable pub parse_auth_body :
    Cipher
    → AuthMethod
    → Option (List ℕ)
    → Option (List ℕ)
    → List ℕ
    → ℕ
    → ℕ
    → ℕ
    → ℕ
    → Result CoreError (List ℕ)
unfolding parse_none_body parse_cookie_body parse_aes_body
parse_auth_body c method hash key packet pos auth_tlv_type auth_tlv_size pdu_start =
    if auth_tlv_type == tlv_auth_none
    then parse_none_body packet auth_tlv_size pdu_start
    else if auth_tlv_type == tlv_auth_cookie
    then parse_cookie_body method hash packet pos auth_tlv_size pdu_start
    else if auth_tlv_type == tlv_auth_aes
    then parse_aes_body c key packet pos auth_tlv_size pdu_start
    else err (protocol (message "Unknown Auth TLV type: {:#x}" (number auth_tlv_type ∷ [])))

unfoldable pub parse_auth_tlv :
    Cipher → List ℕ → ℕ → AuthMethod → Option (List ℕ) → Option (List ℕ) → Result CoreError (List ℕ)
parse_auth_tlv c packet pos method hash key = do
  bail (ltb (length packet) (pos + 4)) (protocol (text "Buffer too small for Auth TLV header"))
  auth_tlv_type ← u16_at packet pos (pos + 1)
  auth_tlv_size ← u16_at packet (pos + 2) (pos + 3)
  bail (ltb auth_tlv_size 4) (protocol (text "Invalid Auth TLV size"))
  bail (ltb (length packet) (pos + auth_tlv_size))
      (protocol (text "Buffer too small for Auth TLV body"))
  bail (not (auth_tlv_type == expected_auth_type method)) (
      auth (
        message "Auth type mismatch: expected {:#x}, got {:#x}"
          (number (expected_auth_type method) ∷ number auth_tlv_type ∷ [])))
  let pdu_start = pos + auth_tlv_size
  bail (ltb (length packet) pdu_start) (protocol (text "Buffer too small for PDU"))
  parse_auth_body c method hash key packet pos auth_tlv_type auth_tlv_size pdu_start
