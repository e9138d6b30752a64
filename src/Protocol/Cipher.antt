-- ===== src/Protocol/Cipher.antt =====
-- `encrypt_pdu` and `decrypt_pdu` of src/protocol.rs, over the AES-256-GCM of the crate `aes-gcm`.
use rl_rust_client.Common.{
  ℕ, ◌+◌, ◌-◌, ◌≤◌, ◌≡◌, List, ◌++◌, length, Option, none, some, Result, ok, panic, ◌>>=◌,
}
use rl_rust_client.Common.Bytes.{slice, slice_from, to_array}

-- The cipher by key, nonce, associated data and message: `encrypt` answers the ciphertext with the
-- tag of 16 bytes behind it, `decrypt` takes that.
pub record Cipher : Type 0 where
  pub encrypt : List ℕ → List ℕ → List ℕ → List ℕ → Option (List ℕ)
  pub decrypt : List ℕ → List ℕ → List ℕ → List ℕ → Option (List ℕ)

-- What an authenticated cipher promises on a message that fits a datagram: it seals the message,
-- with a tag of 16 bytes, and opens what it sealed.
pub record IsAead (c : Cipher) : Type 0 where
  pub seals :
      (key nonce aad msg : List ℕ)
      → length msg ≤ 65535
      → (sealed : List ℕ) × (c.encrypt key nonce aad msg ≡ some sealed)
        × (length sealed ≡ length msg + 16)
        × (c.decrypt key nonce aad sealed ≡ some msg)

-- The nonce is random: it is an argument. The result is the encrypted PDU and the tag.
unfoldable pub encrypt_pdu :
    {E : Type 0} → Cipher → List ℕ → List ℕ → List ℕ → List ℕ → Result E (List ℕ × List ℕ)
encrypt_pdu c pdu key nonce aad_prefix = elim (c.encrypt key nonce (aad_prefix ++ nonce) pdu) [
  | none ↦ panic
  | some ciphertext ↦ do
    let tag_offset = length ciphertext - 16
    tag ← slice_from ciphertext tag_offset
    encrypted_pdu ← slice ciphertext 0 tag_offset
    auth_tag ← to_array 16 tag
    ok (encrypted_pdu, auth_tag)
]

unfoldable pub decrypt_pdu : Cipher → List ℕ → List ℕ → List ℕ → List ℕ → List ℕ → Option (List ℕ)
decrypt_pdu c encrypted_pdu key nonce auth_tag aad =
    c.decrypt key nonce aad (encrypted_pdu ++ auth_tag)
