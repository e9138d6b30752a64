-- ===== src/Client/Auth/RoundTrip.antt =====
-- The authentication TLV of src/client.rs both ways: `append_auth_tlv` and then `parse_auth_tlv`.
use rl_rust_client.Common.{
  ℕ, ◌+◌, ◌-◌, ◌≤◌, ◌≡◌, refl, sym, ap, ◌∙◌, arith, List, [], ◌∷◌, ◌++◌, length, take, drop,
  length-append, length-take, length-drop, take-append, drop-append, take-append-drop, true,
  ==_refl, le→ltb-false, Option, some, Result, ok,
}
use rl_rust_client.Common.Bytes.{
  IsUint, to_le_bytes, slice, slice_from, slice_lem, slice_from_lem, slice-append, to_array_lem,
  u16_at, u16_at-contents,
}
use rl_rust_client.Error.{CoreError}
use rl_rust_client.Protocol.{tlv_auth_none, tlv_auth_cookie, tlv_auth_aes}
use rl_rust_client.Protocol.Cipher.{Cipher, IsAead, encrypt_pdu, decrypt_pdu}
use rl_rust_client.Client.Auth.{
  AuthMethod, cookie, aes_gcm, cookie_hash_cache, aes_key_cache, auth_header_size, same_bytes,
  append_auth_tlv, expected_auth_type, parse_none_body, parse_cookie_body, parse_aes_body,
  check_cookie, parse_auth_body, parse_auth_tlv,
}
use mathlib.Core.List.{append_assoc, append-nil}

-- A cookie hash has 32 bytes. The key of AES-256 goes to the cipher as it is.
abbrev pub IsAuthMethod : AuthMethod → Type 0
IsAuthMethod AuthMethod.none = Unit
IsAuthMethod (cookie secret) = length secret ≡ 32
IsAuthMethod (aes_gcm secret) = length secret ≡ 32

same_bytes_refl : (xs : List ℕ) → same_bytes xs xs ≡ true
unfolding same_bytes
same_bytes_refl [] = refl
same_bytes_refl (x ∷ xs) = rw (==_refl x) (same_bytes_refl xs)

-- The type and the size of a TLV at position `n`.
u16_at-append :
    (n m x : ℕ) (pre tail : List ℕ)
    → length pre ≡ n
    → m ≡ n + 1
    → IsUint 2 x
    → ◌≡◌ {A = Result CoreError ℕ} (u16_at (pre ++ (to_le_bytes 2 x ++ tail)) n m) (ok x)
u16_at-append n m x pre tail h e fits =
    rw (width, next) (u16_at-contents {E = CoreError} ((n, pre) ∷ []) (h, tt) x tail fits)
  where
    width : n ≡ n + 0
    width = omega arith

    next : m ≡ n + 0 + 1
    next = omega arith

-- Past its tests `parse_auth_tlv` goes on with the body.
parse_auth_tlv_step :
    (c : Cipher) (m : AuthMethod) (hash key : Option (List ℕ)) (packet : List ℕ) (n s : ℕ)
    → ◌≡◌ {A = Result CoreError ℕ} (u16_at packet n (n + 1)) (ok (expected_auth_type m))
    → ◌≡◌ {A = Result CoreError ℕ} (u16_at packet (n + 2) (n + 3)) (ok s)
    → 4 ≤ s
    → n + s ≤ length packet
    → parse_auth_tlv c packet n m hash key
      ≡ parse_auth_body c m hash key packet n (expected_auth_type m) s (n + s)
unfolding parse_auth_tlv
parse_auth_tlv_step c m hash key packet n s type size small room = rw (
  le→ltb-false (length packet) (n + 4) (omega arith),
  type,
  size,
  le→ltb-false s 4 small,
  le→ltb-false (length packet) (n + s) room,
  ==_refl (expected_auth_type m),
)

-- The front of a packet with a TLV of type `t` and size `s` behind `pre`.
abbrev tlv_header : List ℕ → ℕ → ℕ → List ℕ
tlv_header pre t s = pre ++ (to_le_bytes 2 t ++ to_le_bytes 2 s)

length-tlv_header : (pre : List ℕ) (t s : ℕ) → length (tlv_header pre t s) ≡ length pre + 4
length-tlv_header pre t s = length-append pre (to_le_bytes 2 t ++ to_le_bytes 2 s)

expected_auth_type-IsUint : (m : AuthMethod) → IsUint 2 (expected_auth_type m)
expected_auth_type-IsUint AuthMethod.none = omega arith
expected_auth_type-IsUint (cookie _) = omega arith
expected_auth_type-IsUint (aes_gcm _) = omega arith

parse_auth_tlv_header :
    (c : Cipher) (m : AuthMethod) (hash key : Option (List ℕ)) (pre rest : List ℕ) (s : ℕ)
    → IsUint 2 s
    → 4 ≤ s
    → s ≤ 4 + length rest
    → let packet = tlv_header pre (expected_auth_type m) s ++ rest in
      parse_auth_tlv c packet (length pre) m hash key
      ≡ parse_auth_body c m hash key packet (length pre) (expected_auth_type m) s (length pre + s)
parse_auth_tlv_header c m hash key pre rest s fits small room =
    parse_auth_tlv_step c m hash key packet (length pre) s
      (rw (append_assoc pre (to_le_bytes 2 t ++ to_le_bytes 2 s) rest) (
        u16_at-append (length pre) (length pre + 1) t pre (to_le_bytes 2 s ++ rest) refl refl
          (expected_auth_type-IsUint m)))
      (rw (split) (
        u16_at-append (length pre + 2) (length pre + 3) s (pre ++ to_le_bytes 2 t) rest
          (length-append pre (to_le_bytes 2 t)) (omega arith) fits))
      small (omega (arith, length-append {0} (tlv_header pre t s) rest, length-tlv_header pre t s))
  where
    t : ℕ
    t = expected_auth_type m

    packet : List ℕ
    packet = tlv_header pre t s ++ rest

    split : packet ≡ (pre ++ to_le_bytes 2 t) ++ (to_le_bytes 2 s ++ rest)
    split =
        append_assoc pre (to_le_bytes 2 t ++ to_le_bytes 2 s) rest
        ∙ sym (append_assoc pre (to_le_bytes 2 t) (to_le_bytes 2 s ++ rest))

slice_from-append :
    (pre post : List ℕ) (a : ℕ)
    → length pre ≡ a
    → ◌≡◌ {A = Result CoreError (List ℕ)} (slice_from (pre ++ post) a) (ok post)
slice_from-append pre post a h =
    slice_from_lem {E = CoreError} (pre ++ post) a (omega (arith, length-append {0} pre post))
    ∙ ap ok (drop-append a pre post h)

cookie_body :
    (secret header pdu : List ℕ) (n : ℕ)
    → length secret ≡ 32
    → length header ≡ n + 4
    → parse_cookie_body (cookie secret) (some secret) (header ++ (secret ++ pdu)) n 36 (n + 36)
      ≡ ok pdu
unfolding parse_cookie_body check_cookie
cookie_body secret header pdu n hs hh =
    rw
      (
        slice-append {E = CoreError} header secret pdu (n + 4) (n + 36) hh (omega arith),
        same_bytes_refl secret,
      )
      (rw (← append_assoc header secret pdu) (
        slice_from-append (header ++ secret) pdu (n + 36)
          (omega (arith, length-append {0} header secret))))

aes_body :
    (c : Cipher) (key header nonce tag encrypted pdu : List ℕ) (n : ℕ)
    → length nonce ≡ 12
    → length tag ≡ 16
    → length header ≡ n + 4
    → c.decrypt key nonce (header ++ nonce) (encrypted ++ tag) ≡ some pdu
    → parse_aes_body c (some key) (header ++ (nonce ++ (tag ++ encrypted))) n 32 (n + 32) ≡ ok pdu
unfolding parse_aes_body decrypt_pdu
aes_body c key header nonce tag encrypted pdu n hn ht hh opens = rw (
  body,
  nonce_part,
  to_array_lem {E = CoreError} 12 nonce hn,
  tag_part,
  to_array_lem {E = CoreError} 16 tag ht,
  rest,
  associated,
  opens,
)
  where
    packet : List ℕ
    packet = header ++ (nonce ++ (tag ++ encrypted))

    whole : packet ≡ header ++ ((nonce ++ tag) ++ encrypted)
    whole = ap (λ l. header ++ l) (sym (append_assoc nonce tag encrypted))

    body : ◌≡◌ {A = Result CoreError (List ℕ)} (slice packet (n + 4) (n + 32)) (ok (nonce ++ tag))
    body = rw whole (
        slice-append {E = CoreError} header (nonce ++ tag) encrypted (n + 4) (n + 32) hh
          (omega (arith, length-append {0} nonce tag)))

    nonce_part : ◌≡◌ {A = Result CoreError (List ℕ)} (slice (nonce ++ tag) 0 12) (ok nonce)
    nonce_part = slice-append {E = CoreError} [] nonce tag 0 12 refl (omega arith)

    tag_part : ◌≡◌ {A = Result CoreError (List ℕ)} (slice (nonce ++ tag) 12 28) (ok tag)
    tag_part =
        ap (λ (l : List ℕ). slice {E = CoreError} (nonce ++ l) 12 28) (sym (append-nil tag))
        ∙ slice-append {E = CoreError} nonce tag [] 12 28 hn (omega arith)

    rest : ◌≡◌ {A = Result CoreError (List ℕ)} (slice_from packet (n + 32)) (ok encrypted)
    rest =
        rw (whole, ← append_assoc header (nonce ++ tag) encrypted)
          (slice_from-append (header ++ (nonce ++ tag)) encrypted (n + 32)
            (omega (arith, length-append {0} header (nonce ++ tag), length-append {0} nonce tag)))

    associated :
        ◌≡◌ {A = Result CoreError (List ℕ)} (slice packet 0 (n + 4 + 12)) (ok (header ++ nonce))
    associated = rw (← append_assoc header nonce (tag ++ encrypted)) (
        slice-append {E = CoreError} [] (header ++ nonce) (tag ++ encrypted) 0 (n + 4 + 12) refl
          (omega (arith, length-append {0} header nonce)))

-- What `encrypt_pdu` makes of a message that the cipher seals.
sealed_parts :
    (c : Cipher) (key nonce prefix pdu : List ℕ)
    → IsAead c
    → length pdu ≤ 65535
    → (encrypted : List ℕ) × (tag : List ℕ) × (encrypt_pdu {E = CoreError} c pdu key nonce prefix
        ≡ ok (encrypted, tag))
      × (length tag ≡ 16)
      × (length encrypted ≡ length pdu)
      × (c.decrypt key nonce (prefix ++ nonce) (encrypted ++ tag) ≡ some pdu)
unfolding encrypt_pdu
sealed_parts c key nonce prefix pdu aead h =
    let (sealed, e, len, opens) = aead.seals key nonce (prefix ++ nonce) pdu h in
    let k : ℕ = length sealed - 16 in
    let all : k - 0 ≡ k = omega arith in
    (
      take k sealed,
      drop k sealed,
      rw (
        e,
        encrypt_pdu,
        slice_from_lem {E = CoreError} sealed k (omega arith),
        slice_lem {E = CoreError} sealed 0 k (omega arith) (omega arith),
        to_array_lem {E = CoreError} 16 (drop k sealed) (omega (arith, length-drop k sealed)),
        all,
      ),
      omega (arith, length-drop k sealed),
      omega (arith, length-take k sealed),
      rw (take-append-drop k sealed) opens,
    )

none_body :
    (header pdu : List ℕ) (n : ℕ)
    → length header ≡ n + 4
    → parse_none_body (header ++ pdu) 4 (n + 4) ≡ ok pdu
unfolding parse_none_body
none_body header pdu n h = slice_from-append header pdu (n + 4) h

-- A packet with a TLV behind `pre`: its size, its front, and how `parse_auth_tlv` goes on.
tlv_packet :
    (c : Cipher) (m : AuthMethod) (pre body pdu : List ℕ) (s : ℕ)
    → IsUint 2 s
    → 4 ≤ s
    → s ≤ 4 + length body
    → let packet = tlv_header pre (expected_auth_type m) s ++ body in
      parse_auth_body c m
          (cookie_hash_cache m)
          (aes_key_cache m)
          packet
          (length pre)
          (expected_auth_type m)
          s
          (length pre + s)
        ≡ ok pdu
      → (length packet ≡ length pre + 4 + length body)
        × (take (length pre) packet ≡ pre)
        × (parse_auth_tlv c packet (length pre) m (cookie_hash_cache m) (aes_key_cache m) ≡ ok pdu)
tlv_packet c m pre body pdu s fits small room ends = (
  omega (
    arith,
    length-append {0} (tlv_header pre (expected_auth_type m) s) body,
    length-tlv_header pre (expected_auth_type m) s,
  ),
  rw append_assoc (take-append (length pre) pre _ refl),
  parse_auth_tlv_header c m (cookie_hash_cache m) (aes_key_cache m) pre body s fits small room
      ∙ ends,
)

-- For every method, what `append_auth_tlv` puts behind a packet has the size of the method's header
-- and of the PDU, and `parse_auth_tlv` at that place gives the PDU back. The cipher is taken to be
-- an authenticated one, the nonce has 12 bytes, and the PDU fits a datagram.
pub parse_auth_tlv-append_auth_tlv :
    (c : Cipher) (m : AuthMethod) (nonce pre pdu : List ℕ)
    → IsAead c
    → IsAuthMethod m
    → length nonce ≡ 12
    → length pdu ≤ 65535
    → (packet : List ℕ) × (append_auth_tlv c m nonce pre pdu ≡ ok packet)
      × (length packet ≡ length pre + auth_header_size m + length pdu)
      × (take (length pre) packet ≡ pre)
      × (parse_auth_tlv c packet (length pre) m (cookie_hash_cache m) (aes_key_cache m) ≡ ok pdu)
unfolding append_auth_tlv auth_header_size cookie_hash_cache aes_key_cache parse_auth_body
parse_auth_tlv-append_auth_tlv c AuthMethod.none nonce pre pdu aead valid hn hp =
    let header = tlv_header pre tlv_auth_none 4 in
    let (size, front, back) =
      tlv_packet c AuthMethod.none pre pdu pdu 4 (omega arith) (omega arith) (omega arith)
        (none_body header pdu (length pre) (length-tlv_header pre tlv_auth_none 4)) in
    (header ++ pdu, ap ok (sym (append_assoc pre _ pdu)), size, front, back)
parse_auth_tlv-append_auth_tlv c (cookie secret) nonce pre pdu aead valid hn hp =
    let header = tlv_header pre tlv_auth_cookie 36 in
    let (size, front, back) =
      tlv_packet c (cookie secret) pre (secret ++ pdu) pdu 36 (omega arith) (omega arith)
        (omega (arith, length-append {0} secret pdu))
        (cookie_body secret header pdu (length pre) valid
          (length-tlv_header pre tlv_auth_cookie 36)) in
    (
      header ++ (secret ++ pdu),
      refl,
      omega (arith, size, length-append {0} secret pdu),
      front,
      back,
    )
parse_auth_tlv-append_auth_tlv c (aes_gcm secret) nonce pre pdu aead valid hn hp =
    let header = tlv_header pre tlv_auth_aes 32 in
    let (encrypted, tag, parts, ht, he, opens) = sealed_parts c secret nonce header pdu aead hp in
    let body : List ℕ = nonce ++ (tag ++ encrypted) in
    let long : length body ≡ 28 + length pdu =
      omega (arith, length-append {0} nonce (tag ++ encrypted), length-append {0} tag encrypted) in
    let (size, front, back) =
      tlv_packet c (aes_gcm secret) pre body pdu 32 (omega arith) (omega arith) (omega arith) (
        aes_body c secret header nonce tag encrypted pdu (length pre) hn ht
          (length-tlv_header pre tlv_auth_aes 32) opens) in
    (header ++ body, rw parts, omega (arith, size, long), front, back)
