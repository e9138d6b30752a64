-- ===== src/Client/Response/RoundTrip.antt =====
-- Packets in the layout of the wire protocol, and the parser of src/client.rs.
use rl_rust_client.Common.{
  ℕ, ◌+◌, ◌≤◌, ◌≡◌, refl, sym, ap, ◌∙◌, arith, List, [], ◌++◌, length, take, drop, length-append,
  take-append-drop, subst, not, ◌==◌, ==_iff, le→ltb-false, Result, ok,
}
use rl_rust_client.Common.Bytes.{
  Fields, contents, contents-append, length-contents, slice, slice-append, u16_at-contents,
}
use rl_rust_client.Error.{CoreError}
use rl_rust_client.Protocol.{tlv_tenant, TenantHeader}
use rl_rust_client.Protocol.RoundTrip.{IsTenantHeader, tenant_fields, read_tenant_header_lem}
use rl_rust_client.Protocol.Cipher.{Cipher, IsAead}
use rl_rust_client.Client.Auth.{
  AuthMethod, cookie_hash_cache, aes_key_cache, append_auth_tlv, parse_auth_tlv,
}
use rl_rust_client.Client.Auth.RoundTrip.{IsAuthMethod, parse_auth_tlv-append_auth_tlv}
use rl_rust_client.Client.Response.{
  parse_tenant_header, parse_rate_response_pdu, parse_rate_response_with_auth,
}
use mathlib.Core.List.{append_assoc}
use rl_rust_client.Client.Response.Wire.{
  ResponseBlocks, IsResponse, wire_pdu, expected_result, parse_rate_response_pdu_lem,
}

-- A tenant header whose TLV has `extension` behind the known fields.
parse_tenant_header_lem :
    (h : TenantHeader) (extension rest : List ℕ)
    → IsTenantHeader h
    → h.tlv_type ≡ tlv_tenant
    → h.tlv_size ≡ 40 + length extension
    → parse_tenant_header (contents (tenant_fields h) (extension ++ rest)) ≡ ok (h, h.tlv_size)
unfolding parse_tenant_header
parse_tenant_header_lem h extension rest v type size = rw (
  le→ltb-false (length packet) 4 (omega (arith, long)),
  u16_at-contents {E = CoreError} [] tt h.tlv_type _ v.type_fits,
  u16_at-contents {E = CoreError} (take 1 f) (omega arith) h.tlv_size _ v.size_fits,
  (==_iff h.tlv_type tlv_tenant).1 type,
  le→ltb-false h.tlv_size 40 (omega arith),
  le→ltb-false (length packet) h.tlv_size (omega (arith, long)),
  cut,
  read_tenant_header_lem h extension v,
)
  where
    f : Fields
    f = tenant_fields h

    packet : List ℕ
    packet = contents f (extension ++ rest)

    long : length packet ≡ 40 + length extension + length rest
    long = omega (
      arith,
      length-contents f (extension ++ rest) (omega arith),
      length-append {0} extension rest,
    )

    whole : packet ≡ contents f extension ++ rest
    whole =
        sym (contents-append f (extension ++ rest))
        ∙ sym (append_assoc (contents f []) extension rest)
        ∙ ap (λ l. l ++ rest) (contents-append f extension)

    cut :
        ◌≡◌ {A = Result CoreError (List ℕ)} (slice packet 0 h.tlv_size) (ok (contents f extension))
    cut = rw whole (
        slice-append {E = CoreError} [] (contents f extension) rest 0 h.tlv_size refl
          (omega (arith, length-contents f extension (omega arith))))

-- A packet that begins with a tenant header, and whose authentication passes.
parse_front :
    (c : Cipher) (m : AuthMethod) (h : TenantHeader) (extension packet pdu : List ℕ)
    → IsTenantHeader h
    → h.tlv_type ≡ tlv_tenant
    → h.tlv_size ≡ 40 + length extension
    → let pre = contents (tenant_fields h) extension in
      take (length pre) packet ≡ pre
      → parse_auth_tlv c packet (length pre) m (cookie_hash_cache m) (aes_key_cache m) ≡ ok pdu
      → parse_rate_response_with_auth c packet m (cookie_hash_cache m) (aes_key_cache m)
        ≡ parse_rate_response_pdu pdu h.key_id (not (h.steering_feedback == 0))
unfolding parse_rate_response_with_auth
parse_front c m h extension packet pdu v type size front back = rw (header, ← place, back)
  where
    f : Fields
    f = tenant_fields h

    pre : List ℕ
    pre = contents f extension

    rest : List ℕ
    rest = drop (length pre) packet

    place : length pre ≡ h.tlv_size
    place = omega (arith, length-contents f extension (omega arith))

    whole : contents f (extension ++ rest) ≡ packet
    whole =
        sym (contents-append f (extension ++ rest))
        ∙ sym (append_assoc (contents f []) extension rest)
        ∙ ap (λ l. l ++ rest) (contents-append f extension)
        ∙ ap (λ l. l ++ rest) (sym front)
        ∙ take-append-drop (length pre) packet

    header : parse_tenant_header packet ≡ ok (h, h.tlv_size)
    header =
        subst (λ l. parse_tenant_header l ≡ ok (h, h.tlv_size)) whole
          (parse_tenant_header_lem h extension rest v type size)

-- A server's answer in the layout of the protocol, under any method of authentication, is parsed to
-- exactly what it says: every block in order, success when all guards are below their thresholds
-- and no resource has a deficit, and the server's id from the header. Extra bytes in the tenant TLV
-- and parameters behind the blocks are passed over. The cipher is taken to be an authenticated one.
pub parse_rate_response_lem :
    (c : Cipher) (m : AuthMethod) (nonce : List ℕ) (h : TenantHeader) (extension : List ℕ)
    (b : ResponseBlocks) (reserved extra : List ℕ)
    → IsAead c
    → IsAuthMethod m
    → length nonce ≡ 12
    → IsTenantHeader h
    → h.tlv_type ≡ tlv_tenant
    → h.tlv_size ≡ 40 + length extension
    → IsResponse b
    → length reserved ≡ 4
    → length (wire_pdu b reserved extra) ≤ 65535
    → (packet : List ℕ) × (append_auth_tlv c m nonce
          (contents (tenant_fields h) extension)
          (wire_pdu b reserved extra)
        ≡ ok packet)
      × (parse_rate_response_with_auth c packet m (cookie_hash_cache m) (aes_key_cache m)
          ≡ ok (expected_result b h.key_id (not (h.steering_feedback == 0))))
parse_rate_response_lem c m nonce h extension b reserved extra aead vm hn vh type size vb hr fits =
    let pre = contents (tenant_fields h) extension in
    let pdu = wire_pdu b reserved extra in
    let (packet, made, _, front, back) =
      parse_auth_tlv-append_auth_tlv c m nonce pre pdu aead vm hn fits in
    (
      packet,
      made,
      parse_front c m h extension packet pdu vh type size front back
          ∙ parse_rate_response_pdu_lem b reserved extra h.key_id (not (h.steering_feedback == 0))
              vb hr,
    )
