-- ===== src/Client/Packet.antt =====
-- The request packet that `_check_rate_limit_with_retries` of src/client.rs builds before it sends.
use rl_rust_client.Common.{
  ℕ, ◌+◌, ◌≤◌, ◌≡◌, subst, arith, List, [], length, replicate, ltb, le→ltb-false, Option, Result,
  ok, bail, ◌>>=◌, ◌>>◌,
}
use rl_rust_client.Common.Bytes.{contents, length-contents}
use rl_rust_client.Error.{CoreError, protocol, text}
use rl_rust_client.Protocol.{TenantHeader, write_tenant_header}
use rl_rust_client.Protocol.RoundTrip.{tenant_fields, write_tenant_header_lem}
use rl_rust_client.Protocol.Cipher.{Cipher, IsAead}
use rl_rust_client.Protocol.Id.{Hash}
use rl_rust_client.Client.Auth.{
  AuthMethod, auth_header_size, append_auth_tlv, parse_auth_tlv, cookie_hash_cache, aes_key_cache,
}
use rl_rust_client.Client.Auth.RoundTrip.{IsAuthMethod, parse_auth_tlv-append_auth_tlv}
use rl_rust_client.Client.Response.{tenant_tlv_len}
use rl_rust_client.Client.Request.{
  ResourceRequest, LatencyGuard, build_rate_request_body, build_rate_request_pdu,
}

abbrev pub max_packet_size : ℕ
max_packet_size = 1200

-- The PDU behind the header, if it fits.
unfoldable pub finish_packet :
    Cipher → AuthMethod → List ℕ → TenantHeader → List ℕ → Result CoreError (List ℕ)
finish_packet c method nonce header pdu_data = do
  bail (ltb max_packet_size (tenant_tlv_len + auth_header_size method + length pdu_data))
      (protocol (text "Packet too large for MTU target"))
  front ← write_tenant_header header (replicate tenant_tlv_len 0)
  append_auth_tlv c method nonce front pdu_data

unfoldable pub build_packet :
    Hash
    → Cipher
    → AuthMethod
    → List ℕ
    → TenantHeader
    → ℕ
    → List ResourceRequest
    → List LatencyGuard
    → Option (List ℕ)
    → Result CoreError (List ℕ)
build_packet hash c method nonce header dedup_ttl_ms resources guards metrics_label = do
  pdu_body ← build_rate_request_body hash resources guards metrics_label
  pdu_data ← build_rate_request_pdu dedup_ttl_ms pdu_body
  finish_packet c method nonce header pdu_data

-- A PDU that fits the limit together with the headers is sent as a packet of exactly that size, and a
-- peer with the same secret finds the PDU behind the tenant header. The cipher is taken to be an
-- authenticated one, the nonce has 12 bytes, and the fields of the header have their sizes.
pub parse_auth_tlv-finish_packet :
    (c : Cipher) (method : AuthMethod) (nonce : List ℕ) (header : TenantHeader) (pdu : List ℕ)
    → IsAead c
    → IsAuthMethod method
    → length nonce ≡ 12
    → length header.unique_id ≡ 16
    → length header.padding ≡ 2
    → tenant_tlv_len + auth_header_size method + length pdu ≤ max_packet_size
    → (packet : List ℕ) × (finish_packet c method nonce header pdu ≡ ok packet)
      × (length packet ≡ tenant_tlv_len + auth_header_size method + length pdu)
      × (parse_auth_tlv c packet tenant_tlv_len method
            (cookie_hash_cache method)
            (aes_key_cache method)
          ≡ ok pdu)
unfolding finish_packet
parse_auth_tlv-finish_packet c method nonce header pdu aead valid hn hu hp small =
    let front = contents (tenant_fields header) [] in
    let forty : length front ≡ 40 =
      omega (arith, hu, hp, length-contents (tenant_fields header) [] (omega arith)) in
    let (packet, made, size, _, back) =
      parse_auth_tlv-append_auth_tlv c method nonce front pdu aead valid hn
        (omega (arith, small)) in
    (
      packet,
      rw (
        le→ltb-false max_packet_size (tenant_tlv_len + auth_header_size method + length pdu) small,
        write_tenant_header_lem {E = CoreError} header (replicate 40 0) hu hp (omega arith),
        made,
      ),
      omega (arith, size, forty),
      subst
          (λ n.
            parse_auth_tlv c packet n method (cookie_hash_cache method) (aes_key_cache method)
            ≡ ok pdu)
          forty back,
    )
