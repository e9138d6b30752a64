-- ===== src/Tests/Packets.antt =====
-- Packets on the wire, and an exchange of two servers' answers.
use rl_rust_client.Common.{
  ℕ, ◌+◌, ◌≡◌, refl, arith, List, [], ◌∷◌, ◌++◌, length, replicate, take, true, none, some, Result,
  ok, Returns,
}
use rl_rust_client.Common.Bytes.{
  contents, to_le_bytes, u16_at, index, slice, array_at, to_array, uint_at, slice_from,
}
use rl_rust_client.Error.{CoreError}
use rl_rust_client.Protocol.{
  read_tenant_header, read_guard_block, TenantHeader, tlv_tenant, tlv_auth_none,
}
use rl_rust_client.Protocol.RoundTrip.{tenant_fields}
use rl_rust_client.Client.Auth.{
  AuthMethod, aes_gcm, append_auth_tlv, parse_auth_tlv, parse_auth_body, cookie_hash_cache,
  aes_key_cache, auth_header_size,
}
use rl_rust_client.Client.Auth.RoundTrip.{parse_auth_tlv-append_auth_tlv}
use rl_rust_client.Client.Response.{
  parse_tenant_header, parse_guards, parse_resources, parse_rate_response_pdu, RateLimitResult,
  parse_rate_response_with_auth, peek_server_id,
}
use rl_rust_client.Client.Response.Safe.{parse_rate_response_safe}
use rl_rust_client.Client.Response.Wire.{ResponseBlocks, wire_pdu, expected_result}
use rl_rust_client.Client.Response.RoundTrip.{parse_rate_response_lem}
use rl_rust_client.Client.Packet.{finish_packet, parse_auth_tlv-finish_packet}
use rl_rust_client.Client.Peek.{peek_server_id-parse}
use rl_rust_client.Tests.{test_cipher, test_cipher-IsAead}

abbrev test_key : AuthMethod
test_key = aes_gcm (replicate 32 1)

abbrev test_nonce : List ℕ
test_nonce = replicate 12 2

abbrev pub test_header : ℕ → TenantHeader
test_header id = record {
  tlv_type = tlv_tenant;
  tlv_size = 40;
  key_id = id;
  unique_id = replicate 16 7;
  time_stamp = 9;
  steering_feedback = 1;
  tenant_mgmt_flag = 0;
  padding = replicate 2 0;
}

abbrev pub test_blocks : ResponseBlocks
test_blocks = record {
  guards =
      record {
        latency_tracker_id = replicate 16 3;
        ttl_ms = 100;
        max_samples = 10;
        min_sample_threshold = 2;
        latency_threshold = 50;
        current_latency = 40;
      }
      ∷ [];
  resources = [];
  parameters = [];
}

abbrev pub test_pdu : List ℕ
test_pdu = wire_pdu test_blocks (replicate 4 0) []

parse_auth_tlv-append_auth_tlv_example :
    (packet : List ℕ) × (append_auth_tlv test_cipher test_key test_nonce (8 ∷ []) (5 ∷ 6 ∷ [])
      ≡ ok packet)
    × (length packet ≡ 1 + auth_header_size test_key + 2)
    × (take 1 packet ≡ 8 ∷ [])
    × (parse_auth_tlv test_cipher packet 1 test_key
          (cookie_hash_cache test_key)
          (aes_key_cache test_key)
        ≡ ok (5 ∷ 6 ∷ []))
parse_auth_tlv-append_auth_tlv_example =
    parse_auth_tlv-append_auth_tlv test_cipher test_key test_nonce (8 ∷ []) (5 ∷ 6 ∷ [])
      test_cipher-IsAead refl refl (omega arith)

parse_rate_response_lem_example :
    (packet : List ℕ) × (append_auth_tlv test_cipher test_key test_nonce
        (contents (tenant_fields (test_header 5)) [])
        test_pdu
      ≡ ok packet)
    × (parse_rate_response_with_auth test_cipher packet test_key
          (cookie_hash_cache test_key)
          (aes_key_cache test_key)
        ≡ ok (expected_result test_blocks 5 true))
parse_rate_response_lem_example =
    parse_rate_response_lem test_cipher test_key test_nonce (test_header 5) [] test_blocks
      (replicate 4 0) [] test_cipher-IsAead refl refl
      (record {
        type_fits = omega arith;
        size_fits = omega arith;
        key_fits = omega arith;
        id_length = refl;
        stamp_fits = omega arith;
        padding_length = refl;
      })
      refl refl
      (record {
        guards_fit = (
          record {
            id_length = refl;
            ttl_fits = omega arith;
            max_fits = omega arith;
            min_fits = omega arith;
            threshold_fits = omega arith;
            current_fits = omega arith;
          },
          tt,
        );
        resources_fit = tt;
        size_fits = omega arith;
      })
      refl (omega arith)

-- A packet without authentication, from the server `id`.
abbrev pub plain_packet : ℕ → List ℕ
plain_packet id =
    contents (tenant_fields (test_header id))
      (to_le_bytes 2 tlv_auth_none ++ to_le_bytes 2 4 ++ test_pdu)

abbrev pub parse_plain : List ℕ → Result CoreError RateLimitResult
parse_plain packet =
    parse_rate_response_with_auth test_cipher packet AuthMethod.none
      (cookie_hash_cache AuthMethod.none) (aes_key_cache AuthMethod.none)

pub parse_plain-packet : parse_plain (plain_packet 5) ≡ ok (expected_result test_blocks 5 true)
unfolding parse_rate_response_with_auth parse_tenant_header u16_at index slice read_tenant_header
    array_at to_array uint_at parse_auth_tlv parse_auth_body slice_from parse_rate_response_pdu
    parse_guards read_guard_block parse_resources cookie_hash_cache aes_key_cache
parse_plain-packet = refl

parse_rate_response_safe_example :
    Returns (parse_rate_response_with_auth test_cipher (9 ∷ 9 ∷ []) test_key none none)
parse_rate_response_safe_example =
    parse_rate_response_safe test_cipher (9 ∷ 9 ∷ []) test_key none none

peek_server_id-parse_example : peek_server_id (plain_packet 5) ≡ ok (some 5)
peek_server_id-parse_example =
    peek_server_id-parse test_cipher (plain_packet 5) AuthMethod.none
      (cookie_hash_cache AuthMethod.none) (aes_key_cache AuthMethod.none)
      (expected_result test_blocks 5 true) parse_plain-packet

parse_auth_tlv-finish_packet_example :
    (packet : List ℕ) × (finish_packet test_cipher test_key test_nonce (test_header 5) (5 ∷ 6 ∷ [])
      ≡ ok packet)
    × (length packet ≡ 74)
    × (parse_auth_tlv test_cipher packet 40 test_key
          (cookie_hash_cache test_key)
          (aes_key_cache test_key)
        ≡ ok (5 ∷ 6 ∷ []))
unfolding auth_header_size
parse_auth_tlv-finish_packet_example =
    parse_auth_tlv-finish_packet test_cipher test_key test_nonce (test_header 5) (5 ∷ 6 ∷ [])
      test_cipher-IsAead refl refl refl refl (omega arith)
