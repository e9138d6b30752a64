-- ===== src/Client/Response.antt =====
-- The parsing of a rate response in src/client.rs: tenant header, authentication TLV, PDU with its
-- guard and resource blocks, and the two peeks at the header.
pub mod Safe
pub mod RoundTrip
pub mod Wire
use rl_rust_client.Common.{
  ℕ, zero, suc, ◌+◌, List, [], ◌∷◌, length, all, Bool, not, ◌&&◌, ◌||◌, ltb, ◌==◌, if◌then◌else◌,
  Option, none, some, Result, ok, ◌>>=◌, ◌>>◌, bail, map_err,
}
use rl_rust_client.Common.Bytes.{slice, slice_from, array_at, uint_at, u16_at}
use rl_rust_client.Error.{CoreError, protocol, text, message, number}
use rl_rust_client.Protocol.{
  tlv_tenant, pdu_rate_response, TenantHeader, GuardBlock, ResourceBlock, read_tenant_header,
  read_guard_block, read_resource_block,
}
use rl_rust_client.Protocol.Cipher.{Cipher}
use rl_rust_client.Client.Auth.{AuthMethod, parse_auth_tlv}

abbrev pub tenant_tlv_len : ℕ
tenant_tlv_len = 40

abbrev pub pdu_header_len : ℕ
pdu_header_len = 8

-- `size_of::<GuardBlock>()` and `size_of::<ResourceBlock>()`.
abbrev pub guard_len : ℕ
guard_len = 36

abbrev pub resource_len : ℕ
resource_len = 28

pub record GuardResult : Type 0 where
  pub latency_tracker_id : List ℕ
  pub threshold_ms : ℕ
  pub current_latency_ms : ℕ
  pub passed : Bool

pub record ResourceResult : Type 0 where
  pub bucket_id : List ℕ
  pub tokens_deficit : ℕ
  pub actual_rate : ℕ

pub record RateLimitResult : Type 0 where
  pub success : Bool
  pub guard_results : List GuardResult
  pub resource_results : List ResourceResult
  pub server_id : ℕ
  pub steering_feedback : Bool

unfoldable pub parse_tenant_header : List ℕ → Result CoreError (TenantHeader × ℕ)
parse_tenant_header packet = do
  bail (ltb (length packet) 4) (protocol (text "Buffer too small for Tenant TLV header"))
  tenant_tlv_type ← u16_at packet 0 1
  bail (not (tenant_tlv_type == tlv_tenant)) (
      protocol (
        message "Expected Tenant TLV type {:#x}, got {:#x}"
          (number tlv_tenant ∷ number tenant_tlv_type ∷ [])))
  tenant_tlv_size ← u16_at packet 2 3
  bail (ltb tenant_tlv_size tenant_tlv_len) (protocol (text "Tenant TLV too small"))
  bail (ltb (length packet) tenant_tlv_size)
      (protocol (text "Buffer too small for Tenant TLV body"))
  window ← slice packet 0 tenant_tlv_size
  tenant_header ← map_err (λ e. protocol (text e)) (read_tenant_header window)
  ok (tenant_header, tenant_tlv_size)

abbrev pub guard_result : GuardBlock → GuardResult
guard_result block = record {
  latency_tracker_id = block.latency_tracker_id;
  threshold_ms = block.latency_threshold;
  current_latency_ms = block.current_latency;
  passed = ltb block.current_latency block.latency_threshold;
}

abbrev pub resource_result : ResourceBlock → ResourceResult
resource_result block = record {
  bucket_id = block.bucket_id;
  tokens_deficit = block.tokens_requested;
  actual_rate = block.rate_limit;
}

-- The loops over the blocks: the blocks left, and `pos`. Each answers its results and the new `pos`.
unfoldable pub parse_guards : ℕ → List ℕ → ℕ → Result CoreError (List GuardResult × ℕ)
parse_guards zero pdu_body pos = ok ([], pos)
parse_guards (suc left) pdu_body pos = do
  bail (ltb (length pdu_body) (pos + guard_len)) (protocol (text "Buffer too small for GuardBlock"))
  window ← slice_from pdu_body pos
  block ← map_err (λ e. protocol (text e)) (read_guard_block window)
  (results, end) ← parse_guards left pdu_body (pos + guard_len)
  ok (guard_result block ∷ results, end)

unfoldable pub parse_resources : ℕ → List ℕ → ℕ → Result CoreError (List ResourceResult × ℕ)
parse_resources zero pdu_body pos = ok ([], pos)
parse_resources (suc left) pdu_body pos = do
  bail (ltb (length pdu_body) (pos + resource_len))
      (protocol (text "Buffer too small for ResourceBlock"))
  window ← slice_from pdu_body pos
  block ← map_err (λ e. protocol (text e)) (read_resource_block window)
  (results, end) ← parse_resources left pdu_body (pos + resource_len)
  ok (resource_result block ∷ results, end)

-- `success`: all guards passed, and no resource has a deficit.
abbrev pub is_success : List GuardResult → List ResourceResult → Bool
is_success guards resources =
    all (λ g. g.passed) guards && all (λ r. r.tokens_deficit == 0) resources

unfoldable pub parse_rate_response_pdu : List ℕ → ℕ → Bool → Result CoreError RateLimitResult
parse_rate_response_pdu pdu_data server_id steering_feedback = do
  bail (ltb (length pdu_data) pdu_header_len) (protocol (text "Buffer too small for PDU header"))
  pdu_type ← u16_at pdu_data 0 1
  bail (not (pdu_type == pdu_rate_response))
      (protocol (message "Unexpected PDU type: {:#x}" (number pdu_type ∷ [])))
  pdu_size ← u16_at pdu_data 2 3
  bail (ltb pdu_size pdu_header_len) (protocol (text "Invalid PDU size"))
  bail (ltb (length pdu_data) pdu_size) (protocol (text "Incomplete PDU data"))
  pdu_body ← slice pdu_data pdu_header_len pdu_size
  bail (ltb (length pdu_body) 4) (protocol (text "Buffer too small for counts"))
  guard_count ← u16_at pdu_body 0 1
  resource_count ← u16_at pdu_body 2 3
  (guard_results, pos) ← parse_guards guard_count pdu_body 4
  (resource_results, _) ← parse_resources resource_count pdu_body pos
  ok (record {
    success = is_success guard_results resource_results;
    guard_results = guard_results;
    resource_results = resource_results;
    server_id = server_id;
    steering_feedback = steering_feedback;
  })

unfoldable pub parse_rate_response_with_auth :
    Cipher
    → List ℕ
    → AuthMethod
    → Option (List ℕ)
    → Option (List ℕ)
    → Result CoreError RateLimitResult
parse_rate_response_with_auth c packet auth_method cookie_hash_cache aes_key_cache = do
  (tenant_header, pos) ← parse_tenant_header packet
  pdu_data ← parse_auth_tlv c packet pos auth_method cookie_hash_cache aes_key_cache
  parse_rate_response_pdu pdu_data tenant_header.key_id (not (tenant_header.steering_feedback == 0))

-- The test that both peeks share: the tenant TLV is there, whole.
abbrev has_no_tenant : ℕ → ℕ → ℕ → Bool
has_no_tenant tlv_type tlv_size len =
    not (tlv_type == tlv_tenant) || ltb tlv_size 40 || ltb len tlv_size

unfoldable pub peek_server_id : List ℕ → Result CoreError (Option ℕ)
peek_server_id packet = if ltb (length packet) 12 then ok none else do
  tlv_type ← u16_at packet 0 1
  tlv_size ← u16_at packet 2 3
  if has_no_tenant tlv_type tlv_size (length packet)
      then ok none
      else do id ← uint_at 8 packet 4 12; ok (some id)

unfoldable pub peek_request_id : List ℕ → Result CoreError (Option (List ℕ))
peek_request_id packet = if ltb (length packet) 28 then ok none else do
  tlv_type ← u16_at packet 0 1
  tlv_size ← u16_at packet 2 3
  if has_no_tenant tlv_type tlv_size (length packet)
      then ok none
      else do id ← array_at 16 packet 12 28; ok (some id)
