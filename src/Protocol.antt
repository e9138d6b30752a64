-- ===== src/Protocol.antt =====
-- src/protocol.rs: the constants of the wire protocol and the blocks with a fixed layout, with
-- their `write_to_buffer` and `read_from_buffer`. A byte string is a list of numbers, an array
-- `[u8; n]` a list of length `n`, and a buffer that is written is passed on.
pub mod RoundTrip
pub mod Cipher
pub mod Id
use rl_rust_client.Common.{ℕ, ◌+◌, List, [], ◌∷◌, ltb, length, Result, ok, ◌>>=◌, ◌>>◌, bail}
use rl_rust_client.Common.Bytes.{to_le_bytes, copy_range, store, index, array_at, uint_at, u16_at}
use Prim.Native.String.{String}

abbrev pub tlv_tenant : ℕ
tlv_tenant = 0x4C52

abbrev pub tlv_auth_none : ℕ
tlv_auth_none = 0x414E

abbrev pub tlv_auth_cookie : ℕ
tlv_auth_cookie = 0x4143

abbrev pub tlv_auth_aes : ℕ
tlv_auth_aes = 0x4541

abbrev pub tlv_metrics_label : ℕ
tlv_metrics_label = 0x4C4D

abbrev pub pdu_rate_request : ℕ
pdu_rate_request = 0x5452

abbrev pub pdu_rate_response : ℕ
pdu_rate_response = 0x5252

abbrev pub pdu_latency_report : ℕ
pdu_latency_report = 0x524C

abbrev pub guard_block_wire_len : ℕ
guard_block_wire_len = 36

abbrev pub service_latency_block_wire_len : ℕ
service_latency_block_wire_len = 32

pub record TenantHeader : Type 0 where
  pub tlv_type : ℕ
  pub tlv_size : ℕ
  pub key_id : ℕ
  pub unique_id : List ℕ
  pub time_stamp : ℕ
  pub steering_feedback : ℕ
  pub tenant_mgmt_flag : ℕ
  pub padding : List ℕ

pub record GuardBlock : Type 0 where
  pub latency_tracker_id : List ℕ
  pub ttl_ms : ℕ
  pub max_samples : ℕ
  pub min_sample_threshold : ℕ
  pub latency_threshold : ℕ
  pub current_latency : ℕ

pub record ResourceBlock : Type 0 where
  pub bucket_id : List ℕ
  pub window_size_ms : ℕ
  pub rate_limit : ℕ
  pub tokens_requested : ℕ
  pub padding : ℕ

pub record ServiceLatencyBlock : Type 0 where
  pub latency_tracker_id : List ℕ
  pub ttl_ms : ℕ
  pub max_samples : ℕ
  pub min_sample_threshold : ℕ
  pub observed_latency : ℕ

module _ {E : Type 0} where
  unfoldable pub write_tenant_header : TenantHeader → List ℕ → Result E (List ℕ)
  write_tenant_header h b₀ = do
    b₁ ← copy_range b₀ 0 2 (to_le_bytes 2 h.tlv_type)
    b₂ ← copy_range b₁ 2 4 (to_le_bytes 2 h.tlv_size)
    b₃ ← copy_range b₂ 4 12 (to_le_bytes 8 h.key_id)
    b₄ ← copy_range b₃ 12 28 h.unique_id
    b₅ ← copy_range b₄ 28 36 (to_le_bytes 8 h.time_stamp)
    b₆ ← store b₅ 36 h.steering_feedback
    b₇ ← store b₆ 37 h.tenant_mgmt_flag
    b₈ ← copy_range b₇ 38 40 h.padding
    ok b₈

  unfoldable pub write_guard_block : GuardBlock → List ℕ → Result E (List ℕ)
  write_guard_block g b₀ = do
    b₁ ← copy_range b₀ 0 16 g.latency_tracker_id
    b₂ ← copy_range b₁ 16 20 (to_le_bytes 4 g.ttl_ms)
    b₃ ← copy_range b₂ 20 24 (to_le_bytes 4 g.max_samples)
    b₄ ← copy_range b₃ 24 28 (to_le_bytes 4 g.min_sample_threshold)
    b₅ ← copy_range b₄ 28 32 (to_le_bytes 4 g.latency_threshold)
    b₆ ← copy_range b₅ 32 36 (to_le_bytes 4 g.current_latency)
    ok b₆

  unfoldable pub write_resource_block : ResourceBlock → List ℕ → Result E (List ℕ)
  write_resource_block r b₀ = do
    b₁ ← copy_range b₀ 0 16 r.bucket_id
    b₂ ← copy_range b₁ 16 20 (to_le_bytes 4 r.window_size_ms)
    b₃ ← copy_range b₂ 20 24 (to_le_bytes 4 r.rate_limit)
    b₄ ← copy_range b₃ 24 26 (to_le_bytes 2 r.tokens_requested)
    b₅ ← copy_range b₄ 26 28 (to_le_bytes 2 r.padding)
    ok b₅

  unfoldable pub write_service_latency_block : ServiceLatencyBlock → List ℕ → Result E (List ℕ)
  write_service_latency_block s b₀ = do
    b₁ ← copy_range b₀ 0 16 s.latency_tracker_id
    b₂ ← copy_range b₁ 16 20 (to_le_bytes 4 s.ttl_ms)
    b₃ ← copy_range b₂ 20 24 (to_le_bytes 4 s.max_samples)
    b₄ ← copy_range b₃ 24 28 (to_le_bytes 4 s.min_sample_threshold)
    b₅ ← copy_range b₄ 28 32 (to_le_bytes 4 s.observed_latency)
    ok b₅

unfoldable pub read_tenant_header : List ℕ → Result String TenantHeader
read_tenant_header buffer = do
  bail (ltb (length buffer) 40) "Buffer too small for TenantHeader"
  unique_id ← array_at 16 buffer 12 28
  padding ← array_at 2 buffer 38 40
  tlv_type ← u16_at buffer 0 1
  tlv_size ← u16_at buffer 2 3
  key_id ← uint_at 8 buffer 4 12
  time_stamp ← uint_at 8 buffer 28 36
  steering_feedback ← index buffer 36
  tenant_mgmt_flag ← index buffer 37
  ok (record {
    tlv_type = tlv_type;
    tlv_size = tlv_size;
    key_id = key_id;
    unique_id = unique_id;
    time_stamp = time_stamp;
    steering_feedback = steering_feedback;
    tenant_mgmt_flag = tenant_mgmt_flag;
    padding = padding;
  })

unfoldable pub read_guard_block : List ℕ → Result String GuardBlock
read_guard_block buffer = do
  bail (ltb (length buffer) guard_block_wire_len) "Buffer too small for GuardBlock"
  latency_tracker_id ← array_at 16 buffer 0 16
  ttl_ms ← uint_at 4 buffer 16 20
  max_samples ← uint_at 4 buffer 20 24
  min_sample_threshold ← uint_at 4 buffer 24 28
  latency_threshold ← uint_at 4 buffer 28 32
  current_latency ← uint_at 4 buffer 32 36
  ok (record {
    latency_tracker_id = latency_tracker_id;
    ttl_ms = ttl_ms;
    max_samples = max_samples;
    min_sample_threshold = min_sample_threshold;
    latency_threshold = latency_threshold;
    current_latency = current_latency;
  })

unfoldable pub read_resource_block : List ℕ → Result String ResourceBlock
read_resource_block buffer = do
  bail (ltb (length buffer) 28) "Buffer too small for ResourceBlock"
  bucket_id ← array_at 16 buffer 0 16
  window_size_ms ← uint_at 4 buffer 16 20
  rate_limit ← uint_at 4 buffer 20 24
  tokens_requested ← uint_at 2 buffer 24 26
  padding ← uint_at 2 buffer 26 28
  ok (record {
    bucket_id = bucket_id;
    window_size_ms = window_size_ms;
    rate_limit = rate_limit;
    tokens_requested = tokens_requested;
    padding = padding;
  })
