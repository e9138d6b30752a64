-- ===== src/Protocol/RoundTrip.antt =====
-- The layouts of the blocks of src/protocol.rs, with their writers and readers.
use rl_rust_client.Common.{ℕ, ◌≤◌, ◌≡◌, arith, List, [], ◌∷◌, length, take, drop, ok, le→ltb-false}
use rl_rust_client.Common.Bytes.{
  IsUint, to_le_bytes, Fields, contents, length-contents, write_fields_lem, store-copy_range,
  array_at-contents, uint_at-contents, u16_at-contents, index-contents,
}
use rl_rust_client.Protocol.{
  TenantHeader, GuardBlock, ResourceBlock, ServiceLatencyBlock, write_guard_block, read_guard_block,
  write_resource_block, read_resource_block, write_tenant_header, read_tenant_header,
  write_service_latency_block,
}

-- The ranges of the fields: what the Rust types say.
pub record IsTenantHeader (h : TenantHeader) : Type 0 where
  pub type_fits : IsUint 2 h.tlv_type
  pub size_fits : IsUint 2 h.tlv_size
  pub key_fits : IsUint 8 h.key_id
  pub id_length : length h.unique_id ≡ 16
  pub stamp_fits : IsUint 8 h.time_stamp
  pub padding_length : length h.padding ≡ 2

pub record IsGuardBlock (g : GuardBlock) : Type 0 where
  pub id_length : length g.latency_tracker_id ≡ 16
  pub ttl_fits : IsUint 4 g.ttl_ms
  pub max_fits : IsUint 4 g.max_samples
  pub min_fits : IsUint 4 g.min_sample_threshold
  pub threshold_fits : IsUint 4 g.latency_threshold
  pub current_fits : IsUint 4 g.current_latency

pub record IsResourceBlock (r : ResourceBlock) : Type 0 where
  pub id_length : length r.bucket_id ≡ 16
  pub window_fits : IsUint 4 r.window_size_ms
  pub rate_fits : IsUint 4 r.rate_limit
  pub tokens_fit : IsUint 2 r.tokens_requested
  pub padding_fits : IsUint 2 r.padding

-- The layout of each block on the wire.
abbrev pub tenant_fields : TenantHeader → Fields
tenant_fields h =
    (2, to_le_bytes 2 h.tlv_type)
    ∷ (2, to_le_bytes 2 h.tlv_size)
    ∷ (8, to_le_bytes 8 h.key_id)
    ∷ (16, h.unique_id)
    ∷ (8, to_le_bytes 8 h.time_stamp)
    ∷ (1, h.steering_feedback ∷ [])
    ∷ (1, h.tenant_mgmt_flag ∷ [])
    ∷ (2, h.padding)
    ∷ []

abbrev pub guard_fields : GuardBlock → Fields
guard_fields g =
    (16, g.latency_tracker_id)
    ∷ (4, to_le_bytes 4 g.ttl_ms)
    ∷ (4, to_le_bytes 4 g.max_samples)
    ∷ (4, to_le_bytes 4 g.min_sample_threshold)
    ∷ (4, to_le_bytes 4 g.latency_threshold)
    ∷ (4, to_le_bytes 4 g.current_latency)
    ∷ []

abbrev pub resource_fields : ResourceBlock → Fields
resource_fields r =
    (16, r.bucket_id)
    ∷ (4, to_le_bytes 4 r.window_size_ms)
    ∷ (4, to_le_bytes 4 r.rate_limit)
    ∷ (2, to_le_bytes 2 r.tokens_requested)
    ∷ (2, to_le_bytes 2 r.padding)
    ∷ []

abbrev pub service_fields : ServiceLatencyBlock → Fields
service_fields s =
    (16, s.latency_tracker_id)
    ∷ (4, to_le_bytes 4 s.ttl_ms)
    ∷ (4, to_le_bytes 4 s.max_samples)
    ∷ (4, to_le_bytes 4 s.min_sample_threshold)
    ∷ (4, to_le_bytes 4 s.observed_latency)
    ∷ []

module _ {E : Type 0} where
  pub write_tenant_header_lem :
      (h : TenantHeader) (buffer : List ℕ)
      → length h.unique_id ≡ 16
      → length h.padding ≡ 2
      → 40 ≤ length buffer
      → write_tenant_header {E = E} h buffer ≡ ok (contents (tenant_fields h) (drop 40 buffer))
  unfolding write_tenant_header
  write_tenant_header_lem h buffer u p k =
      simp store-copy_range (write_fields_lem (tenant_fields h) buffer (omega arith) k)

  pub write_guard_block_lem :
      (g : GuardBlock) (buffer : List ℕ)
      → length g.latency_tracker_id ≡ 16
      → 36 ≤ length buffer
      → write_guard_block {E = E} g buffer ≡ ok (contents (guard_fields g) (drop 36 buffer))
  unfolding write_guard_block
  write_guard_block_lem g buffer h k = write_fields_lem (guard_fields g) buffer (omega arith) k

  pub write_resource_block_lem :
      (r : ResourceBlock) (buffer : List ℕ)
      → length r.bucket_id ≡ 16
      → 28 ≤ length buffer
      → write_resource_block {E = E} r buffer ≡ ok (contents (resource_fields r) (drop 28 buffer))
  unfolding write_resource_block
  write_resource_block_lem r buffer h k =
      write_fields_lem (resource_fields r) buffer (omega arith) k

  pub write_service_latency_block_lem :
      (s : ServiceLatencyBlock) (buffer : List ℕ)
      → length s.latency_tracker_id ≡ 16
      → 32 ≤ length buffer
      → write_service_latency_block {E = E} s buffer
        ≡ ok (contents (service_fields s) (drop 32 buffer))
  unfolding write_service_latency_block
  write_service_latency_block_lem s buffer h k =
      write_fields_lem (service_fields s) buffer (omega arith) k

pub read_guard_block_lem :
    (g : GuardBlock) (rest : List ℕ)
    → IsGuardBlock g
    → read_guard_block (contents (guard_fields g) rest) ≡ ok g
unfolding read_guard_block
read_guard_block_lem g rest h =
    let f = guard_fields g in
    rw (
      le→ltb-false (length (contents f rest)) 36
          (omega (arith, length-contents f rest (omega arith))),
      array_at-contents [] tt 16 g.latency_tracker_id _ h.id_length,
      uint_at-contents (take 1 f) (omega arith) 4 g.ttl_ms _ h.ttl_fits,
      uint_at-contents (take 2 f) (omega arith) 4 g.max_samples _ h.max_fits,
      uint_at-contents (take 3 f) (omega arith) 4 g.min_sample_threshold _ h.min_fits,
      uint_at-contents (take 4 f) (omega arith) 4 g.latency_threshold _ h.threshold_fits,
      uint_at-contents (take 5 f) (omega arith) 4 g.current_latency rest h.current_fits,
    )

pub read_resource_block_lem :
    (r : ResourceBlock) (rest : List ℕ)
    → IsResourceBlock r
    → read_resource_block (contents (resource_fields r) rest) ≡ ok r
unfolding read_resource_block
read_resource_block_lem r rest h =
    let f = resource_fields r in
    rw (
      le→ltb-false (length (contents f rest)) 28
          (omega (arith, length-contents f rest (omega arith))),
      array_at-contents [] tt 16 r.bucket_id _ h.id_length,
      uint_at-contents (take 1 f) (omega arith) 4 r.window_size_ms _ h.window_fits,
      uint_at-contents (take 2 f) (omega arith) 4 r.rate_limit _ h.rate_fits,
      uint_at-contents (take 3 f) (omega arith) 2 r.tokens_requested _ h.tokens_fit,
      uint_at-contents (take 4 f) (omega arith) 2 r.padding rest h.padding_fits,
    )

pub read_tenant_header_lem :
    (h : TenantHeader) (rest : List ℕ)
    → IsTenantHeader h
    → read_tenant_header (contents (tenant_fields h) rest) ≡ ok h
unfolding read_tenant_header
read_tenant_header_lem h rest v =
    let f = tenant_fields h in
    rw (
      le→ltb-false (length (contents f rest)) 40
          (omega (arith, length-contents f rest (omega arith))),
      array_at-contents (take 3 f) (omega arith) 16 h.unique_id _ v.id_length,
      array_at-contents (take 7 f) (omega arith) 2 h.padding rest v.padding_length,
      u16_at-contents [] tt h.tlv_type _ v.type_fits,
      u16_at-contents (take 1 f) (omega arith) h.tlv_size _ v.size_fits,
      uint_at-contents (take 2 f) (omega arith) 8 h.key_id _ v.key_fits,
      uint_at-contents (take 4 f) (omega arith) 8 h.time_stamp _ v.stamp_fits,
      index-contents (take 5 f) (omega arith) h.steering_feedback _,
      index-contents (take 6 f) (omega arith) h.tenant_mgmt_flag _,
    )
