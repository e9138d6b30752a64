-- ===== src/Client/Request/Layout.antt =====
-- The layout of a rate request's body, as `build_rate_request_body` of src/client.rs makes it.
use rl_rust_client.Common.{
  ℕ, zero, suc, ◌+◌, ◌-◌, ◌*◌, ◌%◌, ◌^◌, ◌≤◌, ◌<◌, ◌≡◌, refl, sym, ap, ◌∙◌, arith, List, [], ◌∷◌,
  ◌++◌, map, length, length-append, length-take, length-replicate, take, replicate, All,
  le→ltb-false, Option, none, some, ok,
}
use rl_rust_client.Common.Bytes.{to_le_bytes, contents, contents-append, slice_lem, to_array_lem}
use rl_rust_client.Error.{CoreError}
use rl_rust_client.Protocol.{tlv_metrics_label, GuardBlock, ResourceBlock}
use rl_rust_client.Protocol.RoundTrip.{
  guard_fields, resource_fields, write_guard_block_lem, write_resource_block_lem,
}
use rl_rust_client.Protocol.Id.{
  Hash, preimage, resource_id_domain, latency_tracker_id_domain, derive_content_id,
  derive_bucket_id, derive_latency_tracker_id,
}
use rl_rust_client.Client.Response.Wire.{wire_guards, wire_resources}
use rl_rust_client.Client.Request.{
  ResourceRequest, LatencyGuard, u16, append_guards, append_resources, append_label,
  append_metrics_label_tlv, label_padding, build_rate_request_body,
}
use mathlib.Core.List.{append_assoc, append-nil}

-- The digest has 32 bytes.
abbrev pub IsHash : Hash → Type 0
IsHash hash = (bytes : List ℕ) → length (hash bytes) ≡ 32

-- The first 16 bytes of the digest.
abbrev pub content_id : Hash → List ℕ → List ℕ → List ℕ → List ℕ
content_id hash domain name fields = take 16 (hash (preimage domain name fields))

pub length-content_id :
    (hash : Hash) (domain name fields : List ℕ)
    → IsHash hash
    → length (content_id hash domain name fields) ≡ 16
length-content_id hash domain name fields h =
    length-take 16 (hash (preimage domain name fields))
    ∙ omega (arith, h (preimage domain name fields))

pub derive_content_id_lem :
    {E : Type 0} (hash : Hash) (domain name fields : List ℕ)
    → IsHash hash
    → length name < 2 ^ 32
    → derive_content_id {E = E} hash domain name fields ≡ ok (content_id hash domain name fields)
unfolding derive_content_id
derive_content_id_lem {E = E} hash domain name fields h fits = rw (
  le→ltb-false (2 ^ 32 - 1) (length name) (omega arith),
  slice_lem {E = E} (hash (preimage domain name fields)) 0 16 (omega arith)
      (omega (arith, h (preimage domain name fields))),
  to_array_lem {E = E} 16 (content_id hash domain name fields)
      (length-content_id hash domain name fields h),
)

-- The blocks that a request stands for.
abbrev pub guard_of : Hash → LatencyGuard → GuardBlock
guard_of hash g = record {
  latency_tracker_id =
      content_id hash latency_tracker_id_domain g.latency_tracker_name
        (g.ttl_ms ∷ g.max_samples ∷ g.min_sample_threshold ∷ []);
  ttl_ms = g.ttl_ms;
  max_samples = g.max_samples;
  min_sample_threshold = g.min_sample_threshold;
  latency_threshold = g.threshold_ms;
  current_latency = 0;
}

abbrev pub resource_of : Hash → ResourceRequest → ResourceBlock
resource_of hash r = record {
  bucket_id =
      content_id hash resource_id_domain r.bucket_name (r.window_size_ms ∷ r.rate_limit ∷ []);
  window_size_ms = r.window_size_ms;
  rate_limit = r.rate_limit;
  tokens_requested = r.tokens_requested;
  padding = 0;
}

-- The names fit the length field.
abbrev pub IsGuardName : LatencyGuard → Type 0
IsGuardName g = length g.latency_tracker_name < 2 ^ 32

abbrev pub IsResourceName : ResourceRequest → Type 0
IsResourceName r = length r.bucket_name < 2 ^ 32

module _ (hash : Hash) (h : IsHash hash) where
  append_guards_lem :
      (gs : List LatencyGuard) (body : List ℕ)
      → All IsGuardName gs
      → append_guards hash gs body ≡ ok (body ++ wire_guards (map (guard_of hash) gs) [])
  unfolding append_guards derive_latency_tracker_id
  append_guards_lem [] body n = ap ok (sym (append-nil body))
  append_guards_lem (g ∷ gs) body (n, ns) =
      let fields = g.ttl_ms ∷ g.max_samples ∷ g.min_sample_threshold ∷ [] in
      let block = contents (guard_fields (guard_of hash g)) [] in
      rw
        (
          derive_content_id_lem hash latency_tracker_id_domain g.latency_tracker_name fields h n,
          write_guard_block_lem {E = CoreError} (guard_of hash g) (replicate 36 0)
              (length-content_id hash latency_tracker_id_domain g.latency_tracker_name fields h)
              (omega arith),
        )
        (append_guards_lem gs (body ++ block) ns
          ∙ ap ok (
              append_assoc body block (wire_guards (map (guard_of hash) gs) [])
              ∙ ap (λ l. body ++ l)
                  (contents-append (guard_fields (guard_of hash g))
                    (wire_guards (map (guard_of hash) gs) []))))

  append_resources_lem :
      (rs : List ResourceRequest) (body : List ℕ)
      → All IsResourceName rs
      → append_resources hash rs body ≡ ok (body ++ wire_resources (map (resource_of hash) rs) [])
  unfolding append_resources derive_bucket_id
  append_resources_lem [] body n = ap ok (sym (append-nil body))
  append_resources_lem (r ∷ rs) body (n, ns) =
      let fields = r.window_size_ms ∷ r.rate_limit ∷ [] in
      let block = contents (resource_fields (resource_of hash r)) [] in
      rw
        (
          derive_content_id_lem hash resource_id_domain r.bucket_name fields h n,
          write_resource_block_lem {E = CoreError} (resource_of hash r) (replicate 28 0)
              (length-content_id hash resource_id_domain r.bucket_name fields h) (omega arith),
        )
        (append_resources_lem rs (body ++ block) ns
          ∙ ap ok (
              append_assoc body block (wire_resources (map (resource_of hash) rs) [])
              ∙ ap (λ l. body ++ l)
                  (contents-append (resource_fields (resource_of hash r))
                    (wire_resources (map (resource_of hash) rs) []))))

-- The zeros that fill the label's TLV up to a multiple of 4 bytes.
abbrev pub filler : ℕ → List ℕ
filler len = replicate ((2 + 3 * len) % 4) 0

-- The TLV of a label: type, size, the label's length, the label and the zeros.
abbrev pub label_tlv : Option (List ℕ) → List ℕ
label_tlv none = []
label_tlv (some label) =
    to_le_bytes 2 tlv_metrics_label
    ++ (to_le_bytes 2 (6 + length label + length (filler (length label)))
        ++ (to_le_bytes 2 (length label) ++ (label ++ filler (length label))))

abbrev pub LabelFits : Option (List ℕ) → Type 0
LabelFits none = Unit
LabelFits (some label) = length label ≤ 65_526

take-replicate : (k n : ℕ) → k ≤ n → take k (replicate {A = ℕ} n 0) ≡ replicate k 0
take-replicate zero n h = refl
take-replicate (suc k) zero h = absurd (omega arith)
take-replicate (suc k) (suc n) h = ap (λ (l : List ℕ). 0 ∷ l) (take-replicate k n (omega arith))

padding_lem : (len : ℕ) → label_padding (2 + len) ≡ (2 + 3 * len) % 4
padding_lem len = omega arith

length-filler : (len : ℕ) → length (filler len) ≡ (2 + 3 * len) % 4
length-filler len = length-replicate ((2 + 3 * len) % 4) 0

filler_lem : (len : ℕ) → take (label_padding (2 + len)) (replicate 4 0) ≡ filler len
filler_lem len =
    take-replicate (label_padding (2 + len)) 4 (omega arith)
    ∙ ap (λ n. replicate n 0) (padding_lem len)

-- A label's TLV by its parts, behind the body.
abbrev tlv_from : List ℕ → List ℕ → ℕ → ℕ → List ℕ → List ℕ
tlv_from body label size len zeros =
    body
    ++ (to_le_bytes 2 tlv_metrics_label
        ++ (to_le_bytes 2 size ++ (to_le_bytes 2 len ++ (label ++ zeros))))

append_label_lem :
    (label : Option (List ℕ)) (body : List ℕ)
    → LabelFits label
    → append_label label body ≡ ok (body ++ label_tlv label)
unfolding append_metrics_label_tlv
append_label_lem none body fits = ap ok (sym (append-nil body))
append_label_lem (some label) body fits =
    let len = length label in
    let size = 6 + len + length (filler len) in
    let pad = label_padding (2 + len) in
    let zeros : List ℕ = take pad (replicate 4 0) in
    let size_eq : u16 (4 + (2 + len) + pad) ≡ size = omega (arith, length-filler len) in
    let len_eq : u16 len ≡ len = omega arith in
    rw
      (
        le→ltb-false 65535 (length label) (omega arith),
        le→ltb-false 65535 (4 + (2 + len) + pad) (omega arith),
      )
      (ap (λ n. ok (tlv_from body label n (u16 len) zeros)) size_eq
        ∙ ap (λ n. ok (tlv_from body label size n zeros)) len_eq
        ∙ ap (λ l. ok (tlv_from body label size len l)) (filler_lem len))

label_tlv-aligned : (label : Option (List ℕ)) → length (label_tlv label) % 4 ≡ 0
label_tlv-aligned none = refl
label_tlv-aligned (some label) =
    let len = length label in omega (arith, length-append {0} label (filler len), length-filler len)

pub build_rate_request_body_lem :
    (hash : Hash) (resources : List ResourceRequest) (guards : List LatencyGuard)
    (label : Option (List ℕ))
    → IsHash hash
    → All IsResourceName resources
    → All IsGuardName guards
    → LabelFits label
    → (build_rate_request_body hash resources guards label
        ≡ ok (
            to_le_bytes 2 (u16 (length guards))
            ++ to_le_bytes 2 (u16 (length resources))
            ++ wire_guards (map (guard_of hash) guards) []
            ++ wire_resources (map (resource_of hash) resources) []
            ++ label_tlv label))
      × (length (label_tlv label) % 4 ≡ 0)
unfolding build_rate_request_body
build_rate_request_body_lem hash resources guards label h rs gs fits =
    let counts = to_le_bytes 2 (u16 (length guards)) ++ to_le_bytes 2 (u16 (length resources)) in
    let wg = wire_guards (map (guard_of hash) guards) [] in
    let wr = wire_resources (map (resource_of hash) resources) [] in
    (
      rw (
        append_guards_lem hash h guards counts gs,
        append_resources_lem hash h resources (counts ++ wg) rs,
        append_label_lem label ((counts ++ wg) ++ wr) fits,
      ),
      label_tlv-aligned label,
    )
