-- ===== src/Client/Request.antt =====
-- The building of requests and latency reports in src/client.rs.
pub mod Layout
use rl_rust_client.Common.{
  ℕ, zero, suc, ◌+◌, ◌-◌, ◌%◌, ◌^◌, List, [], ◌∷◌, ◌++◌, length, replicate, take, Bool, ltb,
  if◌then◌else◌, Option, none, some, Result, ok, err, bail, ◌>>=◌, ◌>>◌,
}
use rl_rust_client.Common.Bytes.{to_le_bytes}
use rl_rust_client.Error.{CoreError, protocol, text, Message, message, number, bytes}
use rl_rust_client.Protocol.{
  GuardBlock, ResourceBlock, ServiceLatencyBlock, TenantHeader, tlv_tenant, tlv_metrics_label,
  pdu_rate_request, write_tenant_header, write_guard_block, write_resource_block,
  write_service_latency_block,
}
use rl_rust_client.Protocol.Id.{Hash, derive_bucket_id, derive_latency_tracker_id}
use rl_rust_client.Client.Response.{tenant_tlv_len, pdu_header_len, guard_len, resource_len}

pub record ResourceRequest : Type 0 where
  pub bucket_name : List ℕ
  pub window_size_ms : ℕ
  pub rate_limit : ℕ
  pub tokens_requested : ℕ

pub record LatencyGuard : Type 0 where
  pub latency_tracker_name : List ℕ
  pub threshold_ms : ℕ
  pub ttl_ms : ℕ
  pub max_samples : ℕ
  pub min_sample_threshold : ℕ

pub record ServiceLatencyReport : Type 0 where
  pub latency_tracker_name : List ℕ
  pub observed_latency : ℕ
  pub ttl_ms : ℕ
  pub max_samples : ℕ
  pub min_sample_threshold : ℕ

abbrev pub u16 : ℕ → ℕ
u16 n = n % 2 ^ 16

-- By the key id, the flag of the configuration, the request id and the time in milliseconds.
unfoldable pub build_tenant_header : ℕ → ℕ → List ℕ → ℕ → TenantHeader
build_tenant_header key_id steering_feedback request_id now = record {
  tlv_type = tlv_tenant;
  tlv_size = u16 tenant_tlv_len;
  key_id = key_id;
  unique_id = request_id;
  time_stamp = now;
  steering_feedback = steering_feedback;
  tenant_mgmt_flag = 0;
  padding = 0 ∷ 0 ∷ [];
}

-- `append_metrics_label_tlv`
abbrev pub label_padding : ℕ → ℕ
label_padding body_len = (4 - body_len % 4) % 4

unfoldable pub append_metrics_label_tlv : List ℕ → List ℕ → Result CoreError (List ℕ)
append_metrics_label_tlv pdu_body label = do
  bail (ltb 65535 (length label)) (protocol (text "Metrics label too long"))
  let body_len = 2 + length label
  let padding = label_padding body_len
  let tlv_size = 4 + body_len + padding
  bail (ltb 65535 tlv_size) (protocol (text "Metrics label TLV too large"))
  ok (
      pdu_body
      ++ (to_le_bytes 2 tlv_metrics_label
          ++ (to_le_bytes 2 (u16 tlv_size)
              ++ (to_le_bytes 2 (u16 (length label)) ++ (label ++ take padding (replicate 4 0))))))

abbrev pub guard_block : List ℕ → LatencyGuard → GuardBlock
guard_block id guard = record {
  latency_tracker_id = id;
  ttl_ms = guard.ttl_ms;
  max_samples = guard.max_samples;
  min_sample_threshold = guard.min_sample_threshold;
  latency_threshold = guard.threshold_ms;
  current_latency = 0;
}

abbrev pub resource_block : List ℕ → ResourceRequest → ResourceBlock
resource_block id resource = record {
  bucket_id = id;
  window_size_ms = resource.window_size_ms;
  rate_limit = resource.rate_limit;
  tokens_requested = resource.tokens_requested;
  padding = 0;
}

-- The loops over the guards and the resources, with the body so far. A block is written into zeros
-- behind the body.
unfoldable pub append_guards : Hash → List LatencyGuard → List ℕ → Result CoreError (List ℕ)
append_guards hash [] body = ok body
append_guards hash (guard ∷ guards) body = do
  id ←
      derive_latency_tracker_id hash guard.latency_tracker_name guard.ttl_ms guard.max_samples
        guard.min_sample_threshold
  block ← write_guard_block (guard_block id guard) (replicate guard_len 0)
  append_guards hash guards (body ++ block)

unfoldable pub append_resources : Hash → List ResourceRequest → List ℕ → Result CoreError (List ℕ)
append_resources hash [] body = ok body
append_resources hash (resource ∷ resources) body = do
  id ← derive_bucket_id hash resource.bucket_name resource.window_size_ms resource.rate_limit
  block ← write_resource_block (resource_block id resource) (replicate resource_len 0)
  append_resources hash resources (body ++ block)

abbrev pub append_label : Option (List ℕ) → List ℕ → Result CoreError (List ℕ)
append_label none body = ok body
append_label (some label) body = append_metrics_label_tlv body label

unfoldable pub build_rate_request_body :
    Hash → List ResourceRequest → List LatencyGuard → Option (List ℕ) → Result CoreError (List ℕ)
build_rate_request_body hash resources guards metrics_label = do
  let counts = to_le_bytes 2 (u16 (length guards)) ++ to_le_bytes 2 (u16 (length resources))
  with_guards ← append_guards hash guards counts
  body ← append_resources hash resources with_guards
  append_label metrics_label body

-- The loop over the reports, with the body so far.
unfoldable pub append_reports :
    Hash → List ServiceLatencyReport → List ℕ → Result CoreError (List ℕ)
append_reports hash [] body = ok body
append_reports hash (report ∷ reports) body = do
  id ←
      derive_latency_tracker_id hash report.latency_tracker_name report.ttl_ms report.max_samples
        report.min_sample_threshold
  block ←
      write_service_latency_block
        (record {
          latency_tracker_id = id;
          ttl_ms = report.ttl_ms;
          max_samples = report.max_samples;
          min_sample_threshold = report.min_sample_threshold;
          observed_latency = report.observed_latency;
        })
        (replicate 32 0)
  append_reports hash reports (body ++ block)

unfoldable pub build_latency_report_body :
    Hash → List ServiceLatencyReport → Result CoreError (List ℕ)
build_latency_report_body hash reports =
    append_reports hash reports (to_le_bytes 2 (u16 (length reports)) ++ 0 ∷ 0 ∷ [])

unfoldable pub build_pdu : ℕ → List ℕ → Result CoreError (List ℕ)
build_pdu pdu_type body = do
  let pdu_size = pdu_header_len + length body
  bail (ltb 65535 pdu_size) (protocol (text "PDU too large"))
  ok (to_le_bytes 2 pdu_type ++ to_le_bytes 2 (u16 pdu_size) ++ replicate 4 0 ++ body)

unfoldable pub build_rate_request_pdu : ℕ → List ℕ → Result CoreError (List ℕ)
build_rate_request_pdu dedup_ttl_ms body = do
  let pdu_size = pdu_header_len + length body
  bail (ltb 65535 pdu_size) (protocol (text "PDU too large"))
  ok (
      to_le_bytes 2 pdu_rate_request
      ++ to_le_bytes 2 (u16 pdu_size)
      ++ to_le_bytes 4 dedup_ttl_ms
      ++ body)

-- The first resource whose window exceeds the limit.
unfoldable pub find_wide : ℕ → List ResourceRequest → Option ResourceRequest
find_wide limit [] = none
find_wide limit (r ∷ rs) =
    let rest = find_wide limit rs in if ltb limit r.window_size_ms then some r else rest

abbrev pub wide_window : ℕ → ResourceRequest → CoreError
wide_window limit r = protocol (
    message "Resource '{}' window_size_ms {} exceeds rate_window_size_ms_max {}"
      (bytes r.bucket_name ∷ number r.window_size_ms ∷ number limit ∷ []))

-- What the search answers, as a result.
abbrev pub no_wide : ℕ → Option ResourceRequest → Result CoreError (Unit {0})
no_wide limit none = ok tt
no_wide limit (some r) = err (wide_window limit r)

unfoldable pub validate_rate_windows_against_quota :
    List ResourceRequest → Option ℕ → Result CoreError (Unit {0})
validate_rate_windows_against_quota resources none = ok tt
validate_rate_windows_against_quota resources (some limit) =
    no_wide limit (find_wide limit resources)
