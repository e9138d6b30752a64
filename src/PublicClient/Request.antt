-- ===== src/PublicClient/Request.antt =====
-- `RequestBuilder` in src/public_client.rs. A label and a name are their bytes. The errors of its
-- operations are all configuration errors, which `into` wraps.
pub mod Built
use rl_rust_client.Common.{
  ℕ, ◌-◌, ◌^◌, List, [], ◌∷◌, ◌++◌, length, Bool, ltb, ◌==◌, if◌then◌else◌, Option, none, some,
  Result, ok, err, bail, ok_or, ◌>>=◌, ◌>>◌,
}
use rl_rust_client.Duration.{Duration, duration_to_u32_ms}
use rl_rust_client.Error.{
  ConfigurationError, invalid_metrics_label, invalid_token_quantity,
  resource_window_exceeds_api_key, too_many_request_entries,
}
use rl_rust_client.Model.{Resource, LatencyTracker}
use rl_rust_client.Client.Request.{ResourceRequest, LatencyGuard}
use rl_rust_client.ApiKey.Codec.{ApiKeyLimits}

abbrev pub max_metrics_label_len : ℕ
max_metrics_label_len = 65_526

-- The client that a builder borrows is there with its limits only.
pub record RequestBuilder : Type 0 where
  pub limits : ApiKeyLimits
  pub resources : List ResourceRequest
  pub guards : List LatencyGuard
  pub label : Option (List ℕ)

-- `Client::request`
unfoldable pub request : ApiKeyLimits → RequestBuilder
request limits = record { limits = limits; resources = []; guards = []; label = none }

unfoldable pub metrics_label : RequestBuilder → List ℕ → Result ConfigurationError RequestBuilder
metrics_label b label = do
  bail (ltb max_metrics_label_len (length label)) invalid_metrics_label
  ok record {
    limits = b.limits;
    resources = b.resources;
    guards = b.guards;
    label = if length label == 0 then none else some label;
  }

-- `u16::try_from(tokens).ok().filter(|tokens| *tokens > 0)`
abbrev pub token_quantity : ℕ → Option ℕ
token_quantity tokens =
    if ltb (2 ^ 16 - 1) tokens then none else if ltb 0 tokens then some tokens else none

unfoldable pub consume : RequestBuilder → Resource → ℕ → Result ConfigurationError RequestBuilder
consume b resource tokens = do
  tokens_requested ← ok_or (token_quantity tokens) invalid_token_quantity
  bail (ltb b.limits.rate_window_size_ms_max resource.window_ms) resource_window_exceeds_api_key
  bail (length b.resources == 2 ^ 16 - 1) (too_many_request_entries "resources")
  ok record {
    limits = b.limits;
    resources =
        b.resources
        ++ (record {
          bucket_name = resource.name;
          window_size_ms = resource.window_ms;
          rate_limit = resource.rate_limit;
          tokens_requested = tokens_requested;
        }
            ∷ []);
    guards = b.guards;
    label = b.label;
  }

unfoldable pub guard :
    RequestBuilder → LatencyTracker → Duration → Result ConfigurationError RequestBuilder
guard b tracker threshold = do
  bail (length b.guards == 2 ^ 16 - 1) (too_many_request_entries "guards")
  threshold_ms ← duration_to_u32_ms threshold "latency threshold"
  ok record {
    limits = b.limits;
    resources = b.resources;
    guards =
        b.guards
        ++ (record {
          latency_tracker_name = tracker.name;
          threshold_ms = threshold_ms;
          ttl_ms = tracker.sample_ttl_ms;
          max_samples = tracker.max_samples;
          min_sample_threshold = tracker.min_samples;
        }
            ∷ []);
    label = b.label;
  }
