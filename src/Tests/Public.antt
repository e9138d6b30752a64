-- ===== src/Tests/Public.antt =====
-- The public client: values, builders, names, and requests.
use rl_rust_client.Common.{
  ℕ, ◌^◌, ◌≤◌, ◌<◌, ◌≡◌, ◌↔◌, refl, arith, List, [], ◌∷◌, All, length, true, none, ok, err, Ensures,
}
use rl_rust_client.Duration.{from_millis}
use rl_rust_client.Error.{invalid_token_quantity}
use rl_rust_client.Policy.Request.{default_policy}
use rl_rust_client.ApiKey.Codec.{ApiKeyLimits}
use rl_rust_client.ApiKey.Key.RoundTrip.{limits_of}
use rl_rust_client.Client.Auth.{AuthMethod}
use rl_rust_client.Client.Check.{CoreClient, Circumstances}
use rl_rust_client.Model.{
  Resource, LatencyTrackerBuilder, new_resource, tracker_builder, set_sample_ttl, set_max_samples,
  set_min_samples, build_tracker,
}
use rl_rust_client.Model.Valid.{
  IsResource, IsTracker, resource_with, new_resource_exact, build_tracker-IsTracker,
}
use rl_rust_client.PublicClient.Domain.{valid_dns_name}
use rl_rust_client.PublicClient.Domain.Label.{IsLabel}
use rl_rust_client.PublicClient.Domain.Split.{join}
use rl_rust_client.PublicClient.Domain.Labels.{valid_dns_name_iff}
use rl_rust_client.PublicClient.Request.{RequestBuilder, request, consume}
use rl_rust_client.PublicClient.Request.Built.{Built, empty, consumed}
use rl_rust_client.Tests.{test_cipher}
use rl_rust_client.Tests.ApiKey.{test_quota}
use rl_rust_client.Tests.Exchange.{test_targets, test_environment}
use rl_rust_client.Tests.Packets.{test_header}
use rl_rust_client.Tests.Requests.{test_hash, test_hash-IsHash}

abbrev test_name : List ℕ
test_name = b'a' ∷ b'p' ∷ b'i' ∷ []

abbrev test_value : Resource
test_value = resource_with test_hash test_name 1500 10

new_resource_exact_example :
    (new_resource test_hash test_name (from_millis 1500) 10 ≡ ok test_value) ↔ (
      (0 < length test_name)
      × (length test_name < 2 ^ 32)
      × (from_millis 1500 ≡ from_millis 1500)
      × (0 < 1500)
      × (1500 < 2 ^ 32))
new_resource_exact_example =
    new_resource_exact test_hash test_name (from_millis 1500) 10 1500 test_hash-IsHash
      (record { secs_fit = omega arith; nanos_fit = omega arith })

abbrev test_builder : LatencyTrackerBuilder
test_builder =
    set_min_samples
      (set_max_samples (set_sample_ttl (tracker_builder test_name) (from_millis 1000)) 10) 2

build_tracker-IsTracker_example :
    Ensures (IsTracker test_hash) (build_tracker test_hash test_builder)
build_tracker-IsTracker_example = build_tracker-IsTracker test_hash test_builder test_hash-IsHash

abbrev test_domain : List ℕ
test_domain = b'a' ∷ b'-' ∷ b'1' ∷ b'.' ∷ b'i' ∷ b'o' ∷ []

valid_dns_name_iff_example : (valid_dns_name test_domain ≡ true) ↔ (
    (labels : List (List ℕ)) × (0 < length labels)
    × All IsLabel labels
    × (join labels ≡ test_domain)
    × (length test_domain ≤ 253))
valid_dns_name_iff_example = valid_dns_name_iff test_domain

abbrev pub test_limits : ApiKeyLimits
test_limits = limits_of test_quota

-- One resource of 3 tokens.
abbrev pub test_request : RequestBuilder
test_request = record {
  limits = test_limits;
  resources =
      record {
        bucket_name = test_name;
        window_size_ms = 1500;
        rate_limit = 10;
        tokens_requested = 3;
      }
      ∷ [];
  guards = [];
  label = none;
}

consume_one : consume (request test_limits) test_value 3 ≡ ok test_request
unfolding consume request
consume_one = refl

consume_none : consume (request test_limits) test_value 0 ≡ err invalid_token_quantity
unfolding consume request
consume_none = refl

test_value-IsResource : IsResource test_hash test_value
test_value-IsResource = record {
  some_name = omega arith;
  name_fits = omega arith;
  some_window = omega arith;
  window_fits = omega arith;
  names_content = refl;
}

pub test_request-Built : Built test_hash test_limits test_request
test_request-Built =
    consumed (request test_limits) test_request test_value 3 empty test_value-IsResource consume_one

abbrev test_client : CoreClient
test_client = record {
  hash = test_hash;
  cipher = test_cipher;
  auth_method = AuthMethod.none;
  policy = default_policy;
  limits = test_limits;
}

abbrev pub test_circumstances : Circumstances
test_circumstances = record {
  nonce = [];
  header = test_header 5;
  refreshed = ok tt;
  targets = ok test_targets;
  environment = test_environment;
}
