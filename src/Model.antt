-- ===== src/Model.antt =====
-- The public values of src/model.rs: resources, latency trackers and the parts of a response. The
-- errors of their constructors are all configuration errors, which `into` wraps.
pub mod Valid
pub mod Answer
pub mod Hex
use rl_rust_client.Common.{
  ℕ, ◌-◌, ◌^◌, List, [], ◌∷◌, length, Bool, ltb, ◌==◌, ◌||◌, Option, none, some, Result, ok, err,
  bail, ok_or, ◌>>=◌, ◌>>◌,
}
use rl_rust_client.Duration.{Duration, duration_to_u32_ms, from_millis}
use rl_rust_client.Error.{
  ConfigurationError, invalid_name, missing_tracker_field, invalid_tracker_value,
}
use rl_rust_client.Protocol.Id.{Hash, derive_bucket_id, derive_latency_tracker_id}
use Prim.Native.String.{String}

-- `ResourceId` and `LatencyTrackerId`: 16 bytes.
abbrev pub ResourceId : Type 0
ResourceId = List ℕ

abbrev pub LatencyTrackerId : Type 0
LatencyTrackerId = List ℕ

pub record Resource : Type 0 where
  pub name : List ℕ
  pub window_ms : ℕ
  pub rate_limit : ℕ
  pub id : ResourceId

-- `name.is_empty() || name.len() > u32::MAX as usize`
abbrev pub bad_name : List ℕ → Bool
bad_name name = length name == 0 || ltb (2 ^ 32 - 1) (length name)

-- `Resource::new`
unfoldable pub new_resource : Hash → List ℕ → Duration → ℕ → Result ConfigurationError Resource
new_resource hash name window rate_limit = do
  bail (bad_name name) (invalid_name "resource")
  window_ms ← duration_to_u32_ms window "resource window"
  id ← derive_bucket_id hash name window_ms rate_limit
  ok record { name = name; window_ms = window_ms; rate_limit = rate_limit; id = id }

-- `Resource::window`
abbrev pub window : Resource → Duration
window resource = from_millis resource.window_ms

pub record LatencyTracker : Type 0 where
  pub name : List ℕ
  pub sample_ttl_ms : ℕ
  pub max_samples : ℕ
  pub min_samples : ℕ
  pub id : LatencyTrackerId

-- `LatencyTracker::sample_ttl`
abbrev pub sample_ttl : LatencyTracker → Duration
sample_ttl tracker = from_millis tracker.sample_ttl_ms

pub record LatencyTrackerBuilder : Type 0 where
  pub builder_name : List ℕ
  pub builder_ttl : Option Duration
  pub builder_max : Option ℕ
  pub builder_min : Option ℕ

-- `LatencyTracker::builder`
unfoldable pub tracker_builder : List ℕ → LatencyTrackerBuilder
tracker_builder name = record {
  builder_name = name;
  builder_ttl = none;
  builder_max = none;
  builder_min = none;
}

-- The setters `sample_ttl`, `max_samples` and `min_samples` of the builder.
unfoldable pub set_sample_ttl : LatencyTrackerBuilder → Duration → LatencyTrackerBuilder
set_sample_ttl b ttl = record {
  builder_name = b.builder_name;
  builder_ttl = some ttl;
  builder_max = b.builder_max;
  builder_min = b.builder_min;
}

unfoldable pub set_max_samples : LatencyTrackerBuilder → ℕ → LatencyTrackerBuilder
set_max_samples b max_samples = record {
  builder_name = b.builder_name;
  builder_ttl = b.builder_ttl;
  builder_max = some max_samples;
  builder_min = b.builder_min;
}

unfoldable pub set_min_samples : LatencyTrackerBuilder → ℕ → LatencyTrackerBuilder
set_min_samples b min_samples = record {
  builder_name = b.builder_name;
  builder_ttl = b.builder_ttl;
  builder_max = b.builder_max;
  builder_min = some min_samples;
}

-- The loop over the counts and their names.
unfoldable pub check_counts : List (String × ℕ) → Result ConfigurationError (Unit {0})
check_counts [] = ok tt
check_counts ((field, value) ∷ counts) = do
  bail (value == 0) (invalid_tracker_value field)
  check_counts counts

-- `LatencyTrackerBuilder::build`
unfoldable pub build_tracker :
    Hash → LatencyTrackerBuilder → Result ConfigurationError LatencyTracker
build_tracker hash b = do
  bail (bad_name b.builder_name) (invalid_name "latency tracker")
  ttl ← ok_or b.builder_ttl (missing_tracker_field "sample lifetime")
  sample_ttl_ms ← duration_to_u32_ms ttl "sample lifetime"
  max_samples ← ok_or b.builder_max (missing_tracker_field "maximum samples")
  min_samples ← ok_or b.builder_min (missing_tracker_field "minimum samples")
  _ ← check_counts (("maximum samples", max_samples) ∷ ("minimum samples", min_samples) ∷ [])
  id ← derive_latency_tracker_id hash b.builder_name sample_ttl_ms max_samples min_samples
  ok record {
    name = b.builder_name;
    sample_ttl_ms = sample_ttl_ms;
    max_samples = max_samples;
    min_samples = min_samples;
    id = id;
  }
