-- ===== src/Policy/Request.antt =====
-- `RequestPolicy`, `RequestPolicyBuilder` and `horizon_ms` of src/request_policy.rs.
pub mod Horizon
pub mod Build
pub mod Timed
use rl_rust_client.Common.{
  ℕ, zero, suc, ◌+◌, ◌-◌, ◌*◌, ◌%◌, ◌^◌, ltb, ◌==◌, not, ◌||◌, Bool, true, if◌then◌else◌, Result,
  ok, err, panic, ◌>>=◌, ◌>>◌, bail, map_err,
}
use rl_rust_client.Duration.{Duration, as_millis, from_millis, is_zero, is_whole_millis}
use rl_rust_client.Error.{
  ConfigurationError, invalid_request_policy, request_policy_exceeds_api_key, invalid_duration,
  Error, invalid_configuration,
}
use rl_rust_client.Policy.Schedule.{Schedule, fixed, units, u32}

abbrev pub max_replay_count : ℕ
max_replay_count = 65_535

abbrev pub u32_max : ℕ
u32_max = 2 ^ 32 - 1

abbrev pub u64_max : ℕ
u64_max = 2 ^ 64 - 1

pub record RequestPolicy : Type 0 where
  pub unit_ms : ℕ
  pub replay_count : ℕ
  pub replay_gap : Schedule
  pub final_receive_units : ℕ
  pub completion_delivery : Bool

-- `u64::checked_add` and `u64::checked_mul`, with the error that the code gives for an overflow.
abbrev pub checked_u64 : ℕ → Result ConfigurationError ℕ
checked_u64 n = if ltb u64_max n then err invalid_request_policy else ok n

-- The loop over the rounds: the rounds left, the next round, and `total_units`.
unfoldable pub add_rounds : ℕ → Schedule → ℕ → ℕ → Result ConfigurationError ℕ
add_rounds zero gap round total = ok total
add_rounds (suc left) gap round total = do
  duration ← units gap round
  total' ← checked_u64 (total + duration)
  add_rounds left gap (round + 1) total'

unfoldable pub horizon_ms : RequestPolicy → ℕ → Result ConfigurationError ℕ
horizon_ms p dedup_ttl_ms_max = do
  bail (p.unit_ms == 0 || ltb max_replay_count p.replay_count || dedup_ttl_ms_max == 0)
      invalid_request_policy
  total_units ← add_rounds (suc p.replay_count) p.replay_gap 0 p.final_receive_units
  horizon ← checked_u64 (total_units * p.unit_ms)
  bail (total_units == 0 || ltb u32_max horizon) invalid_request_policy
  bail (ltb dedup_ttl_ms_max horizon) request_policy_exceeds_api_key
  ok (u32 horizon)

-- `.expect("validated RequestPolicy always has a representable horizon")`
abbrev pub expect_ok : Result ConfigurationError ℕ → Result ConfigurationError ℕ
expect_ok (ok n) = ok n
expect_ok (err e) = panic
expect_ok panic = panic

unfoldable pub horizon : RequestPolicy → Result ConfigurationError Duration
horizon p = do ms ← expect_ok (horizon_ms p u32_max); ok (from_millis ms)

unfoldable pub default_policy : RequestPolicy
unfolding fixed
default_policy = record {
  unit_ms = 20;
  replay_count = 1;
  replay_gap = fixed 1;
  final_receive_units = 1;
  completion_delivery = true;
}

pub record RequestPolicyBuilder : Type 0 where
  pub unit : Duration
  pub replay_count : ℕ
  pub replay_gap : Schedule
  pub final_receive_units : ℕ
  pub completion_delivery : Bool

unfoldable pub default_builder : RequestPolicyBuilder
unfolding default_policy
default_builder = record {
  unit = from_millis default_policy.unit_ms;
  replay_count = default_policy.replay_count;
  replay_gap = default_policy.replay_gap;
  final_receive_units = default_policy.final_receive_units;
  completion_delivery = default_policy.completion_delivery;
}

-- The setters of the builder.
unfoldable pub set_unit : RequestPolicyBuilder → Duration → RequestPolicyBuilder
set_unit b unit = record b { unit = unit }

unfoldable pub set_replays : RequestPolicyBuilder → ℕ → RequestPolicyBuilder
set_replays b replay_count = record b { replay_count = replay_count }

unfoldable pub set_replay_gap : RequestPolicyBuilder → Schedule → RequestPolicyBuilder
set_replay_gap b schedule = record b { replay_gap = schedule }

unfoldable pub set_final_receive_units : RequestPolicyBuilder → ℕ → RequestPolicyBuilder
set_final_receive_units b units = record b { final_receive_units = units }

unfoldable pub set_completion_delivery : RequestPolicyBuilder → Bool → RequestPolicyBuilder
set_completion_delivery b enabled = record b { completion_delivery = enabled }

unfoldable pub to_policy : RequestPolicyBuilder → RequestPolicy
to_policy b = record {
  unit_ms = as_millis b.unit % 2 ^ 64;
  replay_count = b.replay_count;
  replay_gap = b.replay_gap;
  final_receive_units = b.final_receive_units;
  completion_delivery = b.completion_delivery;
}

unfoldable pub build : RequestPolicyBuilder → Result Error RequestPolicy
unfolding to_policy
build b = do
  bail (is_zero b.unit || not (is_whole_millis b.unit) || ltb u64_max (as_millis b.unit))
      (invalid_configuration (invalid_duration "request policy unit"))
  let policy = to_policy b
  _ ← map_err invalid_configuration (horizon_ms policy u32_max)
  ok policy
