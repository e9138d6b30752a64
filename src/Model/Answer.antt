-- ===== src/Model/Answer.antt =====
-- The decision and the results of a response in src/model.rs.
use rl_rust_client.Common.{ℕ, List, Bool, Option}
use rl_rust_client.Duration.{Duration, from_millis}

pub data Decision : Type 0 where
  granted rejected : Decision

pub record ResourceResult : Type 0 where
  pub resource_id : List ℕ
  pub tokens_deficit : ℕ
  pub actual_rate : ℕ

pub record GuardResult : Type 0 where
  pub tracker_id : List ℕ
  pub threshold_ms : ℕ
  pub current_latency_ms : ℕ
  pub passed : Bool

-- `GuardResult::threshold` and `GuardResult::current_latency`
abbrev pub threshold : GuardResult → Duration
threshold result = from_millis result.threshold_ms

abbrev pub current_latency : GuardResult → Duration
current_latency result = from_millis result.current_latency_ms

pub record Response : Type 0 where
  pub decision : Decision
  pub resource_results : List ResourceResult
  pub guard_results : List GuardResult
  pub selected_server_id : Option ℕ
