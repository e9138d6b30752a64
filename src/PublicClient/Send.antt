-- ===== src/PublicClient/Send.antt =====
-- `RequestBuilder::send` in src/public_client.rs.
pub mod Safe
use rl_rust_client.Common.{
  ℕ, List, map, Bool, true, false, ◌==◌, if◌then◌else◌, Option, none, some, Result, ok, err, panic,
}
use rl_rust_client.Error.{CoreError, Error, from_core_error}
use rl_rust_client.Model.Answer
use rl_rust_client.Model.Answer.{granted, rejected, ResourceResult, GuardResult}
use rl_rust_client.Client.Response
use rl_rust_client.Client.Response.{RateLimitResult}
use rl_rust_client.Client.Check.{CoreClient, Circumstances, check_rate_limit}
use rl_rust_client.Client.Servers.{Stats}
use rl_rust_client.PublicClient.Request.{RequestBuilder}

abbrev pub public_resource_result : Response.ResourceResult → ResourceResult
public_resource_result item = record {
  resource_id = item.bucket_id;
  tokens_deficit = item.tokens_deficit;
  actual_rate = item.actual_rate;
}

abbrev pub public_guard_result : Response.GuardResult → GuardResult
public_guard_result item = record {
  tracker_id = item.latency_tracker_id;
  threshold_ms = item.threshold_ms;
  current_latency_ms = item.current_latency_ms;
  passed = item.passed;
}

-- The response that `send` makes of the result.
unfoldable pub response_of : RateLimitResult → Answer.Response
response_of result = record {
  decision = if result.success then granted else rejected;
  resource_results = map public_resource_result result.resource_results;
  guard_results = map public_guard_result result.guard_results;
  selected_server_id = if result.server_id == 0 then none else some result.server_id;
}

unfoldable pub public_answer : Result CoreError RateLimitResult → Result Error Answer.Response
public_answer (ok result) = ok (response_of result)
public_answer (err e) = err (from_core_error e)
public_answer panic = panic

unfoldable pub send :
    CoreClient → Circumstances → Stats → RequestBuilder → Stats × Result Error Answer.Response
send client c stats b =
    let (stats', answer) = check_rate_limit client c stats b.resources b.guards b.label in
    (stats', public_answer answer)
