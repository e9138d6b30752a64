-- ===== src/Client/Check.antt =====
-- `check_rate_limit` in src/client.rs: the checks before the first send, the answer to an empty
-- request, and the exchange. What the refresh and `current_targets` answer is given.
use rl_rust_client.Common.{
  ℕ, List, [], ◌∷◌, Bool, true, false, ◌&&◌, Option, some, Result, ok, err, panic, bail, map_err,
  ◌>>=◌, ◌>>◌,
}
use rl_rust_client.Error.{CoreError, config, dns, text, to_string}
use rl_rust_client.ApiKey.Codec.{ApiKeyLimits}
use rl_rust_client.Policy.Request.{RequestPolicy, horizon_ms}
use rl_rust_client.Protocol.{TenantHeader}
use rl_rust_client.Protocol.Cipher.{Cipher}
use rl_rust_client.Protocol.Id.{Hash}
use rl_rust_client.Client.Auth.{AuthMethod}
use rl_rust_client.Client.Packet.{build_packet}
use rl_rust_client.Client.Request.{
  ResourceRequest, LatencyGuard, validate_rate_windows_against_quota,
}
use rl_rust_client.Client.Response.{RateLimitResult}
use rl_rust_client.Client.Retry.{Environment, exchange}
use rl_rust_client.Client.Servers.{ResolvedTargets, Stats}

-- What the client is made of, and what the request finds: the nonce, the header, and the answers of
-- `maybe_periodic_dns_refresh` and `current_targets`.
pub record CoreClient : Type 0 where
  pub hash : Hash
  pub cipher : Cipher
  pub auth_method : AuthMethod
  pub policy : RequestPolicy
  pub limits : ApiKeyLimits

pub record Circumstances : Type 0 where
  pub nonce : List ℕ
  pub header : TenantHeader
  pub refreshed : Result CoreError (Unit {0})
  pub targets : Result CoreError ResolvedTargets
  pub environment : Environment

abbrev pub is_empty : {A : Type 0} → List A → Bool
is_empty [] = true
is_empty (x ∷ xs) = false

-- The answer to a request of nothing.
abbrev pub local_grant : RateLimitResult
local_grant = record {
  success = true;
  guard_results = [];
  resource_results = [];
  server_id = 0;
  steering_feedback = false;
}

-- The steps from the window check to the packet of a request that is not empty: the targets.
unfoldable pub reach_targets :
    CoreClient
    → Circumstances
    → List ResourceRequest
    → List LatencyGuard
    → Option (List ℕ)
    → Result CoreError ResolvedTargets
reach_targets client c resources guards label = do
  dedup_ttl_ms ←
      map_err (λ e. config (to_string e)) (horizon_ms client.policy client.limits.dedup_ttl_ms_max)
  _ ← c.refreshed
  resolved ← c.targets
  bail (is_empty resolved.targets) (dns (text "No servers available"))
  _ ←
      build_packet client.hash client.cipher client.auth_method c.nonce c.header dedup_ttl_ms
        resources guards label
  ok resolved

-- The exchange with the targets, or the error before it, with the statistics that it leaves.
unfoldable pub run_exchange :
    CoreClient
    → Circumstances
    → Stats
    → Result CoreError ResolvedTargets
    → Stats × Result CoreError RateLimitResult
run_exchange client c stats (err e) = (stats, err e)
run_exchange client c stats panic = (stats, panic)
run_exchange client c stats (ok resolved) =
    let (s, answer) =
      exchange
        (record {
          cipher = client.cipher;
          auth_method = client.auth_method;
          policy = client.policy;
          resolved = resolved;
        })
        c.environment stats in
    (s.stats, answer)

-- What follows the window check.
unfoldable pub answer_request :
    CoreClient
    → Circumstances
    → Stats
    → List ResourceRequest
    → List LatencyGuard
    → Option (List ℕ)
    → Bool
    → Stats × Result CoreError RateLimitResult
answer_request client c stats resources guards label true = (stats, ok local_grant)
answer_request client c stats resources guards label false =
    run_exchange client c stats (reach_targets client c resources guards label)

-- By what the window check answers.
unfoldable pub checked_request :
    Stats × Result CoreError RateLimitResult
    → Stats
    → Result CoreError (Unit {0})
    → Stats × Result CoreError RateLimitResult
checked_request rest stats (ok _) = rest
checked_request rest stats (err e) = (stats, err e)
checked_request rest stats panic = (stats, panic)

unfoldable pub check_rate_limit :
    CoreClient
    → Circumstances
    → Stats
    → List ResourceRequest
    → List LatencyGuard
    → Option (List ℕ)
    → Stats × Result CoreError RateLimitResult
check_rate_limit client c stats resources guards label =
    checked_request
      (answer_request client c stats resources guards label (is_empty resources && is_empty guards))
      stats
      (validate_rate_windows_against_quota resources (some client.limits.rate_window_size_ms_max))
