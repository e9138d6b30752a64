-- ===== src/Client/New.antt =====
-- The configuration of src/config.rs and `CoreClient::new` of src/client.rs. The system binds the
-- sockets and the resolver's library makes the resolver: their answers are parameters. Instants are
-- nanoseconds.
pub mod Fresh
use rl_rust_client.Common.{
  ℕ, ◌+◌, ◌*◌, ◌-◌, ◌^◌, List, [], ltb, Bool, if◌then◌else◌, min, Option, none, some, Result, ok,
  err, panic, map_err, ◌>>=◌,
}
use rl_rust_client.Error.{CoreError, config, to_string}
use rl_rust_client.ApiKey.Bech32.{Text}
use rl_rust_client.ApiKey.Codec.{ApiKeyLimits}
use rl_rust_client.Policy.Request.{RequestPolicy, u64_max, horizon_ms}
use rl_rust_client.Client.Auth.{AuthMethod, cookie_hash_cache, aes_key_cache}
use rl_rust_client.Client.Refresh.{Discovery, nanos_per_sec}
use rl_rust_client.Client.Router.{Router, no_requests}
use rl_rust_client.Client.Servers.{SocketAddr, Stats}
use rl_rust_client.Client.Steering.Feedback.Tasks.{Shared, no_feedback}

pub record ApiKeyConfig : Type 0 where
  pub service_domain : Text
  pub key_id : ℕ
  pub auth_method : AuthMethod
  pub limits : ApiKeyLimits
  pub steering_feedback : Bool

pub record CoreConfig : Type 0 where
  pub api_key : ApiKeyConfig
  pub dns_refresh_interval_s : ℕ
  pub ignore_steering_feedback : Bool
  pub request_policy : RequestPolicy
  pub dns_server : Option SocketAddr

abbrev pub effective_request_policy : CoreConfig → RequestPolicy
effective_request_policy c = c.request_policy

-- `CoreClient`, with a resolver and sockets of any types.
pub record CoreState (Resolver Sockets : Type 0) : Type 0 where
  pub core_config : CoreConfig
  pub steering : Shared Sockets
  pub router : Router
  pub discovery : Discovery
  pub server_stats : Stats
  pub api_key_limits : ApiKeyLimits
  pub cookie_cache : Option (List ℕ)
  pub aes_cache : Option (List ℕ)
  pub resolver : Resolver

-- `now.checked_sub(…).unwrap_or_else(Instant::now)`, where the clock begins at 0.
abbrev pub checked_sub : ℕ → ℕ → Option ℕ
checked_sub a b = if ltb a b then none else some (a - b)

abbrev pub unwrap_or : Option ℕ → ℕ → ℕ
unwrap_or (some n) m = n
unwrap_or none m = m

unfoldable pub initial_last_dns_refresh : ℕ → ℕ → ℕ
initial_last_dns_refresh now dns_refresh_interval_s =
    unwrap_or (checked_sub now (min (dns_refresh_interval_s + 1) u64_max * nanos_per_sec)) now

module _ {Resolver Sockets : Type 0} where
  abbrev pub new_state : CoreConfig → ℕ → Sockets → Resolver → CoreState Resolver Sockets
  new_state c now socket resolver = record {
    core_config = c;
    steering = no_feedback socket;
    router = no_requests;
    discovery = record {
      servers = [];
      last_dns_refresh = initial_last_dns_refresh now c.dns_refresh_interval_s;
    };
    server_stats = [];
    api_key_limits = c.api_key.limits;
    cookie_cache = cookie_hash_cache c.api_key.auth_method;
    aes_cache = aes_key_cache c.api_key.auth_method;
    resolver = resolver;
  }

  -- `CoreClient::new`, by what the bind on port 0 and `build_resolver` answer.
  unfoldable pub new_client :
      Result CoreError Sockets
      → (Option SocketAddr → Result CoreError Resolver)
      → ℕ
      → CoreConfig
      → Result CoreError (CoreState Resolver Sockets)
  new_client bound build_resolver now c = do
    socket ← bound
    resolver ← build_resolver c.dns_server
    _ ←
        map_err (λ message. config (to_string message))
          (horizon_ms (effective_request_policy c) c.api_key.limits.dedup_ttl_ms_max)
    ok (new_state c now socket resolver)
