-- ===== src/PublicClient/Builder.antt =====
-- `Client` and `ClientBuilder` in src/public_client.rs.
pub mod Decimal
pub mod Default
pub mod Build
pub mod Ready
use rl_rust_client.Common.{
  ℕ, zero, suc, ◌+◌, ◌/◌, ◌%◌, List, [], ◌∷◌, ◌++◌, Bool, true, false, not, ltb, if◌then◌else◌,
  Option, none, some, Result, ok, err, panic, bail, map_err, ◌>>=◌, ◌>>◌,
}
use rl_rust_client.Error.{
  CoreError, Error, invalid_configuration, invalid_service_domain, from_core_error,
}
use rl_rust_client.Duration.{Duration, duration_to_u32_ms}
use rl_rust_client.Model.{LatencyTracker}
use rl_rust_client.ApiKey.Bech32.{Text}
use rl_rust_client.ApiKey.Codec.{ApiKeyLimits}
use rl_rust_client.ApiKey.Key.{ApiKey}
use rl_rust_client.Policy.Request.{RequestPolicy, default_policy, horizon_ms}
use rl_rust_client.Client.New.{ApiKeyConfig, CoreConfig, CoreState, new_client}
use rl_rust_client.Client.Report.{report_latency}
use rl_rust_client.Client.Request.{ServiceLatencyReport}
use rl_rust_client.Client.Send.{FamilySockets}
use rl_rust_client.Client.Servers.{SocketAddr, ResolvedTargets, Stats}
use rl_rust_client.PublicClient.Domain.{valid_dns_name}

-- How a number is formatted; a number of 64 bits has 20 digits at most.
unfoldable pub decimal_digits : ℕ → ℕ → Text
decimal_digits zero n = []
decimal_digits (suc more) n =
    let front = decimal_digits more (n / 10) in
    if ltb n 10 then (b'0' + n) ∷ [] else front ++ ((b'0' + n % 10) ∷ [])

unfoldable pub display_u64 : ℕ → Text
display_u64 n = decimal_digits 20 n

-- `.p0.ratelimitly.com`
abbrev pub domain_end : Text
domain_end =
    b'.' ∷ b'p' ∷ b'0' ∷ b'.' ∷ b'r' ∷ b'a' ∷ b't' ∷ b'e' ∷ b'l' ∷ b'i' ∷ b'm' ∷ b'i' ∷ b't' ∷ b'l'
    ∷ b'y' ∷ b'.' ∷ b'c' ∷ b'o' ∷ b'm' ∷ []

unfoldable pub default_domain : ℕ → Text
default_domain key_id = (b'c' ∷ b'-' ∷ display_u64 key_id) ++ domain_end

pub record ClientBuilder : Type 0 where
  pub api_key : ApiKey
  pub domain : Text
  pub policy : RequestPolicy
  pub dns : Option SocketAddr

-- `Client::builder`
unfoldable pub client_builder : ApiKey → ClientBuilder
client_builder api_key = record {
  api_key = api_key;
  domain = default_domain api_key.key_id;
  policy = default_policy;
  dns = none;
}

unfoldable pub service_domain : ClientBuilder → Text → Result Error ClientBuilder
service_domain b name = do
  bail (not (valid_dns_name name)) (invalid_configuration invalid_service_domain)
  ok record { api_key = b.api_key; domain = name; policy = b.policy; dns = b.dns }

unfoldable pub request_policy : ClientBuilder → RequestPolicy → ClientBuilder
request_policy b policy = record b { policy = policy }

unfoldable pub dns_server : ClientBuilder → SocketAddr → ClientBuilder
dns_server b address = record b { dns = some address }

-- The configuration that `build` makes.
abbrev pub config_of : ClientBuilder → CoreConfig
config_of b = record {
  api_key = record {
    service_domain = b.domain;
    key_id = b.api_key.key_id;
    auth_method = b.api_key.auth_method;
    limits = b.api_key.limits;
    steering_feedback = true;
  };
  dns_refresh_interval_s = 60;
  ignore_steering_feedback = false;
  request_policy = b.policy;
  dns_server = b.dns;
}

pub record Client (Resolver Sockets : Type 0) : Type 0 where
  pub inner : CoreState Resolver Sockets
  pub client_domain : Text
  pub client_limits : ApiKeyLimits

module _ {Resolver Sockets : Type 0} where
  -- `ClientBuilder::build`, with what the bind and the resolver's library answer, and the instant.
  unfoldable pub build_client :
      Result CoreError Sockets
      → (Option SocketAddr → Result CoreError Resolver)
      → ℕ
      → ClientBuilder
      → Result Error (Client Resolver Sockets)
  build_client bound build_resolver now b = do
    _ ← map_err invalid_configuration (horizon_ms b.policy b.api_key.limits.dedup_ttl_ms_max)
    inner ← map_err from_core_error (new_client bound build_resolver now (config_of b))
    ok record { inner = inner; client_domain = b.domain; client_limits = b.api_key.limits }
