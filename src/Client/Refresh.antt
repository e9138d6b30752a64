-- ===== src/Client/Refresh.antt =====
-- `maybe_periodic_dns_refresh` and the state of `_refresh_servers` of src/client.rs. Instants are
-- nanoseconds.
use rl_rust_client.Common.{ℕ, ◌-◌, ◌/◌, ltb, List, Bool, if◌then◌else◌, Result, ok, err, panic}
use rl_rust_client.Error.{CoreError}
use rl_rust_client.ApiKey.Bech32.{Text}
use rl_rust_client.Client.Targets.{Resolver, ServerEndpoint, refresh_servers}

abbrev pub nanos_per_sec : ℕ
nanos_per_sec = 1_000_000_000

-- `servers` and `last_dns_refresh` of the client.
pub record Discovery : Type 0 where
  pub servers : List ServerEndpoint
  pub last_dns_refresh : ℕ

-- `last_dns_refresh.elapsed().as_secs() > dns_refresh_interval_s`
unfoldable pub is_due : ℕ → ℕ → Discovery → Bool
is_due dns_refresh_interval_s now d =
    ltb dns_refresh_interval_s ((now - d.last_dns_refresh) / nanos_per_sec)

-- How `_refresh_servers` ends, at the instant `found_at`.
abbrev pub store_servers :
    Discovery → ℕ → Result CoreError (List ServerEndpoint) → Discovery × Result CoreError (Unit {0})
store_servers d found_at (ok servers) =
    (record { servers = servers; last_dns_refresh = found_at }, ok tt)
store_servers d found_at (err e) = (d, err e)
store_servers d found_at panic = (d, panic)

-- `maybe_periodic_dns_refresh`, which `report_latency` writes out: it begins at `now`.
unfoldable pub maybe_periodic_dns_refresh :
    Resolver → Text → ℕ → ℕ → ℕ → Discovery → Discovery × Result CoreError (Unit {0})
maybe_periodic_dns_refresh resolver service_domain dns_refresh_interval_s now found_at d =
    if is_due dns_refresh_interval_s now d
    then store_servers d found_at (refresh_servers resolver service_domain)
    else (d, ok tt)
