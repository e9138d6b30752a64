-- ===== src/Tests/Builder.antt =====
-- The client's construction, its refresh, and its requests.
use rl_rust_client.Common.{
  ℕ, ◌+◌, ◌*◌, ◌≡◌, refl, ◌∙◌, arith, [], ◌∷◌, true, false, Option, some, Result, ok,
}
use rl_rust_client.Error.{CoreError}
use rl_rust_client.Policy.Schedule.{fixed, units}
use rl_rust_client.Policy.Request.{default_policy, add_rounds, horizon_ms}
use rl_rust_client.ApiKey.Key.{ApiKey}
use rl_rust_client.Client.Auth.{AuthMethod}
use rl_rust_client.Client.New.{initial_last_dns_refresh}
use rl_rust_client.Client.New.Fresh.{
  Call, calls_from, refreshed, first_discovery, Fresh, refreshed-Fresh,
}
use rl_rust_client.Client.Refresh.{is_due, maybe_periodic_dns_refresh}
use rl_rust_client.Client.Servers.{SocketAddr, v4}
use rl_rust_client.Client.Targets.{
  refresh_servers, resolved_servers, parse_server_id_from_target, parse_decimal,
}
use rl_rust_client.PublicClient.Domain.{valid_dns_name}
use rl_rust_client.PublicClient.Builder.{
  decimal_digits, display_u64, ClientBuilder, client_builder, dns_server, Client, build_client,
}
use rl_rust_client.PublicClient.Builder.Build.{
  with_key, with_server, client_of, checked_once, Configured-valid_dns_name, build_client_lem,
}
use rl_rust_client.PublicClient.Builder.Ready.{Exchanges, build-send}
use rl_rust_client.Tests.{test_cipher}
use rl_rust_client.Tests.Network.{test_resolver}
use rl_rust_client.Tests.Public.{test_limits, test_request, test_request-Built, test_circumstances}
use rl_rust_client.Tests.Requests.{test_hash, test_hash-IsHash}

abbrev test_key : ApiKey
test_key = record { key_id = 907; auth_method = AuthMethod.none; limits = test_limits }

test_display : display_u64 907 ≡ b'9' ∷ b'0' ∷ b'7' ∷ []
unfolding display_u64 decimal_digits
test_display = refl

abbrev test_client_builder : ClientBuilder
test_client_builder = dns_server (client_builder test_key) (v4 1 53)

Configured-valid_dns_name_example : valid_dns_name test_client_builder.domain ≡ true
Configured-valid_dns_name_example =
    Configured-valid_dns_name test_client_builder
      (with_server (client_builder test_key) (v4 1 53) (with_key test_key))

-- The resolver is the address of its server.
abbrev test_build_resolver : Option SocketAddr → Result CoreError (Option SocketAddr)
test_build_resolver address = ok address

build_client_lem_example :
    build_client {Sockets = ℕ} (ok 7) test_build_resolver 5 test_client_builder
    ≡ checked_once {Sockets = ℕ} (ok 7) test_build_resolver 5 test_client_builder
build_client_lem_example = build_client_lem (ok 7) test_build_resolver 5 test_client_builder

abbrev test_built : Client (Option SocketAddr) ℕ
test_built = client_of test_client_builder 5 7 (some (v4 1 53))

test_build : build_client (ok 7) test_build_resolver 5 test_client_builder ≡ ok test_built
unfolding build_client client_builder dns_server default_policy fixed horizon_ms units add_rounds
test_build = build_client_lem (ok 7) test_build_resolver 5 test_client_builder ∙ refl

build-send_example :
    (dedup_ttl_ms : ℕ) × Exchanges test_hash test_cipher test_built test_circumstances []
      test_request dedup_ttl_ms
unfolding dns_server client_builder
build-send_example =
    build-send test_hash test_cipher (ok 7) test_build_resolver 5 test_client_builder test_built
      test_circumstances [] test_request test_hash-IsHash test_build test_request-Built refl

abbrev test_call : ℕ → Call
test_call seconds = record {
  resolver = test_resolver;
  now = seconds * 1_000_000_000;
  found_at = seconds * 1_000_000_000 + 5;
}

refreshed-Fresh_example :
    Fresh
      (b'i' ∷ b'o' ∷ [])
      60
      (100 * 1_000_000_000)
      (test_call 100 ∷ [])
      (test_call 120)
      (refreshed (b'i' ∷ b'o' ∷ []) 60 (test_call 120) (
        calls_from
          (b'i' ∷ b'o' ∷ [])
          60
          (first_discovery (b'i' ∷ b'o' ∷ []) 60 (100 * 1_000_000_000))
          (test_call 100 ∷ []))).0
unfolding maybe_periodic_dns_refresh is_due initial_last_dns_refresh refresh_servers
    resolved_servers parse_server_id_from_target parse_decimal
refreshed-Fresh_example =
    refreshed-Fresh (b'i' ∷ b'o' ∷ []) 60 (100 * 1_000_000_000) (test_call 100 ∷ []) (test_call 120)
      (omega arith) (omega arith) (omega arith) refl

-- On a clock that began five seconds ago, a client that was made now has no refresh due.
not_due_early :
    is_due 60 (6 * 1_000_000_000) (first_discovery (b'i' ∷ b'o' ∷ []) 60 (5 * 1_000_000_000))
    ≡ false
unfolding is_due initial_last_dns_refresh
not_due_early = refl
