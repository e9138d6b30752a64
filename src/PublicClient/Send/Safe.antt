-- ===== src/PublicClient/Send/Safe.antt =====
-- What `RequestBuilder::send` of src/public_client.rs answers to the requests that can be built.
use rl_rust_client.Common.{
  ℕ, ◌≡◌, refl, List, [], false, ◌&&◌, Option, none, Result, ok, bail, ◌>>=◌, ◌>>◌,
}
use rl_rust_client.Error.{CoreError, Error, dns, text}
use rl_rust_client.ApiKey.Codec.{ApiKeyLimits}
use rl_rust_client.Policy.Request.{horizon_ms}
use rl_rust_client.Model.Answer
use rl_rust_client.Model.Answer.{granted}
use rl_rust_client.Client.Packet.{build_packet}
use rl_rust_client.Client.Request.{validate_rate_windows_against_quota, find_wide}
use rl_rust_client.Client.Request.Layout.{IsHash}
use rl_rust_client.Client.Response.{RateLimitResult}
use rl_rust_client.Client.Check.{
  CoreClient, Circumstances, is_empty, reach_targets, run_exchange, answer_request, checked_request,
  check_rate_limit,
}
use rl_rust_client.Client.Servers.{ResolvedTargets, Stats}
use rl_rust_client.PublicClient.Request.{RequestBuilder}
use rl_rust_client.PublicClient.Request.Built.{Built, build_rate_request_body-Built}
use rl_rust_client.PublicClient.Send.{response_of, public_answer, send}

-- A request of nothing but perhaps a label is granted at once: the answer has no results and names no
-- server, the statistics stay, and neither the refresh nor the targets nor the network have a part.
pub send-empty :
    (client : CoreClient) (c : Circumstances) (stats : Stats) (limits : ApiKeyLimits)
    (label : Option (List ℕ))
    → send client c stats (record { limits = limits; resources = []; guards = []; label = label })
      ≡ (
        stats,
        ok record {
          decision = granted;
          resource_results = [];
          guard_results = [];
          selected_server_id = none;
        },
      )
unfolding send check_rate_limit checked_request answer_request public_answer response_of
    validate_rate_windows_against_quota find_wide
send-empty client c stats limits label = refl

-- The steps of a request that has passed the checks of its configuration.
abbrev pub beyond_checks :
    CoreClient → Circumstances → RequestBuilder → ℕ → Result CoreError ResolvedTargets
beyond_checks client c b dedup_ttl_ms = do
  _ ← c.refreshed
  resolved ← c.targets
  bail (is_empty resolved.targets) (dns (text "No servers available"))
  _ ←
      build_packet client.hash client.cipher client.auth_method c.nonce c.header dedup_ttl_ms
        b.resources b.guards b.label
  ok resolved

abbrev pub in_public :
    Stats × Result CoreError RateLimitResult → Stats × Result Error Answer.Response
in_public r = (r.0, public_answer r.1)

-- A request that the builder's operations made for the client's key, with one entry or more, is
-- stopped by no check of the configuration, if the policy passed the check of the client's
-- construction: `send` refreshes, takes the targets, asks that there are some, builds the packet with
-- the horizon as its lifetime, and then exchanges it, or answers the first error of these steps. The
-- hash is taken to give 32 bytes.
pub send-Built :
    (client : CoreClient) (c : Circumstances) (stats : Stats) (b : RequestBuilder)
    (dedup_ttl_ms : ℕ)
    → IsHash client.hash
    → Built client.hash client.limits b
    → horizon_ms client.policy client.limits.dedup_ttl_ms_max ≡ ok dedup_ttl_ms
    → (is_empty b.resources && is_empty b.guards) ≡ false
    → send client c stats b
      ≡ in_public (run_exchange client c stats (beyond_checks client c b dedup_ttl_ms))
unfolding send check_rate_limit checked_request answer_request reach_targets
send-Built client c stats b dedup_ttl_ms h made fits some_entry =
    let (windows, _) = build_rate_request_body-Built client.hash client.limits b h made in
    rw (windows, some_entry, fits) refl
