-- ===== src/PublicClient/Builder/Ready.antt =====
-- The requests of a client that `ClientBuilder` of src/public_client.rs built.
use rl_rust_client.Common.{ℕ, suc, ◌≡◌, sym, subst, false, ◌&&◌, Option, Result, ok}
use rl_rust_client.Error.{CoreError}
use rl_rust_client.Policy.Request.{horizon_ms}
use rl_rust_client.Policy.Request.Timed.{Timed, horizon_ms-Timed}
use rl_rust_client.Protocol.Cipher.{Cipher}
use rl_rust_client.Protocol.Id.{Hash}
use rl_rust_client.Client.Check.{CoreClient, Circumstances, is_empty, run_exchange}
use rl_rust_client.Client.Request.Layout.{IsHash}
use rl_rust_client.Client.Servers.{SocketAddr, Stats}
use rl_rust_client.PublicClient.Request.{RequestBuilder}
use rl_rust_client.PublicClient.Request.Built.{Built}
use rl_rust_client.PublicClient.Send.{send}
use rl_rust_client.PublicClient.Send.Safe.{beyond_checks, in_public, send-Built}
use rl_rust_client.PublicClient.Builder.{ClientBuilder, Client, build_client}
use rl_rust_client.PublicClient.Builder.Build.{client_of, build_client-IsBuilt}

module _ {Resolver Sockets : Type 0} (hash : Hash) (cipher : Cipher) where
  -- What requests use of the client.
  abbrev pub core_of : Client Resolver Sockets → CoreClient
  core_of client = record {
    hash = hash;
    cipher = cipher;
    auth_method = client.inner.core_config.api_key.auth_method;
    policy = client.inner.core_config.request_policy;
    limits = client.inner.api_key_limits;
  }

  -- The exchange of a request with the horizon of the client's policy. All rounds of the exchange, the
  -- replays too, have a length.
  abbrev pub Exchanges :
      Client Resolver Sockets → Circumstances → Stats → RequestBuilder → ℕ → Type 0
  Exchanges client c stats r dedup_ttl_ms =
      (horizon_ms client.inner.core_config.request_policy client.client_limits.dedup_ttl_ms_max
        ≡ ok dedup_ttl_ms)
      × Timed (suc client.inner.core_config.request_policy.replay_count)
          client.inner.core_config.request_policy.replay_gap 0
      × (send (core_of client) c stats r
          ≡ in_public (
              run_exchange (core_of client) c stats
                (beyond_checks (core_of client) c r dedup_ttl_ms)))

  -- A client that `build` answers has no request stopped by a check of the configuration: one that the
  -- operations of its request builder made, with one entry or more, is answered by the exchange, or by
  -- the first error of the refresh, the targets and the packet, which has the policy's horizon as its
  -- lifetime; and the schedule gives each round of the exchange, the first and every replay, a length,
  -- so that the exchange's own check of the schedule passes. The hash is taken to give 32 bytes.
  pub build-send :
      (bound : Result CoreError Sockets)
      (build_resolver : Option SocketAddr → Result CoreError Resolver) (now : ℕ) (b : ClientBuilder)
      (client : Client Resolver Sockets) (c : Circumstances) (stats : Stats) (r : RequestBuilder)
      → IsHash hash
      → build_client bound build_resolver now b ≡ ok client
      → Built hash client.client_limits r
      → (is_empty r.resources && is_empty r.guards) ≡ false
      → (dedup_ttl_ms : ℕ) × Exchanges client c stats r dedup_ttl_ms
  build-send bound build_resolver now b client c stats r h e made some_entry =
      let v = build_client-IsBuilt bound build_resolver now b client e in
      let of_built = client_of b now v.socket v.resolver in
      subst (λ built. (dedup_ttl_ms : ℕ) × Exchanges built c stats r dedup_ttl_ms) (sym v.same)
        (
          v.horizon,
          (
            v.fits,
            horizon_ms-Timed b.policy b.api_key.limits.dedup_ttl_ms_max v.horizon v.fits,
            send-Built (core_of of_built) c stats r v.horizon h
                (subst (λ built. Built hash built.client_limits r) v.same made) v.fits some_entry,
          ),
        )
