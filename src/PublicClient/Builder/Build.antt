-- ===== src/PublicClient/Builder/Build.antt =====
-- What `ClientBuilder` of src/public_client.rs builds.
use rl_rust_client.Common.{
  ℕ, ◌≡◌, refl, sym, ◌∙◌, subst, Bool, true, false, not, Option, Result, ok, err, panic, map_err,
  ◌>>=◌, Result-cases, inl, inr, Ensures, ensures_ok, Ensures-bail, Ensures-at,
}
use rl_rust_client.Error.{
  CoreError, ConfigurationError, Error, invalid_configuration, from_core_error, config, to_string,
}
use rl_rust_client.ApiKey.Bech32.{Text}
use rl_rust_client.ApiKey.Key.{ApiKey}
use rl_rust_client.Policy.Request.{RequestPolicy, horizon_ms}
use rl_rust_client.Client.New.{new_state, new_client}
use rl_rust_client.Client.Servers.{SocketAddr}
use rl_rust_client.PublicClient.Domain.{valid_dns_name}
use rl_rust_client.PublicClient.Builder.{
  ClientBuilder, client_builder, service_domain, request_policy, dns_server, config_of, Client,
  build_client,
}
use rl_rust_client.PublicClient.Builder.Default.{valid_dns_name-default}

-- The builders that the operations make.
pub data Configured : ClientBuilder → Type 0 where
  with_key : (api_key : ApiKey) → Configured (client_builder api_key)
  with_domain :
      (b b' : ClientBuilder) (name : Text)
      → Configured b
      → service_domain b name ≡ ok b'
      → Configured b'
  with_policy :
      (b : ClientBuilder) (policy : RequestPolicy)
      → Configured b
      → Configured (request_policy b policy)
  with_server :
      (b : ClientBuilder) (address : SocketAddr) → Configured b → Configured (dns_server b address)

from_not : (b : Bool) → not b ≡ false → b ≡ true
from_not true h = refl
from_not false h = absurd (cc)

named_domain :
    (b : ClientBuilder) (name : Text)
    → Ensures (λ b'. valid_dns_name b'.domain ≡ true) (service_domain b name)
unfolding service_domain
named_domain b name = Ensures-bail (not (valid_dns_name name)) _ _ λ e. ensures_ok (from_not _ e)

-- Whatever is configured, the service domain of the builder is a name that `valid_dns_name` accepts:
-- the one that the API key gives, which is not checked, too.
pub Configured-valid_dns_name : (b : ClientBuilder) → Configured b → valid_dns_name b.domain ≡ true
unfolding client_builder request_policy dns_server
Configured-valid_dns_name _ (with_key api_key) = valid_dns_name-default api_key.key_id
Configured-valid_dns_name b' (with_domain b _ name v e) =
    Ensures-at (service_domain b name) (named_domain b name) e
Configured-valid_dns_name _ (with_policy b policy v) = Configured-valid_dns_name b v
Configured-valid_dns_name _ (with_server b address v) = Configured-valid_dns_name b v

abbrev IfOk : {A : Type 0} → (A → Type 0) → Result Error A → Type 0
IfOk P (ok a) = P a
IfOk P _ = Unit {0}

module _ {Resolver Sockets : Type 0} where
  -- The client on its sockets and its resolver.
  abbrev pub client_of : ClientBuilder → ℕ → Sockets → Resolver → Client Resolver Sockets
  client_of b now socket resolver = record {
    inner = new_state (config_of b) now socket resolver;
    client_domain = b.domain;
    client_limits = b.api_key.limits;
  }

  -- The build with the one check that it needs.
  abbrev pub checked_once :
      Result CoreError Sockets
      → (Option SocketAddr → Result CoreError Resolver)
      → ℕ
      → ClientBuilder
      → Result Error (Client Resolver Sockets)
  checked_once bound build_resolver now b = do
    _ ← map_err invalid_configuration (horizon_ms b.policy b.api_key.limits.dedup_ttl_ms_max)
    socket ← map_err from_core_error bound
    resolver ← map_err from_core_error (build_resolver b.dns)
    ok (client_of b now socket resolver)

  rest_once :
      (b : ClientBuilder) (now h : ℕ) (bound : Result CoreError Sockets)
      (resolver : Result CoreError Resolver)
      → (do
        inner ← map_err from_core_error (do
          socket ← bound
          r ← resolver
          _ ← map_err {E = _} (λ message. config (to_string message)) (ok h)
          ok (new_state (config_of b) now socket r))
        ok record { inner = inner; client_domain = b.domain; client_limits = b.api_key.limits })
        ≡ (do
          socket ← map_err from_core_error bound
          r ← map_err from_core_error resolver
          ok (client_of b now socket r))
  rest_once b now h (ok socket) (ok r) = refl
  rest_once b now h (ok socket) (err e) = refl
  rest_once b now h (ok socket) panic = refl
  rest_once b now h (err e) r = refl
  rest_once b now h panic r = refl

  -- The check of the policy in `new` never fails: `build` answers the error of its own check of the
  -- policy, then that of the bind, then that of the resolver, and otherwise the client on these.
  pub build_client_lem :
      (bound : Result CoreError Sockets)
      (build_resolver : Option SocketAddr → Result CoreError Resolver) (now : ℕ) (b : ClientBuilder)
      → build_client bound build_resolver now b ≡ checked_once bound build_resolver now b
  unfolding build_client new_client
  build_client_lem bound build_resolver now b =
      elim (Result-cases (horizon_ms b.policy b.api_key.limits.dedup_ttl_ms_max)) [
        | inl (h, e) ↦ rw e (rest_once b now h bound (build_resolver b.dns))
        | inr (inl (error, e)) ↦ rw e refl
        | inr (inr e) ↦ rw e refl
      ]

  -- What is known of a client that was built.
  pub record IsBuilt (b : ClientBuilder) (now : ℕ) (client : Client Resolver Sockets) : Type 0 where
    pub horizon : ℕ
    pub fits : horizon_ms b.policy b.api_key.limits.dedup_ttl_ms_max ≡ ok horizon
    pub socket : Sockets
    pub resolver : Resolver
    pub same : client ≡ client_of b now socket resolver

  parts :
      (b : ClientBuilder) (now : ℕ) (h : Result ConfigurationError ℕ)
      (bound : Result CoreError Sockets) (r : Result CoreError Resolver)
      → horizon_ms b.policy b.api_key.limits.dedup_ttl_ms_max ≡ h
      → IfOk (IsBuilt b now) (do
        _ ← map_err invalid_configuration h
        socket ← map_err from_core_error bound
        resolver ← map_err from_core_error r
        ok (client_of b now socket resolver))
  parts b now (ok horizon) (ok socket) (ok resolver) e = record {
    horizon = horizon;
    fits = e;
    socket = socket;
    resolver = resolver;
    same = refl;
  }
  parts b now (err error) bound r e = tt
  parts b now panic bound r e = tt
  parts b now (ok horizon) (err error) r e = tt
  parts b now (ok horizon) panic r e = tt
  parts b now (ok horizon) (ok socket) (err error) e = tt
  parts b now (ok horizon) (ok socket) panic e = tt

  pub build_client-IsBuilt :
      (bound : Result CoreError Sockets)
      (build_resolver : Option SocketAddr → Result CoreError Resolver) (now : ℕ) (b : ClientBuilder)
      (client : Client Resolver Sockets)
      → build_client bound build_resolver now b ≡ ok client
      → IsBuilt b now client
  build_client-IsBuilt bound build_resolver now b client e =
      subst (IfOk (IsBuilt b now)) (sym (build_client_lem bound build_resolver now b) ∙ e)
        (parts b now _ bound (build_resolver b.dns) refl)
