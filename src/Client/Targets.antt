-- ===== src/Client/Targets.antt =====
-- The servers that src/client.rs finds: `parse_server_id_from_target`, `_refresh_servers` and
-- `current_targets`. The resolver is a parameter, and so are the texts of IP addresses.
pub mod Ids
pub mod Labels
pub mod Decimal
use rl_rust_client.Common.{
  ℕ, ◌+◌, ◌-◌, ◌*◌, ◌^◌, List, [], ◌∷◌, ◌++◌, map, length, all, Bool, true, false, not, ◌&&◌, ltb,
  leb, ◌==◌, if◌then◌else◌, Option, none, some, Result, ok, err, panic, ok_or, ◌>>=◌,
}
use rl_rust_client.Error.{CoreError, Message, dns, text}
use rl_rust_client.ApiKey.Bech32.{Text, to_ascii_lowercase}
use rl_rust_client.ApiKey.Codec.{strip_prefix}
use rl_rust_client.Client.Servers.{SocketAddr, v4, v6, ResolvedTargets, insert_id}

-- `trim_end_matches(c)`
abbrev pub keep_front : ℕ → ℕ → Text → Text
keep_front c x [] = if x == c then [] else x ∷ []
keep_front c x (y ∷ ys) = x ∷ (y ∷ ys)

abbrev pub trim_end : ℕ → Text → Text
trim_end c [] = []
trim_end c (x ∷ xs) = keep_front c x (trim_end c xs)

-- `split(c).next()`
abbrev pub first_part : ℕ → Text → Text
first_part c [] = []
first_part c (x ∷ xs) = let rest = first_part c xs in if x == c then [] else x ∷ rest

abbrev pub is_ascii_digit : ℕ → Bool
is_ascii_digit c = leb b'0' c && leb c b'9'

-- `parse::<u64>()` of digits.
abbrev pub digits_value : ℕ → Text → ℕ
digits_value acc [] = acc
digits_value acc (c ∷ cs) = digits_value (acc * 10 + (c - b'0')) cs

abbrev pub parse_u64 : Text → Option ℕ
parse_u64 cs = let n = digits_value 0 cs in if ltb (2 ^ 64 - 1) n then none else some n

abbrev pub starts_with_zero : Text → Bool
starts_with_zero [] = false
starts_with_zero (c ∷ cs) = c == b'0'

-- What follows the prefix.
unfoldable pub parse_decimal : Text → Option ℕ
parse_decimal decimal =
    if length decimal == 0
    then none
    else if ltb 1 (length decimal) && starts_with_zero decimal
    then none
    else if not (all is_ascii_digit decimal)
    then none
    else parse_u64 decimal

abbrev pub decimal_id : Option Text → Option ℕ
decimal_id none = none
decimal_id (some decimal) = parse_decimal decimal

unfoldable pub parse_server_id_from_target : Text → Option ℕ
parse_server_id_from_target target = decimal_id (
    strip_prefix (b's' ∷ b'-' ∷ [])
      (map to_ascii_lowercase (first_part b'.' (trim_end b'.' target))))

pub data IpAddr : Type 0 where
  ip4 ip6 : ℕ → IpAddr

-- `SocketAddr::new`
abbrev pub new_addr : IpAddr → ℕ → SocketAddr
new_addr (ip4 ip) port = v4 ip port
new_addr (ip6 ip) port = v6 ip port 0 0

pub record ServerEndpoint : Type 0 where
  pub host : Text
  pub port : ℕ
  pub server_id : Option ℕ

pub record SrvAnswer : Type 0 where
  pub target : Text
  pub srv_port : ℕ

-- The resolver's answers, `none` for an error, and `to_string` and `parse` of IP addresses.
pub record Resolver : Type 0 where
  pub srv_lookup : Text → Option (List SrvAnswer)
  pub lookup_ip : Text → Option (List IpAddr)
  pub lookup_error : Message
  pub print_ip : IpAddr → Text
  pub parse_ip : Text → Option IpAddr

module _ (resolver : Resolver) where
  -- The endpoints of one answer.
  abbrev pub endpoints_at : SrvAnswer → ℕ → Option (List IpAddr) → List ServerEndpoint
  endpoints_at answer id none = []
  endpoints_at answer id (some ips) =
      map
        (λ ip. record { host = resolver.print_ip ip; port = answer.srv_port; server_id = some id })
        ips

  abbrev pub endpoints_of : SrvAnswer → Option ℕ → List ServerEndpoint
  endpoints_of answer none = []
  endpoints_of answer (some id) = endpoints_at answer id (resolver.lookup_ip answer.target)

  unfoldable pub resolved_servers : List SrvAnswer → List ServerEndpoint
  resolved_servers [] = []
  resolved_servers (answer ∷ answers) =
      endpoints_of answer (parse_server_id_from_target answer.target) ++ resolved_servers answers

  abbrev pub servers_or_error : List ServerEndpoint → Result CoreError (List ServerEndpoint)
  servers_or_error [] = err (dns (text "No SRV servers found"))
  servers_or_error (server ∷ servers) = ok (server ∷ servers)

  abbrev pub servers_of : Option (List SrvAnswer) → Result CoreError (List ServerEndpoint)
  servers_of none = err (dns (text "No SRV servers found"))
  servers_of (some answers) = servers_or_error (resolved_servers answers)

  -- `_refresh_servers`: the list that replaces the old one, or the error.
  unfoldable pub refresh_servers : Text → Result CoreError (List ServerEndpoint)
  refresh_servers service_domain = servers_of (
      resolver.srv_lookup (
        (b'_' ∷ b'r' ∷ b'a' ∷ b't' ∷ b'e' ∷ b'l' ∷ b'i' ∷ b'm' ∷ b'i' ∷ b't' ∷ b'l' ∷ b'y' ∷ b'.'
          ∷ b'_' ∷ b'u' ∷ b'd' ∷ b'p' ∷ b'.' ∷ [])
        ++ service_domain))

  -- One address, with what its server's id adds. The newest entry of a map stands first.
  abbrev pub add_id : SocketAddr → Option ℕ → ResolvedTargets → ResolvedTargets
  add_id addr none r = r
  add_id addr (some id) r = record {
    targets = r.targets;
    target_server_ids = (addr, id) ∷ r.target_server_ids;
    allowed_server_ids = insert_id r.allowed_server_ids id;
  }

  unfoldable pub add_target : ServerEndpoint → IpAddr → ResolvedTargets → ResolvedTargets
  add_target server ip r =
      let addr = new_addr ip server.port in
      add_id addr server.server_id (record {
        targets = r.targets ++ (addr ∷ []);
        target_server_ids = r.target_server_ids;
        allowed_server_ids = r.allowed_server_ids;
      })

  unfoldable pub add_targets : ServerEndpoint → List IpAddr → ResolvedTargets → ResolvedTargets
  add_targets server [] r = r
  add_targets server (ip ∷ ips) r = add_targets server ips (add_target server ip r)

  -- The addresses of a server: the one that its host is, or those that it resolves to.
  abbrev pub addresses : ServerEndpoint → Option IpAddr → Result CoreError (List IpAddr)
  addresses server (some ip) = ok (ip ∷ [])
  addresses server none = ok_or (resolver.lookup_ip server.host) (dns resolver.lookup_error)

  unfoldable pub targets_from :
      List ServerEndpoint → ResolvedTargets → Result CoreError ResolvedTargets
  targets_from [] r = ok r
  targets_from (server ∷ servers) r = do
    ips ← addresses server (resolver.parse_ip server.host)
    targets_from servers (add_targets server ips r)

  unfoldable pub current_targets : List ServerEndpoint → Result CoreError ResolvedTargets
  current_targets servers =
      targets_from servers
        (record { targets = []; target_server_ids = []; allowed_server_ids = [] })
