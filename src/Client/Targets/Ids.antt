-- ===== src/Client/Targets/Ids.antt =====
-- The targets that follow a refresh in src/client.rs, and the ids of their servers.
use rl_rust_client.Common.{
  ℕ, ◌≡◌, refl, ap, ◌∙◌, List, [], ◌∷◌, ◌++◌, All, Bool, true, false, ◌||◌, ◌==◌, ==_refl,
  Bool-cases, inl, inr, Option, none, some, ok, Ensures, ensures_ok, ensures_err, Ensures-map,
  Option-cases,
}
use rl_rust_client.ApiKey.Bech32.{Text}
use rl_rust_client.Client.Servers.{
  SocketAddr, v4, v6, same_addr, ResolvedTargets, insert_id, has_id, target_server_id,
}
use rl_rust_client.Client.Targets.{
  IpAddr, new_addr, ServerEndpoint, SrvAnswer, Resolver, parse_server_id_from_target, endpoints_at,
  endpoints_of, resolved_servers, servers_or_error, servers_of, refresh_servers, add_target,
  add_targets, targets_from, current_targets,
}

-- An address text is read back as the address.
abbrev pub IsPrinted : Resolver → Type 0
IsPrinted resolver = (ip : IpAddr) → resolver.parse_ip (resolver.print_ip ip) ≡ some ip

-- A target has an id, and the id is allowed.
abbrev pub IsServed : ResolvedTargets → SocketAddr → Type 0
IsServed r addr =
    (id : ℕ) × (target_server_id r.target_server_ids addr ≡ some id)
    × (has_id r.allowed_server_ids id ≡ true)

abbrev pub AllServed : ResolvedTargets → Type 0
AllServed r = All (IsServed r) r.targets

-- An endpoint that a refresh makes: an address and an id.
abbrev IsResolved : Resolver → ServerEndpoint → Type 0
IsResolved resolver server =
    ((ip : IpAddr) × (server.host ≡ resolver.print_ip ip))
    × ((id : ℕ) × (server.server_id ≡ some id))

has_id-insert_id : (ids : List ℕ) (id : ℕ) → has_id (insert_id ids id) id ≡ true
unfolding insert_id has_id
has_id-insert_id ids id = elim (Bool-cases (has_id ids id)) [
  | inl e ↦ rw e e
  | inr e ↦ rw e (rw (==_refl id) refl)
]

has_id_still : (ids : List ℕ) (id x : ℕ) → has_id ids x ≡ true → has_id (insert_id ids id) x ≡ true
unfolding insert_id has_id
has_id_still ids id x h = elim (Bool-cases (has_id ids id)) [
  | inl e ↦ rw e h
  | inr e ↦ rw e (rw h (or_true (id == x)))
]
  where
    or_true : (b : Bool) → (b || true) ≡ true
    or_true true = refl
    or_true false = refl

same_addr_refl : (addr : SocketAddr) → same_addr addr addr ≡ true
unfolding same_addr
same_addr_refl (v4 ip port) = rw (==_refl ip, ==_refl port) refl
same_addr_refl (v6 ip port flow scope) =
    rw (==_refl ip, ==_refl port, ==_refl flow, ==_refl scope) refl

module _ (r : ResolvedTargets) (addr : SocketAddr) (id : ℕ) where
  abbrev with_id : ResolvedTargets
  with_id = record {
    targets = r.targets ++ (addr ∷ []);
    target_server_ids = (addr, id) ∷ r.target_server_ids;
    allowed_server_ids = insert_id r.allowed_server_ids id;
  }

  new-IsServed : IsServed with_id addr
  unfolding target_server_id
  new-IsServed = (id, rw (same_addr_refl addr) refl, has_id-insert_id r.allowed_server_ids id)

  old-IsServed : (x : SocketAddr) → IsServed r x → IsServed with_id x
  unfolding target_server_id
  old-IsServed x (old, found, allowed) = elim (Bool-cases (same_addr addr x)) [
    | inl e ↦ (id, rw e refl, has_id-insert_id r.allowed_server_ids id)
    | inr e ↦ (old, rw e found, has_id_still r.allowed_server_ids id old allowed)
  ]

  IsServed-more :
      (xs : List SocketAddr) → All (IsServed r) xs → All (IsServed with_id) (xs ++ (addr ∷ []))
  IsServed-more [] h = (new-IsServed, tt)
  IsServed-more (x ∷ xs) (hx, h) = (old-IsServed x hx, IsServed-more xs h)

All-append : {A : Type 0} (P : A → Type 0) (xs ys : List A) → All P xs → All P ys → All P (xs ++ ys)
All-append P [] ys h k = k
All-append P (x ∷ xs) ys (hx, h) k = (hx, All-append P xs ys h k)

module _ (resolver : Resolver) (printed : IsPrinted resolver) where
  add_target-AllServed :
      (server : ServerEndpoint) (ip : IpAddr) (r : ResolvedTargets)
      → ((id : ℕ) × (server.server_id ≡ some id))
      → AllServed r
      → AllServed (add_target resolver server ip r)
  unfolding add_target
  add_target-AllServed server ip r (id, e) h =
      rw e (IsServed-more r (new_addr ip server.port) id r.targets h)

  targets_from-AllServed :
      (servers : List ServerEndpoint) (r : ResolvedTargets)
      → All (IsResolved resolver) servers
      → AllServed r
      → (out : ResolvedTargets) × (targets_from resolver servers r ≡ ok out) × AllServed out
  unfolding targets_from add_targets
  targets_from-AllServed [] r v h = (r, refl, h)
  targets_from-AllServed (server ∷ servers) r (((ip, host), id), v) h =
      let (out, made, served) =
        targets_from-AllServed servers (add_target resolver server ip r) v
          (add_target-AllServed server ip r id h) in
      let found : resolver.parse_ip server.host ≡ some ip =
        ap resolver.parse_ip host ∙ printed ip in
      (out, rw found made, served)

  endpoints-IsResolved :
      (answer : SrvAnswer) (id : ℕ) (ips : List IpAddr)
      → All (IsResolved resolver) (endpoints_at resolver answer id (some ips))
  endpoints-IsResolved answer id [] = tt
  endpoints-IsResolved answer id (ip ∷ ips) =
      (((ip, refl), (id, refl)), endpoints-IsResolved answer id ips)

  answer-IsResolved :
      (answer : SrvAnswer) (o : Option ℕ)
      → All (IsResolved resolver) (endpoints_of resolver answer o)
  answer-IsResolved answer none = tt
  answer-IsResolved answer (some id) = elim (Option-cases (resolver.lookup_ip answer.target)) [
    | inl e ↦ rw e tt
    | inr (ips, e) ↦ rw e (endpoints-IsResolved answer id ips)
  ]

  All-IsResolved :
      (answers : List SrvAnswer) → All (IsResolved resolver) (resolved_servers resolver answers)
  unfolding resolved_servers
  All-IsResolved [] = tt
  All-IsResolved (answer ∷ answers) =
      All-append (IsResolved resolver) (endpoints_of resolver answer _) _
        (answer-IsResolved answer (parse_server_id_from_target answer.target))
        (All-IsResolved answers)

  kept-IsResolved :
      (o : Option (List SrvAnswer)) → Ensures (All (IsResolved resolver)) (servers_of resolver o)
  kept-IsResolved none = ensures_err
  kept-IsResolved (some answers) =
      not_empty (resolved_servers resolver answers) (All-IsResolved answers)
    where
      not_empty :
          (servers : List ServerEndpoint)
          → All (IsResolved resolver) servers
          → Ensures (All (IsResolved resolver)) (servers_or_error resolver servers)
      not_empty [] h = ensures_err
      not_empty (server ∷ servers) h = ensures_ok h

  -- After a refresh that succeeds, `current_targets` succeeds without a lookup of its own, and every
  -- target has the id of a server, which is one of the allowed ids. The text of an address is
  -- taken to be read back as that address.
  pub current_targets-AllServed :
      (service_domain : Text)
      → Ensures
          (λ servers.
            (out : ResolvedTargets) × (current_targets resolver servers ≡ ok out) × AllServed out)
          (refresh_servers resolver service_domain)
  unfolding current_targets refresh_servers
  current_targets-AllServed service_domain =
      Ensures-map (λ servers h. targets_from-AllServed servers _ h tt) (kept-IsResolved _)
