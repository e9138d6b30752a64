-- ===== src/Client/Servers.antt =====
-- The servers as src/client.rs sees them: addresses, ids and their age, statistics, and the targets
-- of a request. A `HashSet` is the list of its elements, a `HashMap` the list of its entries.
pub mod Age
pub mod Oldest
use rl_rust_client.Common.{
  ℕ, ◌+◌, ◌/◌, ◌^◌, List, [], ◌∷◌, Bool, true, false, ◌&&◌, ◌||◌, ◌==◌, if◌then◌else◌, Option, none,
  some,
}
use Prim.Native.Nat.{compare, Ordering}

-- `std::net::SocketAddr`: address and port, and for IPv6 the flow information and the scope.
pub data SocketAddr : Type 0 where
  v4 : ℕ → ℕ → SocketAddr
  v6 : ℕ → ℕ → ℕ → ℕ → SocketAddr

unfoldable pub same_addr : SocketAddr → SocketAddr → Bool
same_addr (v4 ip port) (v4 ip' port') = ip == ip' && port == port'
same_addr (v6 ip port flow scope) (v6 ip' port' flow' scope') =
    ip == ip' && port == port' && flow == flow' && scope == scope'
same_addr _ _ = false

-- `HashSet<u64>`
unfoldable pub has_id : List ℕ → ℕ → Bool
has_id [] id = false
has_id (x ∷ ids) id = x == id || has_id ids id

unfoldable pub insert_id : List ℕ → ℕ → List ℕ
unfolding has_id
insert_id ids id = if has_id ids id then ids else id ∷ ids

-- `HashSet<SocketAddr>`
unfoldable pub has_addr : List SocketAddr → SocketAddr → Bool
has_addr [] addr = false
has_addr (x ∷ addrs) addr = same_addr x addr || has_addr addrs addr

unfoldable pub insert_addr : List SocketAddr → SocketAddr → List SocketAddr
unfolding has_addr
insert_addr addrs addr = if has_addr addrs addr then addrs else addr ∷ addrs

-- `HashMap<SocketAddr, u64>`
unfoldable pub target_server_id : List (SocketAddr × ℕ) → SocketAddr → Option ℕ
target_server_id [] addr = none
target_server_id ((x, id) ∷ entries) addr =
    if same_addr x addr then some id else target_server_id entries addr

pub record ResolvedTargets : Type 0 where
  pub targets : List SocketAddr
  pub target_server_ids : List (SocketAddr × ℕ)
  pub allowed_server_ids : List ℕ

-- `HashMap<u64, ServerStats>`. Times are counted from any origin.
pub record ServerStats : Type 0 where
  pub last_seen : ℕ
  pub valid_responses : ℕ
  pub send_failures : ℕ

abbrev pub Stats : Type 0
Stats = List (ℕ × ServerStats)

unfoldable pub new_stats : ℕ → ServerStats
new_stats now = record { last_seen = now; valid_responses = 0; send_failures = 0 }

-- `stats.entry(id).or_insert_with(|| ServerStats::new(now))`, updated by `f`.
unfoldable pub update_entry : Stats → ℕ → ℕ → (ServerStats → ServerStats) → Stats
unfolding new_stats
update_entry [] id now f = (id, f (new_stats now)) ∷ []
update_entry ((x, s) ∷ stats) id now f =
    if x == id then (x, f s) ∷ stats else (x, s) ∷ update_entry stats id now f

unfoldable pub record_send_failures : Stats → ℕ → List ℕ → Stats
record_send_failures stats now [] = stats
record_send_failures stats now (id ∷ ids) =
    record_send_failures
      (update_entry stats id now (λ s. record s { send_failures = s.send_failures + 1 })) now ids

abbrev pub server_id_epoch_s_2025 : ℕ
server_id_epoch_s_2025 = 1_735_689_600

unfoldable pub server_start_s_from_id : ℕ → ℕ
server_start_s_from_id server_id = server_id_epoch_s_2025 + server_id / 2 ^ 23

-- The order of pairs, by which `compare_server_age` compares.
abbrev then_with : Ordering → Ordering → Ordering
then_with Ordering.lt o = Ordering.lt
then_with Ordering.eq o = o
then_with Ordering.gt o = Ordering.gt

unfoldable pub compare_server_age : ℕ → ℕ → Ordering
unfolding server_start_s_from_id
compare_server_age left right =
    then_with (compare (server_start_s_from_id left) (server_start_s_from_id right))
      (compare left right)

abbrev pub is_lt : Ordering → Bool
is_lt Ordering.lt = true
is_lt _ = false

abbrev pub is_older : ℕ → ℕ → Bool
is_older left right = is_lt (compare_server_age left right)

-- `allowed_server_ids.iter().copied().min_by(compare_server_age)`: the first of the least ones.
unfoldable pub oldest_from : ℕ → List ℕ → ℕ
oldest_from best [] = best
oldest_from best (id ∷ ids) = oldest_from (if is_older id best then id else best) ids

unfoldable pub oldest_server_id : List ℕ → Option ℕ
oldest_server_id [] = none
oldest_server_id (id ∷ ids) = some (oldest_from id ids)
