-- ===== src/Client/Servers/Age.antt =====
-- The order of servers by age in src/client.rs, next to the order of their ids.
use rl_rust_client.Common.{ℕ, ◌≤◌, ◌≡◌, arith, List, [], ◌∷◌, All, ltb, if◌then◌else◌}
use rl_rust_client.Client.Servers.{compare_server_age, is_older, oldest_from}
use Prim.Native.Nat.{compare}

-- Comparing two servers by start second and then by id compares their ids: the start second stands
-- in the upper bits of the id, so the two keys never disagree.
pub compare_server_age_lem : (left right : ℕ) → compare_server_age left right ≡ compare left right
unfolding compare_server_age
compare_server_age_lem left right = ground arith

pub is_older_lem : (left right : ℕ) → is_older left right ≡ ltb left right
is_older_lem left right = rw (compare_server_age_lem left right) (ground arith)

older_le :
    (id best : ℕ)
    → ((if is_older id best then id else best) ≤ id)
      × ((if is_older id best then id else best) ≤ best)
older_le id best = rw (is_older_lem id best) (ground arith)

-- The oldest server has the least id of all.
pub oldest_from-le :
    (best : ℕ) (ids : List ℕ)
    → (oldest_from best ids ≤ best) × All (λ id. oldest_from best ids ≤ id) ids
unfolding oldest_from
oldest_from-le best [] = (omega arith, tt)
oldest_from-le best (id ∷ ids) =
    let (below, all_below) = oldest_from-le (if is_older id best then id else best) ids in
    let (l, r) = older_le id best in (omega (arith, below, r), (omega (arith, below, l), all_below))
