-- ===== src/Policy/Request/Timed.antt =====
-- The rounds of the requests under a policy that `horizon_ms` of src/request_policy.rs accepts.
use rl_rust_client.Common.{
  ℕ, zero, suc, ◌+◌, ◌≡◌, refl, ltb, ◌==◌, ◌||◌, Result, ok, err, panic, ◌>>=◌, bail,
}
use rl_rust_client.Error.{ConfigurationError, invalid_request_policy}
use rl_rust_client.Policy.Schedule.{Schedule, units}
use rl_rust_client.Policy.Request.{
  RequestPolicy, max_replay_count, add_rounds, horizon_ms, checked_u64,
}

-- Each of the rounds, `left` of them from `round` on, has a length.
abbrev pub Timed : ℕ → Schedule → ℕ → Type 0
Timed zero gap round = Unit {0}
Timed (suc left) gap round =
    ((duration : ℕ) × (units gap round ≡ ok duration)) × Timed left gap (round + 1)

first_ok :
    {A B : Type 0} (m : Result ConfigurationError A) (f : A → Result ConfigurationError B) (b : B)
    → (m >>= f) ≡ ok b
    → (a : A) × (m ≡ ok a) × (f a ≡ ok b)
first_ok (ok a) f b e = (a, refl, e)
first_ok (err x) f b e = absurd (cc)
first_ok panic f b e = absurd (cc)

add_rounds-Timed :
    (left : ℕ) (gap : Schedule) (round total sum : ℕ)
    → add_rounds left gap round total ≡ ok sum
    → Timed left gap round
unfolding add_rounds
add_rounds-Timed zero gap round total sum e = tt
add_rounds-Timed (suc left) gap round total sum e =
    let (duration, timed, e₁) = first_ok (units gap round) _ sum e in
    let (total', _, e₂) = first_ok (checked_u64 (total + duration)) _ sum e₁ in
    ((duration, timed), add_rounds-Timed left gap (round + 1) total' sum e₂)

-- All rounds of a request have a length: the first transmission, and all replays.
pub horizon_ms-Timed :
    (p : RequestPolicy) (limit horizon : ℕ)
    → horizon_ms p limit ≡ ok horizon
    → Timed (suc p.replay_count) p.replay_gap 0
unfolding horizon_ms
horizon_ms-Timed p limit horizon e =
    let (_, _, e₁) =
      first_ok
        (bail (p.unit_ms == 0 || ltb max_replay_count p.replay_count || limit == 0)
          invalid_request_policy)
        _ horizon e in
    let (sum, summed, _) =
      first_ok (add_rounds (suc p.replay_count) p.replay_gap 0 p.final_receive_units) _ horizon
        e₁ in
    add_rounds-Timed (suc p.replay_count) p.replay_gap 0 p.final_receive_units sum summed
