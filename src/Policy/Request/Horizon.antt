-- ===== src/Policy/Request/Horizon.antt =====
-- `horizon_ms` of src/request_policy.rs, next to the sum of all rounds over unbounded numbers.
use rl_rust_client.Common.{
  ℕ, zero, suc, ◌+◌, ◌*◌, ◌^◌, ◌<◌, ◌≡◌, ◌∙◌, ap, arith, ltb, ◌==◌, not, ◌||◌, if◌then◌else◌, Bool,
  true, false, Bool-cases, inl, inr, ok, err, ◌>>=◌, ◌>>◌, bail, le→ltb-false, ltb-false→le,
}
use rl_rust_client.Error.{invalid_request_policy, request_policy_exceeds_api_key}
use rl_rust_client.Policy.Schedule.{Schedule, u32}
use rl_rust_client.Policy.Schedule.Units.{
  IsSchedule, is_valid, ideal_units, units-ideal, ideal_units_bounds,
}
use rl_rust_client.Policy.Request.{
  RequestPolicy, max_replay_count, u32_max, u64_max, add_rounds, horizon_ms, checked_u64,
}

-- The units of `left` rounds, from `round` on.
abbrev pub sum_rounds : ℕ → Schedule → ℕ → ℕ
sum_rounds zero gap round = 0
sum_rounds (suc left) gap round = ideal_units gap round + sum_rounds left gap (round + 1)

-- All units of a request: its transmission rounds and the final receive phase.
unfoldable pub total_units : RequestPolicy → ℕ
total_units p = p.final_receive_units + sum_rounds (suc p.replay_count) p.replay_gap 0

-- The fields are `u64` and `u32` values.
pub record IsPolicy (p : RequestPolicy) : Type 0 where
  pub unit_fits : p.unit_ms < 2 ^ 64
  pub replays_fit : p.replay_count < 2 ^ 32
  pub gap_fits : IsSchedule p.replay_gap
  pub final_fits : p.final_receive_units < 2 ^ 32

step_error :
    (left : ℕ) (gap : Schedule) (round total : ℕ)
    → IsSchedule gap
    → is_valid gap ≡ false
    → add_rounds (suc left) gap round total ≡ err invalid_request_policy
unfolding add_rounds
step_error left gap round total h e = rw (units-ideal gap round h, e)

-- No sum of at most 65536 rounds overflows.
add_rounds_lem :
    (left : ℕ) (gap : Schedule) (round total : ℕ)
    → IsSchedule gap
    → is_valid gap ≡ true
    → total + left * 2 ^ 32 < 2 ^ 64
    → add_rounds left gap round total ≡ ok (total + sum_rounds left gap round)
unfolding add_rounds
add_rounds_lem zero gap round total h v k = ap ok (omega arith)
add_rounds_lem (suc left) gap round total h v k =
    let small : ideal_units gap round < 2 ^ 32 =
      omega (arith, (ideal_units_bounds gap round v).1, h.max_fits) in
    rw (units-ideal gap round h, v, no_overflow small)
      (add_rounds_lem left gap (round + 1) (total + ideal_units gap round) h v (omega arith)
        ∙ ap ok (omega arith))
  where
    no_overflow :
        ideal_units gap round < 2 ^ 32 → ltb u64_max (total + ideal_units gap round) ≡ false
    no_overflow small = le→ltb-false u64_max (total + ideal_units gap round) (omega arith)

total_units-pos : (p : RequestPolicy) → is_valid p.replay_gap ≡ true → 0 < total_units p
unfolding total_units
total_units-pos p v =
    omega (arith, (ideal_units_bounds p.replay_gap 0 v).0, initial_pos p.replay_gap v)
  where
    initial_pos : (s : Schedule) → is_valid s ≡ true → 0 < s.initial_units
    initial_pos s e = ground arith

add_rounds-total :
    (p : RequestPolicy)
    → IsPolicy p
    → is_valid p.replay_gap ≡ true
    → ltb max_replay_count p.replay_count ≡ false
    → add_rounds (suc p.replay_count) p.replay_gap 0 p.final_receive_units ≡ ok (total_units p)
unfolding total_units
add_rounds-total p h v few =
    add_rounds_lem (suc p.replay_count) p.replay_gap 0 p.final_receive_units h.gap_fits v
      (omega (arith, ltb-false→le max_replay_count p.replay_count few))

-- The parts of `horizon_ms` that are no sums.
abbrev pub is_bad : RequestPolicy → ℕ → Bool
is_bad p limit = p.unit_ms == 0 || ltb max_replay_count p.replay_count || limit == 0

-- The code behind the loop, for a sum `t` that is not 0.
last_checks :
    (t unit limit : ℕ)
    → 0 < t
    → (do
      h ← checked_u64 (t * unit)
      bail (t == 0 || ltb u32_max h) invalid_request_policy
      bail (ltb limit h) request_policy_exceeds_api_key
      ok (u32 h))
      ≡ (if ltb u32_max (t * unit)
          then err invalid_request_policy
          else if ltb limit (t * unit)
          then err request_policy_exceeds_api_key
          else ok (t * unit))
last_checks t unit limit h = ground arith

-- `horizon_ms` on every policy and every limit: which of the two errors, or the horizon, which is
-- the unit times the sum of all rounds over unbounded numbers.
pub horizon_ms_lem :
    (p : RequestPolicy) (limit : ℕ)
    → IsPolicy p
    → let h = total_units p * p.unit_ms in
      horizon_ms p limit ≡ (
        if is_bad p limit || not (is_valid p.replay_gap) || ltb u32_max h
        then err invalid_request_policy
        else if ltb limit h
        then err request_policy_exceeds_api_key
        else ok h)
unfolding horizon_ms
horizon_ms_lem p limit h = elim (Bool-cases (is_bad p limit)) [
  | inl bad ↦ rw bad
  | inr fine ↦ elim (Bool-cases (is_valid p.replay_gap)) [
    | inl valid ↦
        rw (add_rounds-total p h valid (few fine), fine, valid)
          (last_checks (total_units p) p.unit_ms limit (total_units-pos p valid))
    | inr invalid ↦ rw (
      step_error p.replay_count p.replay_gap 0 p.final_receive_units h.gap_fits invalid,
      fine,
      invalid,
    )
  ]
]
  where
    few : is_bad p limit ≡ false → ltb max_replay_count p.replay_count ≡ false
    few fine = ground arith
