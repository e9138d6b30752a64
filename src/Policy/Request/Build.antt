-- ===== src/Policy/Request/Build.antt =====
-- The policies that `RequestPolicyBuilder::build` of src/request_policy.rs returns.
use rl_rust_client.Common.{
  refl, ℕ, ◌*◌, ◌^◌, ◌≤◌, ◌<◌, ◌≡◌, subst, arith, ltb, not, ◌||◌, if◌then◌else◌, false, inl, inr,
  ok, err, Result-cases,
}
use rl_rust_client.Duration.{IsDuration, from_millis, as_millis, is_zero, is_whole_millis}
use rl_rust_client.Error.{request_policy_exceeds_api_key}
use rl_rust_client.Policy.Schedule.Units.{IsSchedule}
use rl_rust_client.Policy.Request.{
  RequestPolicy, RequestPolicyBuilder, u32_max, u64_max, horizon_ms, horizon, to_policy, build,
}
use rl_rust_client.Policy.Request.Horizon.{IsPolicy, total_units, horizon_ms_lem}

pub record IsBuilder (b : RequestPolicyBuilder) : Type 0 where
  pub unit_fits : IsDuration b.unit
  pub replays_fit : b.replay_count < 2 ^ 32
  pub gap_fits : IsSchedule b.replay_gap
  pub final_fits : b.final_receive_units < 2 ^ 32

to_policy-IsPolicy : (b : RequestPolicyBuilder) → IsBuilder b → IsPolicy (to_policy b)
unfolding to_policy
to_policy-IsPolicy b h = record {
  unit_fits = omega arith;
  replays_fit = h.replays_fit;
  gap_fits = h.gap_fits;
  final_fits = h.final_fits;
}

-- A successful build: its unit passed the test, and so did its horizon.
build_ok :
    (b : RequestPolicyBuilder) (p : RequestPolicy)
    → build b ≡ ok p
    → (to_policy b ≡ p)
      × ((is_zero b.unit || not (is_whole_millis b.unit) || ltb u64_max (as_millis b.unit)) ≡ false)
      × (h : ℕ) × (horizon_ms (to_policy b) u32_max ≡ ok h)
unfolding build
build_ok b p e = elim (Result-cases (horizon_ms (to_policy b) u32_max)) [
  | inl (h, r) ↦ (ground (arith, r), ground (arith, r), h, r)
  | inr (inl (x, r)) ↦ absurd (ground (arith, r))
  | inr (inr r) ↦ absurd (ground (arith, r))
]

-- What the horizon test at `u32::MAX` shows of a policy.
horizon_ok :
    (p : RequestPolicy) (h : ℕ)
    → IsPolicy p
    → horizon_ms p u32_max ≡ ok h
    → (h ≡ total_units p * p.unit_ms)
      × (h ≤ u32_max)
      × ((limit : ℕ)
          → 0 < limit
          → horizon_ms p limit ≡ (if ltb limit h then err request_policy_exceeds_api_key else ok h))
horizon_ok p h v e = (
  ground (arith, horizon_ms_lem p u32_max v),
  ground (arith, horizon_ms_lem p u32_max v),
  λ limit k. ground (arith, horizon_ms_lem p u32_max v, horizon_ms_lem p limit v),
)

same_unit :
    (b : RequestPolicyBuilder)
    → IsDuration b.unit
    → (is_zero b.unit || not (is_whole_millis b.unit) || ltb u64_max (as_millis b.unit)) ≡ false
    → from_millis (to_policy b).unit_ms ≡ b.unit
unfolding to_policy
same_unit b v e = ground arith

-- The builder's settings, each in the policy.
pub record HasSettings (b : RequestPolicyBuilder) (p : RequestPolicy) : Type 0 where
  pub same_unit_ms : p.unit_ms ≡ as_millis b.unit
  pub same_replays : p.replay_count ≡ b.replay_count
  pub same_gap : p.replay_gap ≡ b.replay_gap
  pub same_final : p.final_receive_units ≡ b.final_receive_units
  pub same_completion : p.completion_delivery ≡ b.completion_delivery

to_policy-HasSettings :
    (b : RequestPolicyBuilder)
    → (is_zero b.unit || not (is_whole_millis b.unit) || ltb u64_max (as_millis b.unit)) ≡ false
    → HasSettings b (to_policy b)
unfolding to_policy
to_policy-HasSettings b e = record {
  same_unit_ms = ground arith;
  same_replays = refl;
  same_gap = refl;
  same_final = refl;
  same_completion = refl;
}

-- A policy that `build` returns carries each of the builder's settings, the unit in milliseconds. Its
-- `horizon` does not panic and is the duration of all rounds, and at an API key's positive limit
-- the only error left is that the horizon exceeds it.
pub build_lem :
    (b : RequestPolicyBuilder) (p : RequestPolicy) (limit : ℕ)
    → IsBuilder b
    → build b ≡ ok p
    → 0 < limit
    → HasSettings b p
      × (from_millis p.unit_ms ≡ b.unit)
      × (horizon p ≡ ok (from_millis (total_units p * p.unit_ms)))
      × (horizon_ms p limit ≡ (
          if ltb limit (total_units p * p.unit_ms)
          then err request_policy_exceeds_api_key
          else ok (total_units p * p.unit_ms)))
unfolding horizon
build_lem b p limit v e pos =
    let (same, unit_ok, h, fits) = build_ok b p e in
    let (exact, _, later) =
      horizon_ok p h (subst IsPolicy same (to_policy-IsPolicy b v))
        (subst (λ q. horizon_ms q u32_max ≡ ok h) same fits) in
    let at_max : horizon_ms p u32_max ≡ ok h = subst (λ q. horizon_ms q u32_max ≡ ok h) same fits in
    (
      subst (HasSettings b) same (to_policy-HasSettings b unit_ok),
      subst (λ (q : RequestPolicy). from_millis q.unit_ms ≡ b.unit) same
          (same_unit b v.unit_fits unit_ok),
      rw (at_max, exact),
      subst
          (λ (t : ℕ).
            horizon_ms p limit ≡ (if ltb limit t then err request_policy_exceeds_api_key else ok t))
          exact (later limit pos),
    )
