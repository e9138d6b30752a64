-- ===== src/Policy/Schedule/Units.antt =====
-- `Schedule::units` of src/request_policy.rs, next to a closed form over unbounded numbers.
use rl_rust_client.Common.{
  ℕ, zero, suc, ◌+◌, ◌-◌, ◌*◌, ◌/◌, ◌^◌, ◌≤◌, ◌<◌, min, ◌≡◌, ◌∙◌, arith, ltb, leb, ◌==◌, not, ◌&&◌,
  ◌||◌, if◌then◌else◌, Bool, true, false, Bool-cases, inl, inr, ok, err, leb→le,
}
use rl_rust_client.Error.{invalid_request_policy}
use rl_rust_client.Policy.Schedule.{
  ScheduleKind, fixed_kind, linear_kind, exponential_kind, Schedule, u32, exponential_units, units,
}
use native.Mathlib.Nat.{pow-zero, pow-suc, one-le-pow}

-- The fields are `u32` values.
pub record IsSchedule (s : Schedule) : Type 0 where
  pub initial_fits : s.initial_units < 2 ^ 32
  pub max_fits : s.max_units < 2 ^ 32
  pub growth_fits : s.growth < 2 ^ 32

abbrev pub is_valid_kind : ScheduleKind → Schedule → Bool
is_valid_kind fixed_kind s = s.max_units == s.initial_units && s.growth == 0
is_valid_kind linear_kind s = not (s.growth == 0)
is_valid_kind exponential_kind s = leb 2 s.growth

-- What the documentation of the schedule asks of its values.
abbrev pub is_valid : Schedule → Bool
is_valid s = not (s.initial_units == 0) && leb s.initial_units s.max_units && is_valid_kind s.kind s

-- The closed form, over unbounded numbers.
abbrev pub uncapped : ScheduleKind → Schedule → ℕ → ℕ
uncapped fixed_kind s round = s.initial_units
uncapped linear_kind s round = s.initial_units + round * s.growth
uncapped exponential_kind s round = s.initial_units * s.growth ^ round

abbrev pub ideal_units : Schedule → ℕ → ℕ
ideal_units s round = min (uncapped s.kind s round) s.max_units

le-mul : (v k : ℕ) → 0 < k → v ≤ v * k
le-mul v k h = grind arith

lt-mul_of_div : (m g v : ℕ) → 0 < g → m / g < v → m < v * g
lt-mul_of_div m g v h k = grind arith

mul-le_of_div : (m g v : ℕ) → 0 < g → v ≤ m / g → v * g ≤ m
mul-le_of_div m g v h k = grind arith

-- The test of the loop, either way.
capped : (v max g k : ℕ) → 0 < g → 0 < k → (leb max v || ltb (max / g) v) ≡ true → max ≤ v * (k * g)
capped v max g k h hk e =
    ground (arith, le-mul v (k * g), lt-mul_of_div max g v, le-mul (v * g) k, le-mul g k)

not_capped : (v max g : ℕ) → 0 < g → (leb max v || ltb (max / g) v) ≡ false → v * g ≤ max
not_capped v max g h e = ground (arith, mul-le_of_div max g v)

exponential_units_lem :
    (left v max g : ℕ)
    → 2 ≤ g
    → max < 2 ^ 32
    → exponential_units left v max g ≡ min (v * g ^ left) max
unfolding exponential_units
exponential_units_lem zero v max g h k = rw pow-zero (omega arith)
exponential_units_lem (suc left) v max g h k = elim (Bool-cases (leb max v || ltb (max / g) v)) [
  | inl e ↦
      rw (e, pow-suc g left)
        (omega (arith, capped v max g (g ^ left) (omega arith) (one-le-pow left g (omega arith)) e))
  | inr e ↦
      let fits = not_capped v max g (omega arith) e in
      let exact : u32 (v * g) ≡ v * g = omega arith in
      rw (e, pow-suc g left, exact) (exponential_units_lem left (v * g) max g h k ∙ omega arith)
]

linear_fits : (i m g r : ℕ) → 0 < g → ltb ((m - i) / g) r ≡ false → i ≤ m → i + r * g ≤ m
linear_fits i m g r h e k = ground (arith, mul-le_of_div (m - i) g r)

linear_capped : (i m g r : ℕ) → 0 < g → ltb ((m - i) / g) r ≡ true → m ≤ i + r * g
linear_capped i m g r h e = ground (arith, lt-mul_of_div (m - i) g r)

-- On every schedule of `u32` fields and every round, `units` is the closed form, capped, if the
-- schedule is valid, and the error otherwise: no sum and no product wraps.
pub units-ideal :
    (s : Schedule) (round : ℕ)
    → IsSchedule s
    → units s round ≡ (if is_valid s then ok (ideal_units s round) else err invalid_request_policy)
unfolding units
units-ideal s round h = by_kind s.kind
  where
    by_kind :
        (k : ScheduleKind)
        → units (record s { kind = k }) round ≡ (
            if is_valid (record s { kind = k })
            then ok (ideal_units (record s { kind = k }) round)
            else err invalid_request_policy)
    by_kind fixed_kind = ground arith
    by_kind linear_kind = ground (
      arith,
      linear_fits s.initial_units s.max_units s.growth round,
      linear_capped s.initial_units s.max_units s.growth round,
    )
    by_kind exponential_kind =
        ground (arith, exponential_units_lem round s.initial_units s.max_units s.growth)

-- A round of a valid schedule lasts between its initial and its maximal units.
pub ideal_units_bounds :
    (s : Schedule) (round : ℕ)
    → is_valid s ≡ true
    → (s.initial_units ≤ ideal_units s round) × (ideal_units s round ≤ s.max_units)
ideal_units_bounds s round h = (omega (arith, below, grows s.kind valid), omega arith)
  where
    below : s.initial_units ≤ s.max_units
    below = ground arith

    valid : is_valid_kind s.kind s ≡ true
    valid = ground arith

    grows : (k : ScheduleKind) → is_valid_kind k s ≡ true → s.initial_units ≤ uncapped k s round
    grows fixed_kind e = omega arith
    grows linear_kind e = omega arith
    grows exponential_kind e =
        le-mul s.initial_units (s.growth ^ round)
          (one-le-pow round s.growth (omega (arith, leb→le 2 s.growth e)))
