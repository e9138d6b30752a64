-- ===== src/Policy/Schedule.antt =====
-- `Schedule` and its `units`, of src/request_policy.rs.
pub mod Units
use rl_rust_client.Common.{
  ℕ, zero, suc, ◌+◌, ◌-◌, ◌*◌, ◌/◌, ◌%◌, ◌^◌, min, ltb, leb, ◌==◌, not, ◌||◌, if◌then◌else◌, Result,
  ok, ◌>>◌, bail,
}
use rl_rust_client.Error.{ConfigurationError, invalid_request_policy}

pub data ScheduleKind : Type 0 where
  fixed_kind linear_kind exponential_kind : ScheduleKind

pub record Schedule : Type 0 where
  pub kind : ScheduleKind
  pub initial_units : ℕ
  pub max_units : ℕ
  pub growth : ℕ

abbrev pub u32 : ℕ → ℕ
u32 n = n % 2 ^ 32

unfoldable pub fixed : ℕ → Schedule
fixed units = record { kind = fixed_kind; initial_units = units; max_units = units; growth = 0 }

unfoldable pub linear : ℕ → ℕ → ℕ → Schedule
linear initial step max = record {
  kind = linear_kind;
  initial_units = initial;
  max_units = max;
  growth = step;
}

unfoldable pub exponential : ℕ → ℕ → ℕ → Schedule
exponential initial factor max = record {
  kind = exponential_kind;
  initial_units = initial;
  max_units = max;
  growth = factor;
}

-- The loop of the exponential schedule: the rounds left, and `value`.
unfoldable pub exponential_units : ℕ → ℕ → ℕ → ℕ → ℕ
exponential_units zero value max growth = min value max
exponential_units (suc left) value max growth =
    let rest = exponential_units left (u32 (value * growth)) max growth in
    if leb max value || ltb (max / growth) value then max else rest

unfoldable pub units_of : ScheduleKind → Schedule → ℕ → Result ConfigurationError ℕ
units_of fixed_kind s round = do
  bail (not (s.max_units == s.initial_units) || not (s.growth == 0)) invalid_request_policy
  ok s.initial_units
units_of linear_kind s round = do
  bail (s.growth == 0) invalid_request_policy
  let room = s.max_units - s.initial_units
  ok (
      if ltb (room / s.growth) round
      then s.max_units
      else u32 (s.initial_units + u32 (round * s.growth)))
units_of exponential_kind s round = do
  bail (ltb s.growth 2) invalid_request_policy
  ok (exponential_units round s.initial_units s.max_units s.growth)

unfoldable pub units : Schedule → ℕ → Result ConfigurationError ℕ
unfolding units_of
units s round = do
  bail (s.initial_units == 0 || ltb s.max_units s.initial_units) invalid_request_policy
  units_of s.kind s round
