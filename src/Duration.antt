-- ===== src/Duration.antt =====
-- `std::time::Duration` as whole seconds and nanoseconds below a second, and
-- `duration_to_u32_ms` of src/model.rs.
use rl_rust_client.Common.{
  ℕ, ◌+◌, ◌-◌, ◌*◌, ◌/◌, ◌%◌, ◌^◌, ◌<◌, ◌≡◌, ◌↔◌, arith, ltb, ◌==◌, not, ◌&&◌, ◌||◌, Result, ok,
  ◌>>◌, bail, Bool, subst,
}
use rl_rust_client.Error.{ConfigurationError, invalid_duration}
use Prim.Native.String.{String}

pub record Duration : Type 0 where
  pub secs : ℕ
  pub nanos : ℕ

-- A `Duration` of the standard library: `u64` seconds, and less than 10^9 nanoseconds.
pub record IsDuration (d : Duration) : Type 0 where
  pub secs_fit : d.secs < 2 ^ 64
  pub nanos_fit : d.nanos < 1_000_000_000

abbrev pub as_millis : Duration → ℕ
as_millis d = d.secs * 1000 + d.nanos / 1_000_000

abbrev pub from_millis : ℕ → Duration
from_millis ms = record { secs = ms / 1000; nanos = ms % 1000 * 1_000_000 }

abbrev pub is_zero : Duration → Bool
is_zero d = d.secs == 0 && d.nanos == 0

-- The duration is a whole number of milliseconds.
abbrev pub is_whole_millis : Duration → Bool
is_whole_millis d = d.nanos % 1_000_000 == 0

unfoldable pub duration_to_u32_ms : Duration → String → Result ConfigurationError ℕ
duration_to_u32_ms d field = do
  let millis = as_millis d
  bail (is_zero d || not (is_whole_millis d) || ltb (2 ^ 32 - 1) millis) (invalid_duration field)
  ok (millis % 2 ^ 32)

-- The conversion succeeds exactly on the positive whole numbers of milliseconds that fit in 32
-- bits, and then the result stands for the same duration.
pub duration_to_u32_ms_exact :
    (d : Duration) (field : String) (ms : ℕ)
    → IsDuration d
    → (duration_to_u32_ms d field ≡ ok ms) ↔ ((from_millis ms ≡ d) × (0 < ms) × (ms < 2 ^ 32))
unfolding duration_to_u32_ms
duration_to_u32_ms_exact d field ms h = (
  λ e. ground arith,
  λ (e, p, q). subst (λ x. duration_to_u32_ms x field ≡ ok ms) e (ground arith),
)
