-- ===== src/Policy.antt =====
-- src/request_policy.rs: the schedule of transmission rounds, and the request policy with its
-- horizon. Fields hold `u32` and `u64` values; sums and products are written as the code has them,
-- checked or wrapping.
pub mod Schedule
pub mod Request
