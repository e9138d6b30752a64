-- ===== src/Common/Bytes.antt =====
-- Byte strings as lists of numbers: Rust's slices, indexing, `copy_from_slice`, the little-endian
-- conversions `to_le_bytes` and `from_le_bytes`, and records of fixed-width fields.
mod Endian
mod Copy
mod Layout
pub use Endian.*
unfoldable pub use Copy.*
pub use Layout.*
