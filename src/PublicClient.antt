-- ===== src/PublicClient.antt =====
-- The public client of src/public_client.rs.
pub mod Request
pub mod Domain
pub mod Send
pub mod Builder
pub mod Report
