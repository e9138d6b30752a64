-- ===== src/ApiKey.antt =====
-- The API key of src/api_key.rs and its encoding in src/api_key_codec.rs.
pub mod Bech32
pub mod Codec
pub mod Key
