-- ===== src/Client.antt =====
-- src/client.rs: the client that talks to the servers.
pub mod Auth
pub mod Response
pub mod Report
pub mod Request
pub mod Steering
pub mod Packet
pub mod Peek
pub mod Servers
pub mod Send
pub mod Retry
pub mod Check
pub mod Targets
pub mod Sockets
pub mod Router
pub mod Refresh
pub mod New
