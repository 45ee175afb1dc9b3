-- ===== src/Programs.antt =====
-- hub.go and client.go: the two programs.
pub mod Settings
pub mod Hub
pub mod Client
pub mod Handshake
pub mod Tunnel
pub mod Copy
