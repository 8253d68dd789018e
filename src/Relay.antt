-- ===== src/Relay.antt =====
-- internal/relay: the handshake of a relay connection, and the server that pairs two peers.
pub mod Handshake
pub mod Session
pub mod Client
pub mod Server
pub mod Forward
