-- ===== src/Signal.antt =====
-- internal/signal: the clients of the signal server, the devices they register, and their sessions.
pub mod Client
pub mod Hub
pub mod Sessions
pub mod Handler
pub mod Server
