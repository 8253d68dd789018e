-- ===== src/Agent.antt =====
-- internal/agent: the agent's connection to the signal server, and its tunnel sessions.
pub mod Register
pub mod Proxy
pub mod Sessions
pub mod Shell
