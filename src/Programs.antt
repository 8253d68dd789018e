-- ===== src/Programs.antt =====
-- cmd: the programs.
pub mod Gateway
pub mod Server
pub mod AgentMain
