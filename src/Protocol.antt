-- ===== src/Protocol.antt =====
-- internal/protocol: the frames of a tunnel and the messages of the signal channel.
pub mod Frame
pub mod Json
pub mod Messages
