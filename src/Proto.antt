-- ===== src/Proto.antt =====
-- The wire protocol of internal/proto.
pub mod Frame
pub mod Messages
pub mod Envelope
