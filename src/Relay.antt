-- ===== src/Relay.antt =====
-- internal/relay: the relay between agents and consoles.
pub mod Hub
pub mod Auth
pub mod Store
pub mod Persisted
pub mod Pairing
pub mod Api
