-- ===== src/Session.antt =====
-- internal/session: the terminal sessions of the agent.
pub mod Ring
pub mod Output
pub mod Heuristic
pub mod Cmdline
pub mod Life
