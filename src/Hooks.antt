-- ===== src/Hooks.antt =====
-- internal/hooks: what the AI tools report to the agent.
pub mod Approvals
pub mod Server
