-- ===== src/Artifacts.antt =====
-- src/artifacts: what the agent makes for a user.
pub mod Shares
