-- ===== src/Agent.antt =====
-- src/agent: what the service keeps while a turn of a conversation runs.
pub mod Runs
pub mod Budget
pub mod Service
pub mod Skills
pub mod Preview
