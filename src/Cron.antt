-- ===== src/Cron.antt =====
-- src/cron/: what runs by the clock.
pub mod Fields
pub mod Schedule
pub mod Plan
pub mod Store
pub mod Scheduler
