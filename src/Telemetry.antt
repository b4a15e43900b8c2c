-- ===== src/Telemetry.antt =====
-- src/telemetry/: what is counted, and what follows from it.
pub mod Quota
