-- ===== src/RateLimit.antt =====
-- src/http/rate-limit.js: the sliding window with exponential backoff that guards logins.
-- Times and durations are milliseconds; `Date.now()` is the argument `at`.
pub mod Limiter
pub mod Window
pub mod History
pub mod Bounds
pub mod Keys
mod Tests
