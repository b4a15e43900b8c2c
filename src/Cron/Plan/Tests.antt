-- ===== src/Cron/Plan/Tests.antt =====
-- Schedules at a concrete interval.
use agent_pod.Base.{ℕ, ◌≡◌, refl, String, none, some, Bool, true}
use agent_pod.Cron.Schedule.{Wall}
use agent_pod.Cron.Plan.{
  interval, planned, Input, normalize_every, normalize_schedule, advance_next_fire_at,
}

abbrev noon : String → ℕ → Wall
noon zone ts = record {
  year = 1970;
  month = 1;
  day = 1;
  hour = 12;
  minute = 0;
  second = 0;
  dow = 4;
}

abbrev any_zone : String → Bool
any_zone zone = true

-- Every two minutes.
abbrev input : Input
input = record { cron = none; timezone = none; every_ms = some (some 120000); first_fire_at = none }

-- The first time is two minutes on, and after a firing the next one is two minutes after it.
two_minutes :
    normalize_schedule noon any_zone input 7 ≡ planned (interval 120000 (some 120007)) 120007
unfolding normalize_schedule normalize_every
two_minutes = refl

two_more : advance_next_fire_at noon (interval 120000 (some 120007)) 500000 ≡ some 620000
unfolding advance_next_fire_at
two_more = refl
