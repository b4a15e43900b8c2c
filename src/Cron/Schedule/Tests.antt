-- ===== src/Cron/Schedule/Tests.antt =====
-- The theorems on the search at a concrete clock: the first day of 1970, a Thursday, in UTC.
use mathlib.Core.Option
use agent_pod.Base.{ℕ, ◌/◌, ◌%◌, ◌≡◌, refl, [], ◌∷◌, some, false, find}
use agent_pod.Cron.Fields.{Fields}
use agent_pod.Cron.Schedule.{
  Wall, date_utc, utc_from_wall, search_minutes, search_hours, search_days, next_fire_after,
}
use agent_pod.Cron.Schedule.Search.{
  moments, fires, moment, search_hours-find, IsNext, next_fire_after-IsNext,
}

abbrev clock : ℕ → Wall
clock ts = record {
  year = 1970;
  month = 1;
  day = 1;
  hour = ts / 3600000 % 24;
  minute = ts / 60000 % 60;
  second = ts / 1000 % 60;
  dow = 4;
}

-- `5,10 0,2 * * *`, as far as the day goes.
abbrev fields : Fields
fields = record {
  minute = 5 ∷ 10 ∷ [];
  hour = 0 ∷ 2 ∷ [];
  dom = 1 ∷ [];
  month = 1 ∷ [];
  dow = 4 ∷ [];
  dom_restricted = false;
  dow_restricted = false;
}

leap_year : date_utc 2024 3 1 0 0 0 ≡ 1709251200000
unfolding date_utc
leap_year = refl

search_hours-find_example :
    search_hours clock fields 400000 1970 1 1 0 7 (0 ∷ 1 ∷ 2 ∷ [])
    ≡ Option.map
        (moment clock fields 400000 1970 1 1)
        (find (fires clock fields 400000 1970 1 1) (moments 0 7 (0 ∷ 1 ∷ 2 ∷ [])))
search_hours-find_example = search_hours-find clock fields 400000 1970 1 1 0 7 (0 ∷ 1 ∷ 2 ∷ [])

ten_past : next_fire_after clock fields 400000 ≡ some 600000
unfolding next_fire_after search_days search_hours search_minutes utc_from_wall date_utc
ten_past = refl

next_fire_after-IsNext_example : IsNext clock fields 400000 600000
next_fire_after-IsNext_example = next_fire_after-IsNext clock fields 400000 600000 ten_past
