-- ===== src/Cron/Schedule.antt =====
-- src/cron/schedule.js: when a job comes next.
-- `wall_clock` is what the time zone database says of a moment; `Date.UTC` is written out, for
-- moments from 1970 on. A schedule's expression is kept as its fields.
pub mod Search
mod Tests
use agent_pod.Base.{
  ℕ, zero, suc, ◌+◌, ◌-◌, ◌*◌, ◌/◌, ◌%◌, String, List, [], ◌∷◌, ◌++◌, Option, none, some, Bool,
  true, false, if◌then◌else◌, ◌==◌, ltb, leb, not, ◌&&◌, ◌||◌, str_eq, take, ◌>>=◌,
}
use agent_pod.Cron.Fields.{Piece, Fields, parse_cron, has}

pub record Wall : Type 0 where
  pub year : ℕ
  pub month : ℕ
  pub day : ℕ
  pub hour : ℕ
  pub minute : ℕ
  pub second : ℕ
  pub dow : ℕ

abbrev pub day_ms : ℕ
day_ms = 86400000

abbrev pub minute_ms : ℕ
minute_ms = 60000

-- `MIN_EVERY_MS`
abbrev pub min_every_ms : ℕ
min_every_ms = 60000

-- How many leap days there are up to the end of a year.
abbrev leap_days : ℕ → ℕ
leap_days y = y / 4 + y / 400 - y / 100

abbrev is_leap : ℕ → Bool
is_leap y = (y % 4 == 0) && (not (y % 100 == 0) || (y % 400 == 0))

abbrev sum : List ℕ → ℕ
sum [] = 0
sum (n ∷ ns) = n + sum ns

abbrev month_lengths : Bool → List ℕ
month_lengths leap =
    31 ∷ (if leap then 29 else 28) ∷ 31 ∷ 30 ∷ 31 ∷ 30 ∷ 31 ∷ 31 ∷ 30 ∷ 31 ∷ 30 ∷ 31 ∷ []

-- `Date.UTC(year, month - 1, day, hour, minute, second)`
unfoldable pub date_utc : ℕ → ℕ → ℕ → ℕ → ℕ → ℕ → ℕ
date_utc year month day hour minute second =
    let days =
      365 * (year - 1970)
      + (leap_days (year - 1) - leap_days 1969)
      + sum (take (month - 1) (month_lengths (is_leap year)))
      + (day - 1) in
    (((days * 24 + hour) * 60 + minute) * 60 + second) * 1000

-- `matchesDay`
abbrev pub matches_day : Fields → Wall → Bool
matches_day f wall =
    has wall.month f.month
    && (if f.dom_restricted && f.dow_restricted
        then has wall.day f.dom || has wall.dow f.dow
        else has wall.day f.dom && has wall.dow f.dow)

-- The numbers from `first` on, so many of them.
abbrev pub count_up : ℕ → ℕ → List ℕ
count_up zero first = []
count_up (suc n) first = first ∷ count_up n (suc first)

-- `for (let x = first; x <= last; x += 1)`
abbrev pub range : ℕ → ℕ → List ℕ
range first last = count_up (last + 1 - first) first

module _ (wall_clock : ℕ → Wall) where
  -- `guess - offsetAt(ts)`: the offset is the wall time, read as UTC, less the whole seconds of `ts`.
  abbrev pub less_offset : ℕ → ℕ → ℕ
  less_offset guess ts =
      let w = wall_clock ts in
      guess + ts / 1000 * 1000 - date_utc w.year w.month w.day w.hour w.minute w.second

  unfoldable pub utc_from_wall : ℕ → ℕ → ℕ → ℕ → ℕ → ℕ
  utc_from_wall year month day hour minute =
      let guess = date_utc year month day hour minute 0 in
      less_offset guess (less_offset guess guess)

  module _ (f : Fields) (after : ℕ) (year month day : ℕ) where
    -- The tests of the innermost loop.
    abbrev pub is_due : ℕ → ℕ → Bool
    is_due hour minute =
        let ts = utc_from_wall year month day hour minute in
        (((wall_clock ts).hour == hour) && ((wall_clock ts).minute == minute)) && ltb after ts

    unfoldable pub search_minutes : ℕ → List ℕ → Option ℕ
    search_minutes hour [] = none
    search_minutes hour (minute ∷ minutes) =
        let rest = search_minutes hour minutes in
        if not (has minute f.minute)
        then rest
        else if is_due hour minute
        then some (utc_from_wall year month day hour minute)
        else rest

    unfoldable pub search_hours : ℕ → ℕ → List ℕ → Option ℕ
    search_hours from_hour from_minute [] = none
    search_hours from_hour from_minute (hour ∷ hours) =
        let rest = search_hours from_hour from_minute hours in
        if not (has hour f.hour)
        then rest
        else elim (search_minutes hour (range (if hour == from_hour then from_minute else 0) 59)) [
          | some ts ↦ some ts
          | none ↦ rest
        ]

  -- The loop over so many days; `from_hour` and `from_minute` are 0 on all but the first.
  unfoldable pub search_days : Fields → ℕ → ℕ → ℕ → ℕ → ℕ → ℕ → ℕ → Option ℕ
  search_days f after zero year month day from_hour from_minute = none
  search_days f after (suc days) year month day from_hour from_minute =
      let noon = utc_from_wall year month day 12 0 in
      let next = wall_clock (noon + day_ms) in
      let rest = search_days f after days next.year next.month next.day 0 0 in
      if matches_day f (wall_clock noon)
      then elim (search_hours f after year month day from_hour from_minute (range from_hour 23)) [
        | some ts ↦ some ts
        | none ↦ rest
      ]
      else rest

  -- `nextFireAfter`, over `SEARCH_DAYS`.
  unfoldable pub next_fire_after : Fields → ℕ → Option ℕ
  next_fire_after f after =
      let start = wall_clock (after / minute_ms * minute_ms + minute_ms) in
      search_days f after 366 start.year start.month start.day start.hour start.minute
