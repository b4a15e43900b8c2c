-- ===== src/Cron/Plan.antt =====
-- src/cron/schedule.js: the schedule that a user asks for, and the times that it gives.
-- An expression is its fields' pieces; `wall_clock` and `is_zone` are the time zone database.
pub mod Progress
mod Tests
use agent_pod.Base.{
  ℕ, ◌+◌, String, List, Option, none, some, Bool, true, false, if◌then◌else◌, ltb, leb, str_eq,
  ◌>>=◌,
}
use agent_pod.Cron.Fields.{Piece, Fields, parse_cron}
use agent_pod.Cron.Schedule.{Wall, day_ms, min_every_ms, next_fire_after}

pub data Schedule : Type 0 where
  calendar : (cron : List (List Piece)) (timezone : String) → Schedule
  interval : (every_ms : ℕ) (first_fire_at : Option ℕ) → Schedule
  unset : Schedule

-- What a user asks for. `cron` is `none` where it is missing or blank, `timezone` likewise;
-- `every_ms` is `some none` where it is given and is no positive safe integer.
pub record Input : Type 0 where
  pub cron : Option (List (List Piece))
  pub timezone : Option String
  pub every_ms : Option (Option ℕ)
  pub first_fire_at : Option ℕ

-- The errors, in the order of the code.
pub data Fault : Type 0 where
  both_given : Fault
  unknown_timezone : Fault
  bad_cron : Fault
  never_fires : Fault
  none_given : Fault
  timezone_without_cron : Fault
  bad_every_ms : Fault
  every_ms_too_short : Fault
  every_ms_too_long : Fault

pub data Normalized : Type 0 where
  planned : (schedule : Schedule) (next_fire_at : ℕ) → Normalized
  rejected : Fault → Normalized

abbrev pub zone_of : Option String → String
zone_of none = "Asia/Shanghai"
zone_of (some zone) = zone

abbrev pub or_else : Option ℕ → ℕ → ℕ
or_else none other = other
or_else (some x) other = x

module _ (wall_clock : String → ℕ → Wall) where
  -- `nextFireAfter`, with the parsing of the expression.
  abbrev pub next_fire : List (List Piece) → String → ℕ → Option ℕ
  next_fire cron timezone after =
      parse_cron cron >>= λ f. next_fire_after (wall_clock timezone) f after

  unfoldable pub normalize_cron :
      (String → Bool) → List (List Piece) → Option String → ℕ → Normalized
  normalize_cron is_zone cron timezone at =
      if is_zone (zone_of timezone)
      then elim (parse_cron cron) [
        | none ↦ rejected bad_cron
        | some f ↦ elim (next_fire cron (zone_of timezone) at) [
          | none ↦ rejected never_fires
          | some next ↦ planned (calendar cron (zone_of timezone)) next
        ]
      ]
      else rejected unknown_timezone

  unfoldable pub normalize_every : Option ℕ → Option ℕ → ℕ → Normalized
  normalize_every none first at = rejected bad_every_ms
  normalize_every (some every) first at =
      if leb every 0
      then rejected bad_every_ms
      else if ltb every min_every_ms
      then rejected every_ms_too_short
      else if leb day_ms every
      then rejected every_ms_too_long
      else let next = or_else first (at + every) in planned (interval every (some next)) next

  -- `normalizeSchedule`
  unfoldable pub normalize_schedule : (String → Bool) → Input → ℕ → Normalized
  unfolding normalize_cron normalize_every
  normalize_schedule is_zone input at = elim input.cron [
    | some cron ↦ elim input.every_ms [
      | some every ↦ rejected both_given
      | none ↦ normalize_cron is_zone cron input.timezone at
    ]
    | none ↦ elim input.every_ms [
      | none ↦ rejected none_given
      | some every ↦ elim input.timezone [
        | some zone ↦ rejected timezone_without_cron
        | none ↦ normalize_every every input.first_fire_at at
      ]
    ]
  ]

  -- `advanceNextFireAt`
  unfoldable pub advance_next_fire_at : Schedule → ℕ → Option ℕ
  advance_next_fire_at (calendar cron timezone) fired_at = next_fire cron timezone fired_at
  advance_next_fire_at (interval every first) fired_at =
      if leb every 0 then none else some (fired_at + every)
  advance_next_fire_at unset fired_at = none

  -- `recoverNextFireAt`
  unfoldable pub recover_next_fire_at : Schedule → ℕ → Option ℕ → Option ℕ → Option ℕ
  recover_next_fire_at schedule created_at last_fired_at (some next) = some next
  recover_next_fire_at (calendar cron timezone) created_at last none =
      next_fire cron timezone (or_else last created_at)
  recover_next_fire_at (interval every first) created_at last none =
      if leb every 0
      then none
      else some (elim last [ none ↦ or_else first created_at | some fired ↦ fired + every ])
  recover_next_fire_at unset created_at last none = none
