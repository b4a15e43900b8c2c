-- ===== src/Telemetry/Quota.antt =====
-- src/telemetry/quota.js: whether a user has tokens left, asked before a run starts.
-- The stores are functions, `threw` where a read fails; `wall_clock` is the time zone database.
pub mod Gate
mod Tests
use agent_pod.Base.{
  ℕ, ◌+◌, ◌-◌, String, Option, none, some, Bool, true, false, if◌then◌else◌, ltb, leb, not, ◌&&◌,
  ◌||◌, str_eq,
}
use agent_pod.Cron.Schedule.{Wall, utc_from_wall}

pub data Read (A : Type 0) : Type 0 where
  threw : Read A
  value : A → Read A

-- A quota that is missing or no number is 0.
pub record Group : Type 0 where
  pub id : String
  pub name : String
  pub token_quota : ℕ
  pub daily_token_quota : ℕ

-- `used.total.tokens` and `used.today.tokens`
pub record Used : Type 0 where
  pub total : ℕ
  pub today : ℕ

-- What `check` answers; a limit of 0 is none.
pub data Verdict : Type 0 where
  idle : Verdict
  within : (group : Group) (used_total : ℕ) (used_today : Option ℕ) → Verdict
  over_total : (group : Group) (limit used : ℕ) → Verdict
  over_daily : (group : Group) (limit used reset_at : ℕ) → Verdict

-- What `assert` throws.
pub data Fault : Type 0 where
  forbidden : (limit used : ℕ) → Fault
  rate_limited : (limit used reset_at retry_after_ms : ℕ) → Fault

pub data Asserted : Type 0 where
  passed : Verdict → Asserted
  thrown : Fault → Asserted

module _ (wall_clock : ℕ → Wall) where
  abbrev pub start_of_day : ℕ → ℕ
  start_of_day at = let w = wall_clock at in utc_from_wall wall_clock w.year w.month w.day 0 0

  abbrev pub next_day_start : ℕ → ℕ
  next_day_start day_start =
      let w = wall_clock day_start in utc_from_wall wall_clock w.year w.month (w.day + 1) 0 0

  -- `check`, once the group and what was used are read.
  unfoldable pub judge : ℕ → Group → Used → Verdict
  judge at g used =
      if ltb 0 g.token_quota && leb g.token_quota used.total
      then over_total g g.token_quota used.total
      else if ltb 0 g.daily_token_quota && leb g.daily_token_quota used.today
      then over_daily g g.daily_token_quota used.today (next_day_start (start_of_day at))
      else within g used.total (if ltb 0 g.daily_token_quota then some used.today else none)

  -- The group of a user that is in none, or that is not known, is the empty text; `groups` answers
  -- none for a group that is not there. `usage` is asked from the start of the day on, or not for
  -- the day at all.
  module _ (enabled : Bool) (users : String → Read String) (groups : String → Read (Option Group))
      (usage : String → Option ℕ → Read Used) where
    -- `check` from the group on.
    unfoldable pub check_group : String → ℕ → Group → Verdict
    check_group username at g =
        if ltb 0 g.token_quota || ltb 0 g.daily_token_quota
        then elim (usage username
            (if ltb 0 g.daily_token_quota then some (start_of_day at) else none)) [
              | threw ↦ idle
              | value used ↦ judge at g used
            ]
        else idle

    unfoldable pub check : String → ℕ → Verdict
    check username at = if not enabled || str_eq username "" then idle else elim (users username) [
      | threw ↦ idle
      | value group_id ↦ if str_eq group_id "" then idle else elim (groups group_id) [
        | threw ↦ idle
        | value found ↦ elim found [ none ↦ idle | some g ↦ check_group username at g ]
      ]
    ]

    -- `assert` on what `check` answers.
    abbrev pub answer : ℕ → Verdict → Asserted
    answer at idle = passed idle
    answer at (within g total today) = passed (within g total today)
    answer at (over_total g limit used) = thrown (forbidden limit used)
    answer at (over_daily g limit used reset_at) =
        thrown (rate_limited limit used reset_at (reset_at - at))

    -- `assert`
    unfoldable pub assert_quota : String → ℕ → Asserted
    assert_quota username at = answer at (check username at)
