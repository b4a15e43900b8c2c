-- ===== src/Cron/Store.antt =====
-- src/cron/store.js: the record of a job, claiming the time at which it is due, and the log of its
-- runs. `update` of the store is a function on the record, which the database runs under a lock.
pub mod Claims
pub mod Edits
pub mod Sound
pub mod Planned
pub mod Replan
mod Tests
use agent_pod.Base.{
  ℕ, ◌-◌, max, String, List, [], ◌∷◌, ◌++◌, Option, none, some, Bool, true, false, if◌then◌else◌,
  ◌==◌, leb, not, ◌&&◌, ◌||◌, length, drop,
}
use agent_pod.Base.Sort
use agent_pod.Base.Text
use agent_pod.Base.Text.{Text}
use agent_pod.Cron.Schedule.{Wall}
use agent_pod.Cron.Plan.{
  Schedule, calendar, interval, unset, advance_next_fire_at, recover_next_fire_at,
}

abbrev pub task_max : ℕ
task_max = 4000

abbrev pub title_max : ℕ
title_max = 60

abbrev pub reply_max : ℕ
reply_max = 1000

abbrev pub fire_log_max : ℕ
fire_log_max = 20

pub data Status : Type 0 where
  ok : Status
  error : Status
  needs_reauth : Status
  disabled : Status

-- An entry of `fireLog`, as far as it is cut or read.
pub record Fired : Type 0 where
  pub fired_at : ℕ
  pub status : Status
  pub reply : Option Text
  pub note : Option Text

pub data SessionMode : Type 0 where
  new : SessionMode
  shared : SessionMode

pub record Cron : Type 0 where
  pub id : String
  pub username : String
  pub title : Text
  pub task : Text
  pub schedule : Schedule
  pub session_mode : SessionMode
  pub project_id : String
  pub enabled : Bool
  pub archived : Bool
  pub created_at : ℕ
  pub updated_at : ℕ
  pub last_fired_at : Option ℕ
  pub next_fire_at : Option ℕ
  pub fire_log : List Fired

-- `x === scheduledAt`
abbrev pub is_at : ℕ → Option ℕ → Bool
is_at scheduled_at none = false
is_at scheduled_at (some x) = x == scheduled_at

abbrev pub is_calendar : Schedule → Bool
is_calendar (calendar cron timezone) = true
is_calendar (interval every first) = false
is_calendar unset = false

-- `advanceFrom`
abbrev pub advance_from : Schedule → ℕ → ℕ → ℕ
advance_from s scheduled_at at = if is_calendar s then max scheduled_at at else at

-- `log.slice(-n)`
abbrev pub last_of {ℓ} : {A : Type ℓ} → ℕ → List A → List A
last_of n xs = drop (length xs - n) xs

unfoldable pub unclaim_slot : ℕ → ℕ → Option ℕ → Cron → Cron
unclaim_slot scheduled_at at prior c =
    if is_at at c.last_fired_at
    then record c { last_fired_at = prior; next_fire_at = some scheduled_at }
    else c

-- `truncate` of a text that may be missing.
abbrev pub cut : Option Text → Option Text
cut none = none
cut (some t) = some (Text.truncate t reply_max)

-- `recordFire`
unfoldable pub record_fire : Fired → Cron → Cron
record_fire entry c =
    let kept : Fired = record entry { reply = cut entry.reply; note = cut entry.note } in
    record c { fire_log = last_of fire_log_max (c.fire_log ++ kept ∷ []) }

module _ (wall_clock : String → ℕ → Wall) where
  -- When the record says that the job comes next.
  abbrev pub slot_of : Cron → Option ℕ
  slot_of c = recover_next_fire_at wall_clock c.schedule c.created_at c.last_fired_at c.next_fire_at

  -- The record after the claim, and whether it went through.
  unfoldable pub claim_slot : ℕ → ℕ → Cron → Cron × Bool
  claim_slot scheduled_at at c =
      if c.archived || not c.enabled
      then (c, false)
      else if is_at scheduled_at (slot_of c)
      then (
        record c {
          last_fired_at = some at;
          next_fire_at =
              advance_next_fire_at wall_clock c.schedule (advance_from c.schedule scheduled_at at);
        },
        true,
      )
      else (c, false)

  -- `due`, before the sort: the jobs that are due with the times that they are due at.
  unfoldable pub due_now : ℕ → List Cron → List (Cron × ℕ)
  due_now at [] = []
  due_now at (c ∷ cs) =
      let rest = due_now at cs in
      if c.archived || not c.enabled then rest else elim (slot_of c) [
        | none ↦ rest
        | some scheduled_at ↦ if leb scheduled_at at then (c, scheduled_at) ∷ rest else rest
      ]

  unfoldable pub due : ℕ → List Cron → List (Cron × ℕ)
  unfolding due_now Sort.sort
  due at cs = Sort.sort (λ d. d.1) (due_now at cs)
