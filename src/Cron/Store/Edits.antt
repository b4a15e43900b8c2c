-- ===== src/Cron/Store/Edits.antt =====
-- src/cron/store.js: `create`, `list` and `update`. A user's jobs are a map by their ids.
-- `is_zone` and `wall_clock` are the time zone database; the id of a new job is an argument.
use mathlib.Core.Option
use agent_pod.Base.{
  ℕ, String, List, [], ◌∷◌, Option, none, some, Bool, true, false, if◌then◌else◌, not, ◌||◌, ◌&&◌,
  ◌==◌, leb, keep, take,
}
use agent_pod.Base.Dict
use agent_pod.Base.Dict.{Dict}
use agent_pod.Base.Text
use agent_pod.Base.Text.{Text}
use agent_pod.Cron.Schedule.{Wall}
use agent_pod.Cron.Plan.{
  Schedule, unset, Input, Fault, Normalized, planned, rejected, normalize_schedule,
  advance_next_fire_at,
}
use agent_pod.Cron.Store.{Cron, SessionMode, task_max, title_max}

-- What `create` and `update` throw.
pub data Refused : Type 0 where
  empty_task : Refused
  bad_schedule : Fault → Refused

pub data Edited (A : Type 0) : Type 0 where
  done : A → Edited A
  thrown : Refused → Edited A

-- `cleanTitle`
abbrev pub clean_title : Text → Text
clean_title title = take title_max (Text.trim (Text.squeeze title))

abbrev pub clean_task : Text → Text
clean_task task = take task_max (Text.trim task)

abbrev pub first_line : List Text → Text
first_line [] = []
first_line (l ∷ ls) = l

-- `cleanTitle(title) || truncate(…)`
abbrev pub title_or : Text → Text → Text
title_or [] other = other
title_or (c ∷ s) other = c ∷ s

pub record Draft : Type 0 where
  pub title : Text
  pub task : Text
  pub schedule : Input
  pub session_mode : SessionMode
  pub project_id : String
  pub enabled : Bool

-- What `update` is asked for; a field that is missing stays.
pub record Patch : Type 0 where
  pub title : Option Text
  pub task : Option Text
  pub schedule : Option Input
  pub session_mode : Option SessionMode
  pub project_id : Option String
  pub enabled : Option Bool
  pub archived : Option Bool

-- The `fields` that `update` merges into the record. `next_fire_at` is there and may be empty, which
-- takes the field of the record away.
pub record Fields : Type 0 where
  pub updated_at : ℕ
  pub title : Option Text
  pub task : Option Text
  pub schedule : Option Schedule
  pub next_fire_at : Option (Option ℕ)
  pub session_mode : Option SessionMode
  pub project_id : Option String
  pub enabled : Option Bool
  pub archived : Option Bool

infixl 20 ◌>>=◌
abbrev pub ◌>>=◌ : {A B : Type 0} → Edited A → (A → Edited B) → Edited B
done a >>= f = f a
thrown r >>= f = thrown r

-- A task may not be empty.
abbrev pub not_empty : Text → Edited (Option Text)
not_empty [] = thrown empty_task
not_empty (c ∷ s) = done (some (c ∷ s))

unfoldable pub new_task : Option Text → Edited (Option Text)
new_task none = done none
new_task (some task) = not_empty (clean_task task)

abbrev pub accepted : Normalized → Edited (Option (Schedule × ℕ))
accepted (rejected f) = thrown (bad_schedule f)
accepted (planned schedule next) = done (some (schedule, next))

abbrev pub or_keep {ℓ} : {A : Type ℓ} → Option A → A → A
or_keep none old = old
or_keep (some new) old = new

abbrev pub schedule_of : Option (Schedule × ℕ) → Option Schedule
schedule_of none = none
schedule_of (some (schedule, next)) = some schedule

abbrev pub next_of : Option (Schedule × ℕ) → Option (Option ℕ)
next_of none = none
next_of (some (schedule, next)) = some (some next)

-- `if (archived) fields.enabled = false`
abbrev enabled_of : Option Bool → Option Bool → Option Bool
enabled_of on (some true) = some false
enabled_of on (some false) = on
enabled_of on none = on

-- `applyPatch` of mysql-map.js, on these fields.
unfoldable pub merge : Fields → Cron → Cron
merge f c = record c {
  updated_at = f.updated_at;
  title = or_keep f.title c.title;
  task = or_keep f.task c.task;
  schedule = or_keep f.schedule c.schedule;
  next_fire_at = or_keep f.next_fire_at c.next_fire_at;
  session_mode = or_keep f.session_mode c.session_mode;
  project_id = or_keep f.project_id c.project_id;
  enabled = or_keep f.enabled c.enabled;
  archived = or_keep f.archived c.archived;
}

-- `(await maps.for(username).get(id))?.schedule || {}`
abbrev pub stored_schedule : Option Cron → Schedule
stored_schedule none = unset
stored_schedule (some c) = c.schedule

module _ (wall_clock : String → ℕ → Wall) (is_zone : String → Bool) where
  unfoldable pub new_schedule : Option Input → ℕ → Edited (Option (Schedule × ℕ))
  new_schedule none at = done none
  new_schedule (some i) at = accepted (normalize_schedule wall_clock is_zone i at)

  -- Turning a job on plans it anew, by the schedule that is stored.
  unfoldable pub replanned : Option Bool → Schedule → ℕ → Option (Option ℕ) → Option (Option ℕ)
  replanned none stored at next = next
  replanned (some false) stored at next = next
  replanned (some true) stored at next = some (advance_next_fire_at wall_clock stored at)

  unfoldable pub fields_of : Patch → Schedule → ℕ → Option Text → Option (Schedule × ℕ) → Fields
  fields_of p stored at task schedule = record {
    updated_at = at;
    title = Option.map clean_title p.title;
    task = task;
    schedule = schedule_of schedule;
    next_fire_at = replanned p.enabled stored at (next_of schedule);
    session_mode = p.session_mode;
    project_id = p.project_id;
    enabled = enabled_of p.enabled p.archived;
    archived = p.archived;
  }

  abbrev pub merge_at : String → Dict Cron → Option Cron → Fields → Dict Cron × Option Cron
  merge_at id m none f = (m, none)
  merge_at id m (some c) f = (Dict.set id (merge f c) m, some (merge f c))

  -- `update`; it checks first, and a record that is missing answers none.
  unfoldable pub update : String → Patch → ℕ → Dict Cron → Edited (Dict Cron × Option Cron)
  update id p at m =
      let found = Dict.get id m in
      new_task p.task >>= λ task. new_schedule p.schedule at >>= λ schedule.
      done (merge_at id m found (fields_of p (stored_schedule found) at task schedule))

  -- The record of `create`.
  unfoldable pub drafted : String → String → Draft → ℕ → Text → Schedule → ℕ → Cron
  drafted id username d at task schedule next = record {
    id = id;
    username = username;
    title =
        title_or (clean_title d.title) (Text.truncate (first_line (Text.split 10 task)) title_max);
    task = task;
    schedule = schedule;
    session_mode = d.session_mode;
    project_id = d.project_id;
    enabled = d.enabled;
    archived = false;
    created_at = at;
    updated_at = at;
    last_fired_at = none;
    next_fire_at = some next;
    fire_log = [];
  }

  abbrev pub create_planned : String → String → Draft → ℕ → Text → Normalized → Edited Cron
  create_planned id username d at task (rejected f) = thrown (bad_schedule f)
  create_planned id username d at task (planned schedule next) =
      done (drafted id username d at task schedule next)

  abbrev pub create_task : String → String → Draft → ℕ → Text → Edited Cron
  create_task id username d at [] = thrown empty_task
  create_task id username d at (x ∷ xs) =
      create_planned id username d at (x ∷ xs) (normalize_schedule wall_clock is_zone d.schedule at)

  -- `create`
  unfoldable pub create : String → String → Draft → ℕ → Dict Cron → Edited (Dict Cron × Cron)
  create id username d at m =
      create_task id username d at (clean_task d.task) >>= λ c. done (Dict.set id c m, c)

-- `(a.nextFireAt || Infinity)`, before what.
abbrev no_later : Option ℕ → Option ℕ → Bool
no_later a none = true
no_later none (some y) = y == 0
no_later (some x) (some y) = y == 0 || (not (x == 0) && leb x y)

unfoldable pub insert_by_next : Cron → List Cron → List Cron
insert_by_next c [] = c ∷ []
insert_by_next c (d ∷ ds) =
    if no_later c.next_fire_at d.next_fire_at then c ∷ d ∷ ds else d ∷ insert_by_next c ds

unfoldable pub sort_by_next : List Cron → List Cron
sort_by_next [] = []
sort_by_next (c ∷ cs) = insert_by_next c (sort_by_next cs)

-- `list`
unfoldable pub list : Bool → Dict Cron → List Cron
list include_archived m =
    sort_by_next (keep (λ c. include_archived || not c.archived) (Dict.values m))
