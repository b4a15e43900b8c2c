-- ===== src/Cron/Store/Tests.antt =====
-- The theorems on the store at a concrete job.
use agent_pod.Base.{ℕ, ◌≤◌, ◌≡◌, refl, String, [], ◌∷◌, none, some, Bool, true, false, arith}
use agent_pod.Base.Dict
use agent_pod.Base.Dict.{Dict}
use agent_pod.Base.Text
use agent_pod.Cron.Schedule.{Wall}
use agent_pod.Cron.Plan.{interval, recover_next_fire_at, advance_next_fire_at, normalize_schedule}
use agent_pod.Cron.Store.{Cron, new, claim_slot, due}
use agent_pod.Cron.Store.Claims.{wins}
use agent_pod.Cron.Store.Edits.{
  Draft, Patch, done, create, drafted, update, new_task, new_schedule, merge, fields_of, replanned,
}
use agent_pod.Cron.Store.Sound.{IsSound}
use agent_pod.Cron.Store.Planned.{Reach, nothing, later, created, Reach-IsSound, Reach-claim_once}
use agent_pod.Cron.Store.Replan.{update-replanned}

abbrev noon : String → ℕ → Wall
noon zone ts = record {
  year = 1970;
  month = 1;
  day = 1;
  hour = 12;
  minute = 0;
  second = 0;
  dow = 4;
}

abbrev any_zone : String → Bool
any_zone zone = true

-- Every two minutes, next at 500000.
abbrev job : Cron
job = record {
  id = "c1";
  username = "ann";
  title = 65 ∷ [];
  task = 66 ∷ [];
  session_mode = new;
  project_id = "";
  updated_at = 380000;
  schedule = interval 120000 (some 500000);
  enabled = true;
  archived = false;
  created_at = 380000;
  last_fired_at = none;
  next_fire_at = some 500000;
  fire_log = [];
}

-- The first replica gets it.
first_wins : (claim_slot noon 500000 500007 job).1 ≡ true
unfolding claim_slot recover_next_fire_at
first_wins = refl

one_due : due noon 500001 (job ∷ record job { enabled = false } ∷ []) ≡ (job, 500000) ∷ []
unfolding due recover_next_fire_at
one_due = refl

abbrev draft : Draft
draft = record {
  title = [];
  task = 32 ∷ 72 ∷ 105 ∷ [];
  schedule = record {
    cron = none;
    timezone = none;
    every_ms = some (some 120000);
    first_fire_at = some 500000;
  };
  session_mode = new;
  project_id = "";
  enabled = true;
}

-- The title is the first line of the task, and the task has lost its space.
abbrev made : Cron
made = record job { title = 72 ∷ 105 ∷ []; task = 72 ∷ 105 ∷ [] }

abbrev store : Dict Cron
store = ("c1", made) ∷ []

creates : create noon any_zone "c1" "ann" draft 380000 [] ≡ done (store, made)
unfolding create drafted normalize_schedule Dict.set Text.split Text.trim_start Text.trim_end
    Text.squeeze_from Text.truncate
creates = refl

store-Reach : Reach noon any_zone store
store-Reach = later [] store nothing (created "c1" "ann" draft 380000 made [] store creates)

found : Dict.get "c1" store ≡ some made
unfolding Dict.get
found = refl

Reach-IsSound_example : IsSound noon any_zone made
Reach-IsSound_example = Reach-IsSound noon any_zone store "c1" made store-Reach found

Reach-claim_once_example : wins noon any_zone 500000 (500007 ∷ 500009 ∷ []) made ≤ 1
Reach-claim_once_example =
    Reach-claim_once noon any_zone store "c1" made 500000 (500007 ∷ 500009 ∷ []) store-Reach found
      (omega arith, (omega arith, tt))

-- One call puts an hour in the place of the two minutes and turns the job on.
abbrev hourly : Patch
hourly = record {
  title = none;
  task = none;
  schedule = some (record {
    cron = none;
    timezone = none;
    every_ms = some (some 3600000);
    first_fire_at = none;
  });
  session_mode = none;
  project_id = none;
  enabled = some true;
  archived = none;
}

-- The next time is two minutes later all the same.
abbrev turned_on : Cron
turned_on = record made {
  schedule = interval 3600000 (some 4200000);
  updated_at = 600000;
  next_fire_at = some 720000;
}

turns_on :
    update noon any_zone "c1" hourly 600000 store ≡ done (("c1", turned_on) ∷ [], some turned_on)
unfolding update new_task new_schedule merge fields_of replanned normalize_schedule
    advance_next_fire_at Dict.get Dict.set
turns_on = refl

update-replanned_example : turned_on.next_fire_at ≡ advance_next_fire_at noon made.schedule 600000
update-replanned_example =
    update-replanned noon any_zone "c1" hourly 600000 store (("c1", turned_on) ∷ []) made turned_on
      found refl turns_on
