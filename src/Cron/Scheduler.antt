-- ===== src/Cron/Scheduler.antt =====
-- src/cron/scheduler.js: what a tick does with the jobs that are due.
-- The vault is a function, and so is the run of a job, which may change the jobs: a run has the tool
-- `cron`, and other calls come while it goes on. Nothing else takes a step during the tick.
pub mod Settled
pub mod Ticks
mod Tests
use agent_pod.Base.{
  ℕ, ◌+◌, String, List, [], ◌∷◌, ◌++◌, Option, none, some, Bool, true, false, if◌then◌else◌, ltb,
  not, ◌&&◌, ◌>>=◌, length, take, some_of,
}
use agent_pod.Base.Dict
use agent_pod.Base.Dict.{Dict}
use agent_pod.Base.Dict.Scoped
use agent_pod.Base.Text.{Text}
use agent_pod.Cron.Schedule.{Wall}
use agent_pod.Cron.Store.{
  Cron, Fired, Status, ok, error, needs_reauth, disabled, shared, new, SessionMode, last_of,
  claim_slot, record_fire, due,
}
use agent_pod.Cron.Store.Edits.{Patch, Edited, done, thrown, update}

abbrev pub max_fires_per_tick : ℕ
max_fires_per_tick = 5

abbrev pub max_consecutive_failures : ℕ
max_consecutive_failures = 10

-- The jobs of every user.
abbrev pub Store : Type 0
Store = Dict (Dict Cron)

abbrev pub job : String → String → Store → Option Cron
job username id s = Scoped.look username id s

-- `maps.for(username).update(id, f)`
abbrev pub change : String → String → (Cron → Cron) → Store → Store
change username id f s = Scoped.change username id f s

unfoldable pub all_jobs : List (Dict Cron) → List Cron
all_jobs [] = []
all_jobs (m ∷ ms) = Dict.values m ++ all_jobs ms

-- How a run ends, with the reply or the text of the error.
pub data Ran : Type 0 where
  answered : Text → Ran
  threw : Text → Ran

-- What the code around the scheduler does.
pub record World : Type 0 where
  pub wall_clock : String → ℕ → Wall
  pub is_zone : String → Bool
  pub has_credential : String → Bool
  pub requires_credential : Bool  -- `LLM_MODE=platform`
  pub run : Cron → Store → Store × Ran
  pub clock : Cron → ℕ
  pub reauth_note : Text
  pub disabled_note : Text

abbrev pub kept : String → Store → Edited (Dict Cron × Option Cron) → Store
kept username s (done (m, found)) = Dict.set username m s
kept username s (thrown refused) = s

module _ (w : World) where
  abbrev entry_of : ℕ → Ran → Fired
  entry_of at (answered reply) = record {
    fired_at = at;
    status = ok;
    reply = some reply;
    note = none;
  }
  entry_of at (threw note) = record {
    fired_at = at;
    status = error;
    reply = none;
    note = some note;
  }

  abbrev is_answer : Ran → Bool
  is_answer (answered reply) = true
  is_answer (threw note) = false

  abbrev pub log : Cron → Fired → Store → Store
  log c entry = change c.username c.id (record_fire entry)

  -- What is written once the run is over.
  abbrev pub logged : Cron → Store × Ran → Store × Bool
  logged c (s, r) = (log c (entry_of (w.clock c) r) s, is_answer r)

  -- `fire`: the store after it, and whether it went well.
  unfoldable pub fire : Cron → Store → Store × Bool
  fire c s =
      if not (w.has_credential c.username) && w.requires_credential
      then (
        log c
            (record {
              fired_at = w.clock c;
              status = needs_reauth;
              reply = none;
              note = some w.reauth_note;
            })
            s,
        false,
      )
      else logged c (w.run c s)

  abbrev is_ok : Fired → Bool
  is_ok f = elim f.status [ ok ↦ true | _ ↦ false ]

  -- Ten entries at the end of the log and no `ok` among them.
  unfoldable pub is_hopeless : List Fired → Bool
  is_hopeless fire_log =
      let tail = last_of max_consecutive_failures fire_log in
      not (ltb (length tail) max_consecutive_failures) && not (some_of is_ok tail)

  abbrev pub turned_off : Patch
  turned_off = record {
    title = none;
    task = none;
    schedule = none;
    session_mode = none;
    project_id = none;
    enabled = some false;
    archived = none;
  }

  -- `crons.update({ username, id, enabled: false })`
  unfoldable pub turn_off : String → String → ℕ → Store → Store
  turn_off username id at s = elim (Dict.get username s) [
    | none ↦ s
    | some m ↦ kept username s (update w.wall_clock w.is_zone id turned_off at m)
  ]

  -- `disableIfHopeless`
  unfoldable pub disable_if_hopeless : Cron → Store → Store
  disable_if_hopeless c s = elim (job c.username c.id s) [
    | none ↦ s
    | some r ↦
        if is_hopeless r.fire_log
        then log c
            (record {
              fired_at = w.clock c;
              status = disabled;
              reply = none;
              note = some w.disabled_note;
            })
            (turn_off c.username c.id (w.clock c) s)
        else s
  ]

  abbrev pub claims : ℕ → Cron → ℕ → Store → Bool
  claims at c scheduled_at s = elim (job c.username c.id s) [
    | none ↦ false
    | some r ↦ (claim_slot w.wall_clock scheduled_at at r).1
  ]

  abbrev pub claimed_in : ℕ → Cron → ℕ → Store → Store
  claimed_in at c scheduled_at s =
      change c.username c.id (λ r. (claim_slot w.wall_clock scheduled_at at r).0) s

  abbrev pub after_fire : Cron → Store × Bool → Store
  after_fire c (s, true) = s
  after_fire c (s, false) = disable_if_hopeless c s

  -- The body of the loop: the store, and the jobs that were fired.
  unfoldable pub visit : ℕ → Cron → ℕ → Store × List Cron → Store × List Cron
  visit at c scheduled_at (s, fired) =
      if claims at c scheduled_at s
      then (after_fire c (fire c (claimed_in at c scheduled_at s)), fired ++ c ∷ [])
      else (claimed_in at c scheduled_at s, fired)

  unfoldable pub visit_all : ℕ → List (Cron × ℕ) → Store × List Cron → Store × List Cron
  visit_all at [] acc = acc
  visit_all at ((c, t) ∷ ds) acc = visit_all at ds (visit at c t acc)

  -- `tick`, where none is under way: the store and the jobs that were fired.
  unfoldable pub tick : ℕ → Store → Store × List Cron
  tick at s =
      visit_all at (take max_fires_per_tick (due w.wall_clock at (all_jobs (Dict.values s))))
        (s, [])

  -- `runNow`; none where there is no such job.
  unfoldable pub run_now : String → String → Store → Option (Store × Bool)
  run_now username id s =
      job username id s >>= λ c. some (fire (record c { username = username }) s)

-- The mark `ticking`: a tick that finds it set does nothing. A tick that began sets it, and its end
-- takes it away.
pub data Answer : Type 0 where
  skipped : Answer
  began : Answer

abbrev pub start_tick : Bool → Bool × Answer
start_tick true = (true, skipped)
start_tick false = (true, began)

-- `sessionKeyFor`, with the number in base 36 as a text.
abbrev pub session_key_for : Cron → (scheduled_at : Text) → (id : Text) → Text
session_key_for c scheduled_at id =
    let key = 99 ∷ 114 ∷ 111 ∷ 110 ∷ 95 ∷ id in
    elim c.session_mode [ shared ↦ key | new ↦ key ++ 95 ∷ scheduled_at ]
