-- ===== src/Agent/Budget.antt =====
-- src/agent/run-service.js: how many runs a replica and a user may have at once, and which are active.
-- The callback that aborts a run is a number; none stands for the empty one of the start.
pub mod Counts
mod Tests
use agent_pod.Base.{
  ℕ, ◌+◌, ◌-◌, String, List, Option, none, some, if◌then◌else◌, leb, ltb, length, str_eq,
}
use agent_pod.Base.Dict
use agent_pod.Base.Dict.{Dict}

pub record Limits : Type 0 where
  pub max_concurrent_runs : ℕ
  pub max_runs_per_user : ℕ

pub record Entry : Type 0 where
  pub username : String
  pub abort : Option ℕ
  pub started_at : ℕ
  pub source : String

pub record Service : Type 0 where
  pub active : Dict Entry
  pub per_user : Dict ℕ

-- What `Errors.busy` says.
pub data Busy : Type 0 where
  replica_full : (active budget : ℕ) → Busy
  user_full : (used : ℕ) → Busy

-- `perUser.get(username) || 0`
abbrev pub used_by : String → Service → ℕ
used_by username s = elim (Dict.get username s.per_user) [ none ↦ 0 | some used ↦ used ]

-- `perUser.get(username) || 1`
abbrev pub held_by : String → Service → ℕ
held_by username s = elim (Dict.get username s.per_user) [
  | none ↦ 1
  | some used ↦ if ltb 0 used then used else 1
]

-- The counts after `acquire`, or what it throws.
unfoldable pub acquire : Limits → String → Service → Service × Option Busy
acquire o username s =
    if leb o.max_concurrent_runs (length s.active)
    then (s, some (replica_full (length s.active) o.max_concurrent_runs))
    else if leb o.max_runs_per_user (used_by username s)
    then (s, some (user_full (used_by username s)))
    else (record s { per_user = Dict.set username (used_by username s + 1) s.per_user }, none)

unfoldable pub release : String → String → Service → Service
release username run_id s =
    let left = held_by username s - 1 in
    record {
      active = Dict.delete run_id s.active;
      per_user =
          if leb left 0 then Dict.delete username s.per_user else Dict.set username left s.per_user;
    }

-- `active.set(runId, …)`, where `acquire` did not throw.
abbrev pub admit : String → String → String → ℕ → Service × Option Busy → Service × Option Busy
admit username run_id source at (s, some busy) = (s, some busy)
admit username run_id source at (s, none) =
    let entry : Entry = record {
      username = username;
      abort = none;
      started_at = at;
      source = source;
    } in
    (record s { active = Dict.set run_id entry s.active }, none)

-- As `execute` and `compact` begin.
unfoldable pub enter : Limits → String → String → String → ℕ → Service → Service × Option Busy
enter o username run_id source at s = admit username run_id source at (acquire o username s)

-- `onStart`
unfoldable pub on_start : String → ℕ → Service → Service
on_start run_id callback s = record s {
  active = Dict.modify run_id (λ e. record e { abort = some callback }) s.active;
}

-- What `abort` does: it throws, or it makes the call.
pub data Aborted : Type 0 where
  not_found : Aborted
  forbidden : Aborted
  called : Option ℕ → Aborted

unfoldable pub abort : String → String → Service → Aborted
abort run_id username s = elim (Dict.get run_id s.active) [
  | none ↦ not_found
  | some e ↦ if str_eq e.username username then called e.abort else forbidden
]

pub record Snapshot : Type 0 where
  pub active_runs : ℕ
  pub budget : ℕ
  pub per_user_limit : ℕ
  pub users : List (String × ℕ)

abbrev pub snapshot : Limits → Service → Snapshot
snapshot o s = record {
  active_runs = length s.active;
  budget = o.max_concurrent_runs;
  per_user_limit = o.max_runs_per_user;
  users = s.per_user;
}
