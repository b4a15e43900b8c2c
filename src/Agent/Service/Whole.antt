-- ===== src/Agent/Service/Whole.antt =====
-- src/agent/run-service.js: `execute` as a whole, from the gates to the `finally`, and `attach`.
use agent_pod.Base.{ℕ, ◌+◌, ◌<◌, ◌≡◌, String, List, [], Option, none, some, length}
use agent_pod.Base.Dict
use agent_pod.Agent.Runs
use agent_pod.Agent.Runs.Resume.{Sent}
use agent_pod.Agent.Budget.{Limits, Service, used_by}
use agent_pod.Agent.Service.{Fault, Model, Access, Turn, Texts, Wire}
use agent_pod.Agent.Service.Frames.{script}

-- A table with nothing sent yet.
abbrev pub quiet : Runs.Runs → Wire
quiet m = record { registry = some m; deliveries = []; sent = [] }

module _ (l : Limits) (username run_id source : String) (at : ℕ) (s : Service)
    (few : length s.active < l.max_concurrent_runs)
    (mine : used_by username s < l.max_runs_per_user)
    (fresh : Dict.get run_id s.active ≡ none) where
  abbrev entered : Service
  entered = record {
    active =
        Dict.set run_id
          (record { username = username; abort = none; started_at = at; source = source }) s.active;
    per_user = Dict.set username (used_by username s + 1) s.per_user;
  }

module _ (o : Runs.Limits) (run_id username session_key source : String) (at ended_at : ℕ)
    (t : Texts) (no_model : Fault) (model_id : String) (access : Access) (turn : Model → Turn) where
  abbrev said : List Sent × Option Fault
  said = script t no_model model_id access turn
