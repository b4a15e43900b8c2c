-- ===== src/Agent/Service/Tests.antt =====
-- The theorems on the run service at concrete runs.
use agent_pod.Base.{◌≡◌, refl, [], ◌∷◌, none, some, false, true}
use agent_pod.Base.Dict
use agent_pod.Agent.Runs
use agent_pod.Agent.Runs.{Run, Resumed, new_run}
use agent_pod.Agent.Budget.{Limits, Service}
use agent_pod.Agent.Service.{Fault, Model, granted, Turn, Texts, attach, pick_model}
use agent_pod.Agent.Service.Frames.{told, script}
use agent_pod.Agent.Service.Attach.{IsKeyed, attach-owner}

abbrev limits : Limits
limits = record { max_concurrent_runs = 2; max_runs_per_user = 1 }

abbrev runs : Runs.Limits
runs = record {
  max_frames_per_run = 9;
  max_bytes_per_run = 100;
  keep_finished_ms = 100;
  max_retained_runs = 4;
}

abbrev empty : Service
empty = record { active = []; per_user = [] }

abbrev texts : Texts
texts = record {
  run_start = ("s", 1);
  model = λ m. (m.model, 1);
  final = ("f", 1);
  error = λ f. (f.code, 1);
}

abbrev fault : Fault
fault = record { code = "TIMEOUT"; message = ""; retryable = true }

abbrev small : Model
small = record { model = "small"; key = "k" }

-- A turn that says one thing and then fails.
abbrev breaks : Model → Turn
breaks m = record { frames = ("text", "hi", 2) ∷ []; fault = some fault }

frames_told :
    told texts (script texts fault "" (granted (small ∷ [])) breaks)
    ≡ ("run_start", "s", 1)
      ∷ ("model", "small", 1)
      ∷ ("text", "hi", 2)
      ∷ ("error", "TIMEOUT", 1)
      ∷ []
unfolding pick_model
frames_told = refl

abbrev table : Runs.Runs
table = ("r1", new_run "r1" "ann" "main" 5) ∷ []

table-IsKeyed : IsKeyed table
unfolding Dict.get
table-IsKeyed = record { is_map = (refl, tt); keyed = (refl, tt) }

abbrev resumed : Resumed
resumed = record { replay = []; truncated = false; done = false }

attached : (attach runs "r1" "ann" 0 7 6 (some table)).1 ≡ some resumed
unfolding attach Runs.subscribe Runs.Views.list_for Dict.get
attached = refl

attach-owner_example : (r : Run) × (Dict.get "r1" table ≡ some r) × (r.username ≡ "ann")
attach-owner_example = attach-owner runs "r1" "ann" 0 7 6 table resumed table-IsKeyed attached

-- Another user is told that there is no such run.
kept_out : (attach runs "r1" "bob" 0 7 6 (some table)).1 ≡ none
unfolding attach Runs.subscribe Runs.Views.list_for Dict.get
kept_out = refl
