-- ===== src/Agent/Service.antt =====
-- src/agent/run-service.js: a run from its start to its end, with the gates before it, the frames
-- that it sends and what is cleaned up after it.
-- The broker, the model and the turn are functions; a frame's data is its JSON text. `buildModel` and
-- `onFrame` do not throw, and no other run is started or ended between the pieces of this one.
pub mod Frames
pub mod Whole
pub mod Attach
mod Tests
use agent_pod.Base.{
  ℕ, ◌+◌, String, List, [], ◌∷◌, ◌++◌, Option, none, some, Bool, true, false, if◌then◌else◌, find,
  str_eq, some_of, ◌||◌,
}
use agent_pod.Agent.Runs
use agent_pod.Agent.Runs.{Delivery, Resumed}
use agent_pod.Agent.Runs.Views.{list_for, Listed}
use agent_pod.Agent.Runs.Resume.{Sent}
use agent_pod.Agent.Budget.{Limits, Service, Busy, enter, release}

-- `error.code` and `error.message`
pub record Fault : Type 0 where
  pub code : String
  pub message : String
  pub retryable : Bool

pub record Model : Type 0 where
  pub model : String
  pub key : String

-- What `getLlmAccess` gives, and what `runTurn` does: the frames that it hands over, and how it ends.
pub data Access : Type 0 where
  denied : Fault → Access
  granted : List Model → Access

pub record Turn : Type 0 where
  pub frames : List Sent
  pub fault : Option Fault

-- The texts of the frames that the service sends itself.
pub record Texts : Type 0 where
  pub run_start : String × ℕ
  pub model : Model → String × ℕ
  pub final : String × ℕ
  pub error : Fault → String × ℕ

abbrev framed : String → String × ℕ → Sent
framed kind body = (kind, body.0, body.1)

-- The table of the runs where there is one, the deliveries to those who listen to it, and the
-- calls of `onFrame` with their numbers.
pub record Wire : Type 0 where
  pub registry : Option Runs.Runs
  pub deliveries : List Delivery
  pub sent : List (ℕ × Sent)

-- How a call ends.
pub data Outcome : Type 0 where
  over_quota : Fault → Outcome
  refused : Busy → Outcome
  failed : Fault → Outcome
  finished : Outcome

-- `pickModel` of model-factory.js; the empty id asks for none.
unfoldable pub pick_model : List Model → String → Option Model
pick_model [] requested = none
pick_model (m ∷ ms) requested =
    if str_eq requested "" then some m else find (λ l. str_eq l.model requested) (m ∷ ms)

abbrev pub handed : Sent → Wire → Runs.Runs × ℕ × List Delivery → Wire
handed s w (m, seq, heard) = record {
  registry = some m;
  deliveries = w.deliveries ++ heard;
  sent = w.sent ++ (seq, s) ∷ [];
}

abbrev pub ended : Wire → Runs.Runs × List Delivery → Wire
ended w (m, heard) = record w { registry = some m; deliveries = w.deliveries ++ heard }

module _ (o : Runs.Limits) (run_id : String) where
  -- `emit`
  unfoldable pub emit : Sent → Wire → Wire
  emit s w = elim w.registry [
    | none ↦ record w { sent = w.sent ++ (0, s) ∷ [] }
    | some m ↦ handed s w (Runs.append o run_id s.0 s.1 s.2 m)
  ]

  unfoldable pub emit_all : List Sent → Wire → Wire
  emit_all [] w = w
  emit_all (s ∷ ss) w = emit_all ss (emit s w)

  unfoldable pub open_run : String → String → ℕ → Wire → Wire
  open_run username session_key at w = elim w.registry [
    | none ↦ w
    | some m ↦ record w { registry = some (Runs.start o run_id username session_key at m).0 }
  ]

  unfoldable pub close_run : ℕ → Wire → Wire
  close_run at w = elim w.registry [ none ↦ w | some m ↦ ended w (Runs.close run_id at m) ]

  -- `runTurn` throws, or the last frame is `final`.
  unfoldable pub conclude : Texts → Option Fault → Wire → Wire × Option Fault
  conclude t (some f) w = (w, some f)
  conclude t none w = (emit (framed "final" t.final) w, none)

  -- From `pickModel` on.
  unfoldable pub converse :
      Texts → (no_model : Fault) → (Model → Turn) → Option Model → Wire → Wire × Option Fault
  converse t no_model turn none w = (w, some no_model)
  converse t no_model turn (some m) w =
      conclude t (turn m).fault (emit_all (turn m).frames (emit (framed "model" (t.model m)) w))

  -- The body of the `try`, up to what it throws.
  unfoldable pub attempt :
      Texts → (no_model : Fault) → String → Access → (Model → Turn) → Wire → Wire × Option Fault
  attempt t no_model model_id (denied f) turn w = (emit (framed "run_start" t.run_start) w, some f)
  attempt t no_model model_id (granted models) turn w =
      converse t no_model turn (pick_model models model_id)
        (emit (framed "run_start" t.run_start) w)

  -- The `catch`
  unfoldable pub settle : Texts → Wire × Option Fault → Wire × Outcome
  settle t (w, none) = (w, finished)
  settle t (w, some f) = (emit (framed "error" (t.error f)) w, failed f)

  -- The `finally`
  unfoldable pub clean_up : String → ℕ → Service → Wire × Outcome → Service × Wire × Outcome
  clean_up username ended_at s (w, outcome) =
      (release username run_id s, close_run ended_at w, outcome)

  -- From `acquire` on.
  unfoldable pub run_admitted :
      String
      → String
      → ℕ
      → ℕ
      → Texts
      → Fault
      → String
      → Access
      → (Model → Turn)
      → Wire
      → Service × Option Busy
      → Service × Wire × Outcome
  run_admitted username session_key at ended_at t no_model model_id access turn w (s, some busy) =
      (s, w, refused busy)
  run_admitted username session_key at ended_at t no_model model_id access turn w (s, none) =
      let opened = open_run username session_key at w in
      clean_up username ended_at s (settle t (attempt t no_model model_id access turn opened))

  -- `execute`; `quota` is what `quota.assert` throws, and no other run takes a step in between.
  unfoldable pub execute :
      Limits
      → (quota : Option Fault) → (username session_key source : String) → (at ended_at : ℕ) → Texts
      → (no_model : Fault) → (model_id : String) → Access
      → (Model → Turn)
      → Service
      → Wire
      → Service × Wire × Outcome
  execute l (some f) username session_key source at ended_at t no_model model_id access turn s w =
      (s, w, over_quota f)
  execute l none username session_key source at ended_at t no_model model_id access turn s w =
      run_admitted username session_key at ended_at t no_model model_id access turn w
        (enter l username run_id source at s)

-- `compact`, with what `compactSession` does with the model.
unfoldable pub compact_admitted :
    String
    → String
    → Fault
    → String
    → Access
    → (Model → Option Fault)
    → Service × Option Busy
    → Service × Outcome
compact_admitted username hold_id no_model model_id access summarise (s, some busy) =
    (s, refused busy)
compact_admitted username hold_id no_model model_id (denied f) summarise (s, none) =
    (release username hold_id s, failed f)
compact_admitted username hold_id no_model model_id (granted models) summarise (s, none) =
    let outcome : Outcome = elim (pick_model models model_id) [
      | none ↦ failed no_model
      | some m ↦ elim (summarise m) [ some f ↦ failed f | none ↦ finished ]
    ] in
    (release username hold_id s, outcome)

unfoldable pub compact :
    Limits
    → (quota : Option Fault) → (username hold_id : String) → (at : ℕ) → (no_model : Fault)
    → (model_id : String) → Access
    → (Model → Option Fault)
    → Service
    → Service × Outcome
compact l (some f) username hold_id at no_model model_id access summarise s = (s, over_quota f)
compact l none username hold_id at no_model model_id access summarise s =
    compact_admitted username hold_id no_model model_id access summarise
      (enter l username hold_id "compact" at s)

-- `attach`: the runs that the user may see are asked first; none is the answer "not found".
unfoldable pub attach :
    Runs.Limits
    → (run_id username : String) → (from listener at : ℕ) → Option Runs.Runs
    → Option Runs.Runs × Option Resumed
attach o run_id username from listener at none = (none, none)
attach o run_id username from listener at (some m) =
    let mine = list_for o at username "" m in
    if some_of (λ r. str_eq r.run_id run_id) mine.1
    then (let s = Runs.subscribe o run_id from listener at mine.0 in (some s.0, s.1))
    else (some mine.0, none)

unfoldable pub list_runs : Runs.Limits → ℕ → String → String → Option Runs.Runs → List Listed
list_runs o at username session_key none = []
list_runs o at username session_key (some m) = (list_for o at username session_key m).1
