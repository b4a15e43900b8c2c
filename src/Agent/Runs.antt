-- ===== src/Agent/Runs.antt =====
-- src/agent/run-registry.js: the frames of the runs in progress, kept so that a client that lost
-- its connection can take the stream up again.
-- `text` is the JSON text of a frame's data and `bytes` its length, `JSON.stringify(data).length`.
-- A listener is a number, and a call that hands it a frame, or `null` at the end, is an item of the
-- list of deliveries.
pub mod Views
pub mod Stream
pub mod Resume
pub mod Live
pub mod Retention
mod Tests
use agent_pod.Base.{
  ℕ, suc, ◌+◌, ◌-◌, String, List, [], ◌∷◌, ◌++◌, Option, none, some, Bool, true, false,
  if◌then◌else◌, ◌==◌, ltb, leb, not, ◌&&◌, ◌||◌, length, keep, take, map, reverse, str_eq,
}
use agent_pod.Base.Dict
use agent_pod.Base.Dict.{Dict}
use agent_pod.Base.Sort

pub record Limits : Type 0 where
  pub max_frames_per_run : ℕ
  pub max_bytes_per_run : ℕ
  pub keep_finished_ms : ℕ
  pub max_retained_runs : ℕ

pub record Frame : Type 0 where
  pub seq : ℕ
  pub kind : String  -- `type`
  pub text : String
  pub bytes : ℕ

pub record Run : Type 0 where
  pub run_id : String
  pub username : String
  pub session_key : String
  pub started_at : ℕ
  pub ended_at : ℕ
  pub frames : List Frame
  pub next_seq : ℕ
  pub bytes : ℕ
  pub truncated : Bool
  pub done : Bool
  pub listeners : List ℕ

abbrev pub Runs : Type 0
Runs = Dict Run

abbrev pub Delivery : Type 0
Delivery = ℕ × Option Frame

abbrev pub new_run : String → String → String → ℕ → Run
new_run run_id username session_key at = record {
  run_id = run_id;
  username = username;
  session_key = session_key;
  started_at = at;
  ended_at = 0;
  frames = [];
  next_seq = 1;
  bytes = 0;
  truncated = false;
  done = false;
  listeners = [];
}

-- `run.frames[0].seq`, or the next number where no frame is kept.
abbrev pub oldest_seq : List Frame → ℕ → ℕ
oldest_seq [] next = next
oldest_seq (f ∷ fs) next = f.seq

abbrev pub is_gapped : Run → ℕ → Bool
is_gapped r from = r.truncated && ltb (from + 1) (oldest_seq r.frames r.next_seq)

pub record Resumed : Type 0 where
  pub replay : List Frame
  pub truncated : Bool
  pub done : Bool

-- `subscribe` on the run that it finds.
unfoldable pub resume : Run → ℕ → Resumed
resume r from =
    let gapped = is_gapped r from in
    record {
      replay = if gapped then [] else keep (λ f. ltb from f.seq) r.frames;
      truncated = gapped;
      done = r.done;
    }

-- `Set.add`
abbrev pub add_listener : ℕ → List ℕ → List ℕ
add_listener l [] = l ∷ []
add_listener l (x ∷ xs) = if x == l then x ∷ xs else x ∷ add_listener l xs

module _ (o : Limits) where
  -- The loop of `trim`: frames, bytes and mark after the oldest frames were dropped.
  unfoldable pub trim_loop : List Frame → ℕ → Bool → List Frame × ℕ × Bool
  trim_loop [] bytes truncated = ([], bytes, truncated)
  trim_loop (f ∷ fs) bytes truncated =
      let dropped = trim_loop fs (bytes - f.bytes) true in
      if ltb o.max_frames_per_run (length (f ∷ fs)) || ltb o.max_bytes_per_run bytes
      then dropped
      else (f ∷ fs, bytes, truncated)

  unfoldable pub trim : Run → Run
  unfolding trim_loop
  trim r =
      let (fs, bytes, truncated) = trim_loop r.frames r.bytes r.truncated in
      record r { frames = fs; bytes = bytes; truncated = truncated }

  -- `append` on the run that it finds.
  unfoldable pub push : Run → String → String → ℕ → Run
  unfolding trim
  push r kind text bytes = trim (record r {
    next_seq = r.next_seq + 1;
    bytes = r.bytes + bytes;
    frames = r.frames ++ record { seq = r.next_seq; kind = kind; text = text; bytes = bytes } ∷ [];
  })

  unfoldable pub append : String → String → String → ℕ → Runs → Runs × ℕ × List Delivery
  append run_id kind text bytes m = elim (Dict.get run_id m) [
    | none ↦ (m, 0, [])
    | some r ↦
        let frame : Frame = record { seq = r.next_seq; kind = kind; text = text; bytes = bytes } in
        (
          Dict.set run_id (push r kind text bytes) m,
          r.next_seq,
          map (λ listener. (listener, some frame)) r.listeners,
        )
  ]

  -- `at - endedAt > keepFinishedMs`
  abbrev pub is_stale : ℕ → Run → Bool
  is_stale at r = r.done && ltb (r.ended_at + o.keep_finished_ms) at

  unfoldable pub drop_stale : ℕ → Runs → Runs
  drop_stale at = keep (λ p. not (is_stale at p.1))

  -- What is over the limit on the runs goes: the finished ones, the earliest first.
  unfoldable pub evictable : Runs → Runs
  unfolding Sort.sort
  evictable m =
      take (length m - o.max_retained_runs) (Sort.sort (λ p. p.1.ended_at) (keep (λ p. p.1.done) m))

  unfoldable pub sweep : ℕ → Runs → Runs
  unfolding drop_stale evictable Dict.delete_all
  sweep at m =
      let live = drop_stale at m in
      if leb (length live) o.max_retained_runs
      then live
      else Dict.delete_all (Dict.keys (evictable live)) live

  unfoldable pub start : String → String → String → ℕ → Runs → Runs × Run
  unfolding sweep
  start run_id username session_key at m =
      let swept = sweep at m in
      elim (Dict.get run_id swept) [
        | some r ↦ (swept, r)
        | none ↦ let r = new_run run_id username session_key at in (Dict.set run_id r swept, r)
      ]

  unfoldable pub subscribe : String → ℕ → ℕ → ℕ → Runs → Runs × Option Resumed
  unfolding sweep resume
  subscribe run_id from listener at m =
      let swept = sweep at m in
      elim (Dict.get run_id swept) [
        | none ↦ (swept, none)
        | some r ↦ if r.done then (swept, some (resume r from)) else (
          Dict.set run_id (record r { listeners = add_listener listener r.listeners }) swept,
          some (resume r from),
        )
      ]

-- `unsubscribe`
unfoldable pub unsubscribe : String → ℕ → Runs → Runs
unsubscribe run_id listener =
    Dict.modify run_id (λ r. record r { listeners = keep (λ x. not (x == listener)) r.listeners })

unfoldable pub close : String → ℕ → Runs → Runs × List Delivery
close run_id at m = elim (Dict.get run_id m) [
  | none ↦ (m, [])
  | some r ↦ if r.done then (m, []) else (
    Dict.set run_id (record r { done = true; ended_at = at; listeners = [] }) m,
    map (λ listener. (listener, none)) r.listeners,
  )
]
