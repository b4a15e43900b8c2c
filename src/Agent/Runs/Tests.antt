-- ===== src/Agent/Runs/Tests.antt =====
-- The theorems on the run registry at concrete runs.
use agent_pod.Base.{
  ℕ, ◌≤◌, ◌≡◌, refl, List, [], ◌∷◌, ◌++◌, some, true, false, if◌then◌else◌, arith, leb, drop,
}
use agent_pod.Base.Dict
use agent_pod.Agent.Runs.{Limits, Run, Runs, new_run, resume, subscribe, sweep, push}
use agent_pod.Agent.Runs.Stream.{IsBacked}
use agent_pod.Agent.Runs.Resume.{Sent, frames_of, push_all, resume-frames}
use agent_pod.Agent.Runs.Live.{heard, append_all, subscribe-stream}

-- Two frames of a run are kept, or 10 bytes, and one run.
abbrev limits : Limits
limits = record {
  max_frames_per_run = 2;
  max_bytes_per_run = 10;
  keep_finished_ms = 100;
  max_retained_runs = 1;
}

abbrev sent : List Sent
sent = ("a", "x", 4) ∷ ("b", "yy", 5) ∷ ("c", "z", 3) ∷ []

abbrev begun : Run
begun = new_run "r1" "ann" "s" 7

-- The first of three frames is dropped.
kept_two : (push_all limits sent begun).frames ≡ drop 1 (frames_of 1 sent)
unfolding push_all push
kept_two = refl

gap_told : (resume (push_all limits sent begun) 0).truncated ≡ true
unfolding push_all push resume
gap_told = refl

resume-frames_example :
    let r = push_all limits sent begun in
    (k : ℕ) × (k ≤ 3)
    × (r.frames ≡ drop k (frames_of 1 sent))
    × (resume r 1 ≡ (
        if leb k 1
        then record { replay = drop 1 (frames_of 1 sent); truncated = false; done = false }
        else record { replay = []; truncated = true; done = false }))
resume-frames_example = resume-frames limits "r1" "ann" "s" 7 sent 1

abbrev seen_two : Run
seen_two = record begun {
  frames = frames_of 1 (("a", "x", 4) ∷ ("b", "yy", 5) ∷ []);
  next_seq = 3;
  bytes = 9;
}

abbrev table : Runs
table = ("r1", seen_two) ∷ []

seen_two-IsBacked : IsBacked (frames_of 1 (("a", "x", 4) ∷ ("b", "yy", 5) ∷ [])) 0 seen_two
seen_two-IsBacked = record {
  dropped = omega arith;
  suffix = refl;
  marked = refl;
  next = refl;
  size = refl;
  numbered = (refl, (refl, tt));
}

table_swept : Dict.get "r1" (sweep limits 20 table) ≡ some seen_two
unfolding sweep Dict.get
table_swept = refl

subscribe-stream_example :
    let s = subscribe limits "r1" 1 5 20 table in
    (s.1 ≡ some (resume seen_two 1))
    × (resume seen_two 1).replay ++ heard 5 (append_all limits "r1" (("c", "z", 3) ∷ []) s.0).1
      ≡ drop 1 (frames_of 1 sent)
subscribe-stream_example =
    subscribe-stream limits "r1" 1 5 20 (("c", "z", 3) ∷ []) table
      (frames_of 1 (("a", "x", 4) ∷ ("b", "yy", 5) ∷ [])) 0 seen_two table_swept refl (omega arith)
      seen_two-IsBacked (omega arith) (omega arith)

abbrev full : Runs
full =
    ("r0", record (new_run "r0" "ann" "s" 1) { done = true; ended_at = 6 })
    ∷ ("r1", begun)
    ∷ ("r2", record (new_run "r2" "ann" "s" 2) { done = true; ended_at = 9 })
    ∷ []

only_running : Dict.keys (sweep limits 20 full) ≡ "r1" ∷ []
unfolding sweep Dict.delete
only_running = refl
