-- ===== src/Worker/Execs.antt =====
-- sandbox-worker/src/exec-jobs.js: commands whose life does not hang on a connection.
-- The settled promise of `run` is two steps, as in the code: `settle` is the `then` or the `catch`,
-- `conclude` the `finally`. A subscriber is a number; what it is sent is an item of a list.
pub mod Stream
pub mod Eviction
mod Tests
use agent_pod.Base.{
  ℕ, suc, ◌+◌, ◌-◌, String, List, [], ◌∷◌, ◌++◌, Option, none, some, Bool, true, false,
  if◌then◌else◌, ◌==◌, ltb, not, length, keep, take, map, str_eq,
}
use agent_pod.Base.Dict
use agent_pod.Base.Dict.{Dict}
use agent_pod.Base.Sort

pub data Status : Type 0 where
  running : Status
  completed : Status
  aborted : Status
  failed : Status

abbrev pub is_running : Status → Bool
is_running running = true
is_running completed = false
is_running aborted = false
is_running failed = false

-- What a frame says; `bytes` is `Buffer.byteLength(data)`.
pub data Payload : Type 0 where
  output : (kind text : String) (bytes : ℕ) → Payload
  other : (kind : String) → Payload
  error : (code message : String) → Payload
  exit :
      (exit_code : Option ℕ) (signal : Option String) (truncated : Bool) (duration_ms : ℕ)
      (status : Status)
      → Payload

pub record Frame : Type 0 where
  pub seq : ℕ
  pub payload : Payload

pub record Result : Type 0 where
  pub exit_code : Option ℕ
  pub signal : Option String
  pub truncated : Bool
  pub duration_ms : Option ℕ

-- How the promise of `run` is settled.
pub data Outcome : Type 0 where
  resolved : (result : Result) (was_aborted : Bool) → Outcome
  rejected : (code message : String) → Outcome

pub record Job : Type 0 where
  pub exec_id : String
  pub status : Status
  pub started_at : ℕ
  pub finished_at : ℕ
  pub frames : List Frame
  pub output_bytes : ℕ
  pub next_seq : ℕ
  pub result : Option Result
  pub stopping : Bool  -- `controller.signal.aborted`
  pub subscribers : List ℕ

-- What this module keeps on a lease; a controller in `running` goes by its job's id.
pub record Lease : Type 0 where
  pub execs : Dict Job
  pub controllers : List String
  pub exec_count : ℕ

abbrev pub Delivery : Type 0
Delivery = ℕ × Frame

abbrev pub new_job : String → ℕ → Job
new_job exec_id at = record {
  exec_id = exec_id;
  status = running;
  started_at = at;
  finished_at = 0;
  frames = [];
  output_bytes = 0;
  next_seq = 1;
  result = none;
  stopping = false;
  subscribers = [];
}

abbrev pub bytes_of : Payload → ℕ
bytes_of (output kind text bytes) = bytes
bytes_of (other kind) = 0
bytes_of (error code message) = 0
bytes_of (exit exit_code signal truncated duration_ms status) = 0

unfoldable pub emit : Payload → Job → Job × List Delivery
emit p job =
    let frame : Frame = record { seq = job.next_seq; payload = p } in
    (
      record job {
        output_bytes = job.output_bytes + bytes_of p;
        next_seq = job.next_seq + 1;
        frames = job.frames ++ frame ∷ [];
      },
      map (λ sink. (sink, frame)) job.subscribers,
    )

-- The `then` and the `catch` of `start`.
unfoldable pub settle : ℕ → Outcome → Job → Job × List Delivery
unfolding emit
settle at (resolved result was_aborted) job =
    (record job { result = some result; status = if was_aborted then aborted else completed }, [])
settle at (rejected code message) job =
    let r = emit (error code message) job in
    (
      record r.0 {
        result = some (record {
          exit_code = none;
          signal = none;
          truncated = false;
          duration_ms = some (at - job.started_at);
        });
        status = failed;
      },
      r.1,
    )

-- The last frame: `job.result?.exitCode ?? null` and so on.
abbrev pub exit_of : ℕ → Job → Payload
exit_of at job = elim job.result [
  | none ↦ exit none none false (at - job.started_at) job.status
  | some r ↦
      exit r.exit_code r.signal r.truncated
        (elim r.duration_ms [ none ↦ at - job.started_at | some ms ↦ ms ]) job.status
]

-- What the `finally` does to the job.
unfoldable pub finish : ℕ → Job → Job × List Delivery
unfolding emit
finish at job =
    let ended = record job { finished_at = at } in
    let r = emit (exit_of at ended) ended in (record r.0 { subscribers = [] }, r.1)

-- `Set.add`
abbrev pub add_sink : ℕ → List ℕ → List ℕ
add_sink l [] = l ∷ []
add_sink l (x ∷ xs) = if x == l then x ∷ xs else x ∷ add_sink l xs

-- The frames that are sent at once, and the job afterwards.
unfoldable pub subscribe : ℕ → ℕ → Job → Job × List Frame
subscribe from sink job =
    let replay = keep (λ f. ltb from f.seq) job.frames in
    if is_running job.status
    then (record job { subscribers = add_sink sink job.subscribers }, replay)
    else (job, replay)

unfoldable pub unsubscribe : ℕ → Job → Job
unsubscribe sink job = record job { subscribers = keep (λ x. not (x == sink)) job.subscribers }

unfoldable pub abort : Job → Job × Bool
abort job = if is_running job.status then (record job { stopping = true }, true) else (job, false)

abbrev pub is_finished : Job → Bool
is_finished job = not (is_running job.status)

module _ (retain_jobs : ℕ) where
  -- The finished jobs over the limit, the earliest first.
  unfoldable pub evictable : Dict Job → List Job
  unfolding Sort.sort Dict.values
  evictable jobs =
      let finished = keep is_finished (Dict.values jobs) in
      take (length finished - retain_jobs) (Sort.sort (λ job. job.finished_at) finished)

  unfoldable pub evict_old : Dict Job → Dict Job
  unfolding evictable Dict.delete_all
  evict_old jobs = Dict.delete_all (map (λ job. job.exec_id) (evictable jobs)) jobs

  unfoldable pub start : String → ℕ → Lease → Lease × Job
  unfolding evict_old
  start exec_id at lease =
      let job = new_job exec_id at in
      (
        record {
          execs = evict_old (Dict.set exec_id job lease.execs);
          controllers = lease.controllers ++ exec_id ∷ [];
          exec_count = lease.exec_count + 1;
        },
        job,
      )

  -- The `finally` of `start`.
  unfoldable pub conclude : ℕ → Job → Lease → Lease × List Delivery
  unfolding evict_old finish
  conclude at job lease =
      let r = finish at job in
      (
        record lease {
          execs = evict_old (Dict.modify job.exec_id (λ _. r.0) lease.execs);
          controllers = keep (λ id. not (str_eq id job.exec_id)) lease.controllers;
        },
        r.1,
      )

pub record Listed : Type 0 where
  pub exec_id : String
  pub status : Status
  pub started_at : ℕ
  pub finished_at : ℕ
  pub frame_count : ℕ  -- `frames`
  pub output_bytes : ℕ

-- `list`
unfoldable pub list_jobs : Lease → List Listed
unfolding Dict.values
list_jobs lease =
    map
      (λ job. record {
        exec_id = job.exec_id;
        status = job.status;
        started_at = job.started_at;
        finished_at = job.finished_at;
        frame_count = length job.frames;
        output_bytes = job.output_bytes;
      })
      (Dict.values lease.execs)
