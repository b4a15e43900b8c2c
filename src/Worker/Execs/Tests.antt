-- ===== src/Worker/Execs/Tests.antt =====
-- The theorems on the jobs of a lease at concrete jobs.
use agent_pod.Base.{ℕ, ◌≡◌, refl, String, [], ◌∷◌, ◌++◌, none, some, false, arith, last?, drop, map}
use agent_pod.Base.Dict
use agent_pod.Base.Dict.{Dict}
use agent_pod.Worker.Execs.{
  completed, output, Result, resolved, Job, new_job, settle, exit_of, finish, subscribe, evict_old,
}
use agent_pod.Worker.Execs.Stream.{heard, emit_all, finish_run, settled, subscribe-finish_run}

abbrev done_well : Result
done_well = record { exit_code = some 0; signal = none; truncated = false; duration_ms = some 9 }

abbrev begun : Job
begun = record (new_job "exe_1" 100) {
  frames =
      record { seq = 1; payload = output "stdout" "ab" 2 }
      ∷ record { seq = 2; payload = output "stdout" "c" 1 }
      ∷ [];
  next_seq = 3;
  output_bytes = 3;
}

subscribe-finish_run_example :
    let s = subscribe 1 7 begun in
    let ps = output "stderr" "d" 1 ∷ [] in
    let f = finish_run ps 110 (resolved done_well false) 111 s.0 in
    let t = settled ps 110 (resolved done_well false) s.0 in
    (s.1 ++ heard 7 f.1 ≡ drop 1 f.0.frames)
    × (last? f.0.frames ≡ some (record { seq = t.next_seq; payload = exit_of 111 t }))
    × (f.0.subscribers ≡ [])
subscribe-finish_run_example =
    subscribe-finish_run 1 7 (output "stderr" "d" 1 ∷ []) 110 (resolved done_well false) 111 begun
      refl (refl, (refl, tt)) (omega arith) (omega arith)

-- Frames 2, 3 and 4 are what the subscriber is sent.
three_sent :
    let s = subscribe 1 7 begun in
    let f = finish_run (output "stderr" "d" 1 ∷ []) 110 (resolved done_well false) 111 s.0 in
    map (λ f. f.seq) (s.1 ++ heard 7 f.1) ≡ 2 ∷ 3 ∷ 4 ∷ []
unfolding subscribe finish_run settle finish emit_all
three_sent = refl

abbrev ended : String → ℕ → Job
ended id at = record (new_job id 100) { status = completed; finished_at = at }

abbrev jobs : Dict Job
jobs = ("exe_1", begun) ∷ ("exe_2", ended "exe_2" 120) ∷ ("exe_3", ended "exe_3" 110) ∷ []

-- The job that ended first goes.
earliest_goes : Dict.keys (evict_old 1 jobs) ≡ "exe_1" ∷ "exe_2" ∷ []
unfolding evict_old Dict.delete
earliest_goes = refl
