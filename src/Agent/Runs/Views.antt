-- ===== src/Agent/Runs/Views.antt =====
-- src/agent/run-registry.js: what it says of its runs, `listFor` and `stats`.
use agent_pod.Base.{
  ℕ, ◌+◌, ◌-◌, String, List, [], ◌∷◌, Bool, not, ◌||◌, length, keep, map, reverse, str_eq,
}
use agent_pod.Base.Dict
use agent_pod.Base.Sort
use agent_pod.Agent.Runs.{Limits, Run, Runs, sweep}

pub record Listed : Type 0 where
  pub run_id : String
  pub session_key : String
  pub started_at : ℕ
  pub ended_at : ℕ
  pub done : Bool
  pub last_seq : ℕ
  pub truncated : Bool

abbrev pub listed : Run → Listed
listed r = record {
  run_id = r.run_id;
  session_key = r.session_key;
  started_at = r.started_at;
  ended_at = r.ended_at;
  done = r.done;
  last_seq = r.next_seq - 1;
  truncated = r.truncated;
}

-- `listFor`: the newest comes first. The stable sort on `b.startedAt - a.startedAt` is the
-- ascending one, from back to front on both sides.
unfoldable pub list_for : Limits → ℕ → String → String → Runs → Runs × List Listed
unfolding sweep Sort.sort Dict.values
list_for o at username session_key m =
    let swept = sweep o at m in
    let mine =
      keep (λ r. str_eq session_key "" || str_eq r.session_key session_key)
        (keep (λ r. str_eq r.username username) (Dict.values swept)) in
    (swept, map listed (reverse (Sort.sort (λ r. r.started_at) (reverse mine))))

pub record Stats : Type 0 where
  pub runs : ℕ
  pub active : ℕ
  pub bytes : ℕ

abbrev pub sum_bytes : List Run → ℕ
sum_bytes [] = 0
sum_bytes (r ∷ rs) = r.bytes + sum_bytes rs

unfoldable pub stats : Runs → Stats
unfolding Dict.values
stats m = record {
  runs = length m;
  active = length (keep (λ r. not r.done) (Dict.values m));
  bytes = sum_bytes (Dict.values m);
}
