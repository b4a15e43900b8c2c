-- ===== src/Cron/Scheduler/Tests.antt =====
-- The theorem on ticks at a concrete store.
use agent_pod.Base.{
  ℕ, ◌≤◌, ◌≡◌, refl, String, [], ◌∷◌, none, some, true, false, arith, length, map, str_eq,
  Bool-cases, inl, inr,
}
use agent_pod.Base.Dict
use agent_pod.Base.Dict.Scoped
use agent_pod.Cron.Schedule.{Wall}
use agent_pod.Cron.Plan.{interval, recover_next_fire_at}
use agent_pod.Cron.Store.{Cron, new, Fired, error, claim_slot, due}
use agent_pod.Cron.Scheduler.{
  Store, World, threw, job, tick, visit_all, visit, is_hopeless, all_jobs,
}
use agent_pod.Cron.Scheduler.Settled.{IsSettled, IsLeft}
use agent_pod.Cron.Scheduler.Ticks.{HasTaken, is_fired, tick-IsSettled}

abbrev noon : String → ℕ → Wall
noon zone ts = record {
  year = 1970;
  month = 1;
  day = 1;
  hour = 12;
  minute = 0;
  second = 0;
  dow = 4;
}

abbrev job_one : Cron
job_one = record {
  id = "c1";
  username = "ann";
  title = 65 ∷ [];
  task = 66 ∷ [];
  schedule = interval 120000 (some 500000);
  session_mode = new;
  project_id = "";
  enabled = true;
  archived = false;
  created_at = 380000;
  updated_at = 380000;
  last_fired_at = none;
  next_fire_at = some 500000;
  fire_log = [];
}

abbrev store : Store
store = ("ann", ("c1", job_one) ∷ []) ∷ []

-- Every run removes another job and fails.
abbrev world : World
world = record {
  wall_clock = noon;
  is_zone = λ z. true;
  has_credential = λ u. true;
  requires_credential = false;
  run = λ c s. (Scoped.remove "ann" "c2" s, threw (69 ∷ []));
  clock = λ c. 500003;
  reauth_note = [];
  disabled_note = [];
}

only_job : (u i : String) (c : Cron) → job u i store ≡ some c → c ≡ job_one
unfolding Dict.get
only_job u i c e = elim (Bool-cases (str_eq "ann" u)) [
  | inr p ↦ let bad : none ≡ some c = rw p at e in absurd (cc)
  | inl p ↦ elim (Bool-cases (str_eq "c1" i)) [
    | inr q ↦ let bad : none ≡ some c = rw (p, q) at e in absurd (cc)
    | inl q ↦ let same : some job_one ≡ some c = rw (p, q) at e in cc
  ]
]

left : IsLeft world "ann" "c1"
left c s = Scoped.look-remove "ann" "c2" "ann" "c1" s

store-HasTaken : HasTaken world "ann" "c1" store
store-HasTaken c e = rw (only_job "ann" "c1" c e) (omega arith, omega arith, 500000, refl)

fired_once : map (λ c. c.id) (tick world 500001 store).1 ≡ "c1" ∷ []
unfolding tick due recover_next_fire_at visit_all visit all_jobs Dict.values Dict.get claim_slot
fired_once = refl

is_fired_once : is_fired world "ann" "c1" (tick world 500001 store).1 ≡ true
unfolding tick due recover_next_fire_at visit_all visit all_jobs Dict.values Dict.get claim_slot
is_fired_once = refl

tick-IsSettled_example :
    (length (tick world 500001 store).1 ≤ 5)
    × IsSettled world 500001 "ann" "c1" (tick world 500001 store).0
tick-IsSettled_example =
    tick-IsSettled world "ann" "c1" left 500001 store store-HasTaken is_fired_once

abbrev failure : Fired
failure = record { fired_at = 1; status = error; reply = none; note = none }

-- Nine failures do not turn a job off, and ten do.
nine :
    is_hopeless world
      (failure ∷ failure ∷ failure ∷ failure ∷ failure ∷ failure ∷ failure ∷ failure ∷ failure ∷ [])
    ≡ false
unfolding is_hopeless
nine = refl

ten :
    is_hopeless world (
      failure ∷ failure ∷ failure ∷ failure ∷ failure ∷ failure ∷ failure ∷ failure ∷ failure
      ∷ failure ∷ [])
    ≡ true
unfolding is_hopeless
ten = refl
