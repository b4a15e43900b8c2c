-- ===== src/Worker/Leases/Tests.antt =====
-- The theorems on leases at a worker with two slots.
use agent_pod.Base.{
  ℕ, ◌+◌, ◌≤◌, ◌≡◌, ◌≢◌, refl, String, List, [], ◌∷◌, none, some, true, false, arith, length, keep,
  str_eq, if◌then◌else◌,
}
use agent_pod.Base.Sort
use agent_pod.Base.Dict
use agent_pod.Worker.Slots
use agent_pod.Worker.Slots.{Slot, Boot}
use agent_pod.Worker.Slots.Holders.{IsPool}
use agent_pod.Worker.Lease.{Config, Lease, new_lease, parked_lease}
use agent_pod.Worker.Leases.{
  Manager, grant, is_eligible, park, begin_park, end_park, gives_up, parked, acquire, oldest_parked,
  overflow, mine, sweep, release_each, release, parked_of,
}
use agent_pod.Worker.Leases.Invariant.{IsConsistent}
use agent_pod.Worker.Leases.Interleaving.{
  State, Reach, here, next, grants, begins, start, Reach-slot, Reach-waiting,
}
use agent_pod.Worker.Leases.Acquire.{IsOldest, acquire_preempts}
use agent_pod.Worker.Leases.Expiry.{
  Op, run, touches, parks, sweeps, renews, attaches, run-hard_limit, run-park_window,
}
use agent_pod.Worker.Leases.Removal.{get-sweep, survivor}

abbrev config : Config
config = record {
  ttl_ms = 100;
  idle_timeout_ms = 60;
  park_ttl_ms = 40;
  park_grace_ms = 5;
  max_lifetime_ms = 200;
  max_parked_per_user = 1;
}

abbrev boot : Boot
boot = record { pid = 7; policy = "p" }

abbrev slots : List Slot
slots = Slots.booted 0 boot ∷ Slots.booted 1 boot ∷ []

abbrev lease : String → ℕ → Lease
lease id at = record {
  lease_id = id;
  lease_token = "t";
  run_id = "r";
  username = "u";
  slot = 0;
  created_at = at;
  last_used_at = at;
  expires_at = at + 100;
  hard_expires_at = at + 200;
  running = [];
  exec_count = 0;
  browser = false;
  released = false;
  parked = false;
  parked_at = 0;
}

abbrev granted : State
granted = record (start slots) {
  manager = (grant (lease "a" 10) (record { leases = []; slots = slots })).0;
}

granted-Reach : Reach (start slots) granted
unfolding Dict.get
granted-Reach = next here (grants (lease "a" 10) refl refl)

slots-IsPool : IsPool slots
slots-IsPool = (refl, (refl, tt))

Reach-slot_example : ◌≡◌ {A = String} "a" "a"
unfolding grant Dict.get Dict.set Slots.first_free
Reach-slot_example =
    Reach-slot slots granted "a" "a" (lease "a" 10) (lease "a" 10) slots-IsPool granted-Reach refl
      refl refl

-- A second lease, while the slot of the first waits to be destroyed.
abbrev second : State
second = record {
  manager = record {
    leases = ("b", record (lease "b" 12) { slot = 1 }) ∷ [];
    slots = Slots.taken "a" (Slots.booted 0 boot) ∷ Slots.taken "b" (Slots.booted 1 boot) ∷ [];
  };
  waiting = ("a", 0) ∷ [];
}

second-Reach : Reach (start slots) second
unfolding grant Dict.get Dict.set Dict.delete Slots.first_free Slots.mark
second-Reach =
    next (next (next here (grants (lease "a" 10) refl refl)) (begins "a" (lease "a" 10) refl))
      (grants (lease "b" 12) refl refl)

Reach-waiting_example : ◌≢◌ {A = ℕ} 1 0
unfolding Dict.get
Reach-waiting_example =
    Reach-waiting slots second "a" "b" 0 (record (lease "b" 12) { slot = 1 }) slots-IsPool
      second-Reach refl refl

abbrev day : List (ℕ × Op)
day =
    (20, touches)
    ∷ (30, renews (some 500))
    ∷ (40, parks)
    ∷ (60, attaches "r2" "t2")
    ∷ (90, sweeps)
    ∷ []

run-hard_limit_example :
    let l = run config (new_lease config "a" "t" "r" "u" 0 (some 50) 10) day in
    (l.hard_expires_at ≡ 210) × (l.expires_at ≤ 210)
run-hard_limit_example = run-hard_limit config "a" "t" "r" "u" 0 (some 50) 10 day (omega arith)

-- Parked at time 10.
abbrev parked_a : Lease
parked_a = record (lease "a" 10) { parked = true; parked_at = 10; expires_at = 50 }

run-park_window_example :
    let ops : List (ℕ × Op) = (20, touches) ∷ (30, renews (some 500)) ∷ (45, sweeps) ∷ [] in
    ((run config parked_a ops).parked ≡ true) × ((run config parked_a ops).expires_at ≤ 85)
run-park_window_example =
    run-park_window config 10 parked_a ((20, touches) ∷ (30, renews (some 500)) ∷ (45, sweeps) ∷ [])
      (omega arith) tt
      (record { cap = refl; capped = omega arith; used = omega arith; window = λ _. omega arith })
      refl

-- Both slots taken, and the lease on the first one parked.
abbrev full : Manager
full = record {
  leases = ("a", parked_a) ∷ ("b", record (lease "b" 12) { slot = 1 }) ∷ [];
  slots = Slots.taken "a" (Slots.booted 0 boot) ∷ Slots.taken "b" (Slots.booted 1 boot) ∷ [];
}

full-IsConsistent : IsConsistent full
unfolding Dict.get
full-IsConsistent = record {
  is_map = (refl, (refl, tt));
  keyed = (refl, (refl, tt));
  is_pool = (refl, (refl, tt));
  held = (refl, (refl, tt));
}

acquire_preempts_example :
    let r = acquire config "c" "t" "r" "u" none 20 20 (some boot) full in
    let l = new_lease config "c" "t" "r" "u" 0 none 20 in
    IsOldest (keep (is_eligible config 20) (Dict.values full.leases)) (some parked_a)
    × (r.1 ≡ some l)
    × ((j : String)
        → Dict.get j r.0.leases ≡ (
            if str_eq "c" j then some l else if str_eq "a" j then none else Dict.get j full.leases))
unfolding Slots.first_free oldest_parked
acquire_preempts_example =
    acquire_preempts config 20 full full-IsConsistent "c" "t" "r" "u" none 20 boot parked_a refl
      refl

-- Three slots, the lease on the first one parked.
abbrev three : Manager
three = record {
  leases =
      ("a", parked_a)
      ∷ ("b", record (lease "b" 12) { slot = 1 })
      ∷ ("d", record (lease "d" 13) { slot = 2 })
      ∷ [];
  slots = [];
}

-- A second `park` of the user comes while the first one waits for the release of "a", whose lease has
-- left the map: it finds no lease parked and gives up none. Then both go through, and two leases are
-- parked where the limit is one.
overlapped :
    let b = record (lease "b" 12) { slot = 1 } in
    let d = record (lease "d" 13) { slot = 2 } in
    let waits = record three { leases = Dict.delete "a" three.leases } in
    (begin_park config b 20 three ≡ gives_up ("a" ∷ []))
    × ((park config d 21 (λ _. none) waits).1 ≡ parked 61)
    × (length (parked_of "u" (end_park config b 20 (park config d 21 (λ _. none) waits).0)) ≡ 2)
unfolding park parked_lease overflow mine parked_of release_each Dict.delete Dict.modify Dict.values
    Sort.sort
overlapped = (refl, refl, refl)

get-sweep_example :
    Dict.get "a" (sweep config 50 (λ _. some boot) full).0.leases
    ≡ survivor config 50 (Dict.get "a" full.leases)
get-sweep_example = get-sweep config 50 (λ _. some boot) full "a" full-IsConsistent

-- The parked lease runs out at 50 and goes; the other one stays.
sweep_takes_parked :
    (Dict.keys (sweep config 50 (λ _. some boot) full).0.leases ≡ "b" ∷ [])
    × ((sweep config 50 (λ _. some boot) full).1 ≡ 1)
unfolding sweep release_each release Dict.get Dict.delete Slots.release
sweep_takes_parked = (refl, refl)
