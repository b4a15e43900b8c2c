-- ===== src/Cron/Store/Planned.antt =====
-- src/cron/store.js: what holds of every job in the store, whatever calls were made.
use agent_pod.Base.{ℕ, ◌≤◌, ◌≡◌, refl, subst, String, List, [], Option, none, some, Bool, All}
use agent_pod.Base.Dict
use agent_pod.Base.Dict.{Dict}
use agent_pod.Base.Dict.Unique.{set-All, delete-All, modify-All, get-All}
use agent_pod.Base.Text.{Text}
use agent_pod.Cron.Schedule.{Wall}
use agent_pod.Cron.Plan.{Schedule}
use agent_pod.Cron.Store.{Cron, Fired, claim_slot, unclaim_slot, record_fire}
use agent_pod.Cron.Store.Claims.{wins, claim_slot-once}
use agent_pod.Cron.Store.Sound.{
  IsSound, merge-IsSound, claim_slot-IsSound, unclaim_slot-IsSound, record_fire-IsSound,
  create_task-IsSound, clean_task-le,
}
use agent_pod.Cron.Store.Edits.{
  Draft, Patch, Edited, done, thrown, clean_task, new_task, new_schedule, fields_of, update, create,
  stored_schedule, ◌>>=◌, merge_at, create_task,
}

-- A chain that ends well had every step end well.
pub invert :
    {A B : Type 0} (e : Edited A) (f : A → Edited B) (b : B)
    → (e >>= f) ≡ done b
    → (a : A) × (e ≡ done a) × (f a ≡ done b)
invert (done a) f b h = (a, refl, h)
invert (thrown r) f b h = absurd (cc)

module _ (wall_clock : String → ℕ → Wall) (is_zone : String → Bool) where
  pub data Step : Dict Cron → Dict Cron → Type 0 where
    created :
        (id username : String) (d : Draft) (at : ℕ) (c : Cron) (m m' : Dict Cron)
        → create wall_clock is_zone id username d at m ≡ done (m', c)
        → Step m m'
    edited :
        (id : String) (p : Patch) (at : ℕ) (found : Option Cron) (m m' : Dict Cron)
        → update wall_clock is_zone id p at m ≡ done (m', found)
        → Step m m'
    claimed :
        (id : String) (scheduled_at at : ℕ) (m : Dict Cron)
        → Step m (Dict.modify id (λ c. (claim_slot wall_clock scheduled_at at c).0) m)
    unclaimed :
        (id : String) (scheduled_at at : ℕ) (prior : Option ℕ) (m : Dict Cron)
        → Step m (Dict.modify id (unclaim_slot scheduled_at at prior) m)
    logged :
        (id : String) (entry : Fired) (m : Dict Cron)
        → Step m (Dict.modify id (record_fire entry) m)
    removed : (id : String) (m : Dict Cron) → Step m (Dict.delete id m)

  pub data Reach : Dict Cron → Type 0 where
    nothing : Reach []
    later : (m m' : Dict Cron) → Reach m → Step m m' → Reach m'

  abbrev AllSound : Dict Cron → Type 0
  AllSound m = All (λ p. IsSound wall_clock is_zone p.1) m

  merge_at-AllSound :
      (id : String) (p : Patch) (at : ℕ) (task : Option Text) (new : Option (Schedule × ℕ))
      (m : Dict Cron) (found : Option Cron)
      → Dict.get id m ≡ found
      → new_task p.task ≡ done task
      → new_schedule wall_clock is_zone p.schedule at ≡ done new
      → AllSound m
      → AllSound
          (merge_at wall_clock is_zone id m found
            (fields_of wall_clock is_zone p (stored_schedule found) at task new)).0
  merge_at-AllSound id p at task new m none e t n v = v
  merge_at-AllSound id p at task new m (some c) e t n v =
      set-All (λ q. IsSound wall_clock is_zone q.1) id _ m
        (merge-IsSound wall_clock is_zone p at task new c t n
          (get-All (λ q. IsSound wall_clock is_zone q.1) id m v e))
        v

  update-AllSound :
      (id : String) (p : Patch) (at : ℕ) (m m' : Dict Cron) (found : Option Cron)
      → update wall_clock is_zone id p at m ≡ done (m', found)
      → AllSound m
      → AllSound m'
  unfolding update
  update-AllSound id p at m m' found h v =
      let (task, t, rest) = invert (new_task p.task) _ (m', found) h in
      let (new, n, last) =
        invert (new_schedule wall_clock is_zone p.schedule at) _ (m', found) rest in
      let here = Dict.get id m in
      let same : merge_at wall_clock is_zone id m here
            (fields_of wall_clock is_zone p (stored_schedule here) at task new)
          ≡ (m', found) =
        cc in
      subst (λ r. AllSound r.0) same (merge_at-AllSound id p at task new m here refl t n v)

  create-AllSound :
      (id username : String) (d : Draft) (at : ℕ) (m m' : Dict Cron) (c : Cron)
      → create wall_clock is_zone id username d at m ≡ done (m', c)
      → AllSound m
      → AllSound m'
  unfolding create
  create-AllSound id username d at m m' c h v =
      let (new, t, last) =
        invert (create_task wall_clock is_zone id username d at (clean_task d.task)) _ (m', c) h in
      let same : Dict.set id new m ≡ m' = cc in
      subst AllSound same (
        set-All (λ q. IsSound wall_clock is_zone q.1) id new m
          (create_task-IsSound wall_clock is_zone id username d at (clean_task d.task) new
            (clean_task-le wall_clock is_zone d.task) t)
          v)

  step-AllSound : (m m' : Dict Cron) → Step m m' → AllSound m → AllSound m'
  step-AllSound m m' (created id u d at c _ _ h) v = create-AllSound id u d at m m' c h v
  step-AllSound m m' (edited id p at found _ _ h) v = update-AllSound id p at m m' found h v
  step-AllSound m _ (claimed id s at _) v =
      modify-All _ id _ m (λ j c h. claim_slot-IsSound wall_clock is_zone s at c h) v
  step-AllSound m _ (unclaimed id s at prior _) v =
      modify-All _ id _ m (λ j c h. unclaim_slot-IsSound wall_clock is_zone s at prior c h) v
  step-AllSound m _ (logged id e _) v =
      modify-All _ id _ m (λ j c h. record_fire-IsSound wall_clock is_zone e c h) v
  step-AllSound m _ (removed id _) v = delete-All _ id m v

  Reach-AllSound : (m : Dict Cron) → Reach m → AllSound m
  Reach-AllSound _ nothing = tt
  Reach-AllSound m' (later m _ r p) = step-AllSound m m' p (Reach-AllSound m r)

  -- Whatever calls of `create`, `update`, `remove`, `claimSlot`, `unclaimSlot` and `recordFire`
  -- were made on a store that began empty, a job that is found in it has a title of at most 60
  -- characters, a task that is not empty and has at most 4000, a schedule that `normalizeSchedule`
  -- takes, and at most 20 entries in its log.
  pub Reach-IsSound :
      (m : Dict Cron) (id : String) (c : Cron)
      → Reach m
      → Dict.get id m ≡ some c
      → IsSound wall_clock is_zone c
  Reach-IsSound m id c r e =
      get-All (λ q. IsSound wall_clock is_zone q.1) id m (Reach-AllSound m r) e

  -- Whatever calls were made on a store that began empty: however many replicas claim the same time
  -- of a job that is found in it, each when that time has come, at most one goes through.
  pub Reach-claim_once :
      (m : Dict Cron) (id : String) (c : Cron) (scheduled : ℕ) (ats : List ℕ)
      → Reach m
      → Dict.get id m ≡ some c
      → All (λ at. scheduled ≤ at) ats
      → wins wall_clock is_zone scheduled ats c ≤ 1
  Reach-claim_once m id c scheduled ats r e l =
      claim_slot-once wall_clock is_zone scheduled ats c (Reach-IsSound m id c r e).taken l
