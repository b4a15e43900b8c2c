-- ===== src/Cron/Scheduler/Ticks.antt =====
-- src/cron/scheduler.js: how many jobs a tick fires, and that none is fired twice for its time.
use mathlib.Core.Option
use agent_pod.Base.{
  ℕ, ◌+◌, ◌≤◌, ◌≡◌, refl, sym, ◌∙◌, subst, String, List, [], ◌∷◌, Option, none, some, Bool, true,
  false, if◌then◌else◌, arith, leb, leb→le, not, ◌&&◌, ◌||◌, All, All-take, some_of, ◌⊎◌, ◌++◌,
  Bool-cases, Option-cases, inl, inr, length, take, length-append, length-take-le,
}
use agent_pod.Base.Dict
use agent_pod.Base.Dict.Scoped.{same_key, same_names}
use agent_pod.Base.Sort
use agent_pod.Cron.Store.{Cron, Fired, slot_of, claim_slot, record_fire, due, due_now, is_at}
use agent_pod.Cron.Store.Claims.{claimed}
use agent_pod.Cron.Plan.Progress.{IsTaken}
use agent_pod.Cron.Scheduler.{
  Store, World, job, change, log, logged, fire, is_hopeless, turn_off, disable_if_hopeless, claims,
  claimed_in, after_fire, visit, visit_all, tick, all_jobs, max_fires_per_tick,
}
use agent_pod.Cron.Scheduler.Settled.{
  job-change, job-turn_off, off, off-schedule, IsSettled, IsLeft, fire-IsSettled,
  after_fire-IsSettled, visit-IsSettled,
}

module _ (w : World) where
  visit-length :
      (at : ℕ) (c : Cron) (t : ℕ) (acc : Store × List Cron)
      → length (visit w at c t acc).1 ≤ length acc.1 + 1
  unfolding visit
  visit-length at c t (s, fired) = elim (Bool-cases (claims w at c t s)) [
    | inl e ↦ rw (visit, e) (omega (arith, length-append fired (c ∷ [])))
    | inr e ↦ rw (visit, e) (omega arith)
  ]

  visit_all-length :
      (at : ℕ) (ds : List (Cron × ℕ)) (acc : Store × List Cron)
      → length (visit_all w at ds acc).1 ≤ length acc.1 + length ds
  unfolding visit_all
  visit_all-length at [] acc = omega arith
  visit_all-length at ((c, t) ∷ ds) acc =
      omega (arith, visit-length at c t acc, visit_all-length at ds (visit w at c t acc))

  due_now-le : (at : ℕ) (cs : List Cron) → All (λ d. d.1 ≤ at) (due_now w.wall_clock at cs)
  unfolding due_now
  due_now-le at [] = tt
  due_now-le at (c ∷ cs) = elim (Bool-cases (c.archived || not c.enabled)) [
    | inl a ↦ rw (due_now, a) (due_now-le at cs)
    | inr a ↦ elim (Option-cases (slot_of w.wall_clock c)) [
      | inl e ↦ rw (due_now, a, e) (due_now-le at cs)
      | inr (t, e) ↦ elim (Bool-cases (leb t at)) [
        | inl b ↦ rw (due_now, a, e, b) (leb→le _ _ b, due_now-le at cs)
        | inr b ↦ rw (due_now, a, e, b) (due_now-le at cs)
      ]
    ]
  ]

  -- One job.
  module _ (u i : String) where
    -- If the job is there, its schedule was taken.
    abbrev pub HasTaken : Store → Type 0
    HasTaken s = (c : Cron) → job u i s ≡ some c → IsTaken w.wall_clock w.is_zone c.schedule

    -- Whether the job is among those fired.
    abbrev pub is_fired : List Cron → Bool
    is_fired cs = some_of (λ c. same_key c.username c.id u i) cs

    -- No run changes the job.
    module _ (left : IsLeft w u i) where
      -- A change of jobs keeps that, if it keeps schedules.
      taken_through :
          (f : Cron → Cron) (same : Bool) (o : Option Cron) (c : Cron)
          → ((d : Cron) → (f d).schedule ≡ d.schedule)
          → ((d : Cron) → o ≡ some d → IsTaken w.wall_clock w.is_zone d.schedule)
          → (if same then Option.map f o else o) ≡ some c
          → IsTaken w.wall_clock w.is_zone c.schedule
      taken_through f false o c h k e = k c e
      taken_through f true none c h k e = absurd (cc)
      taken_through f true (some d) c h k e =
          let same : f d ≡ c = cc in
          subst (λ x. IsTaken w.wall_clock w.is_zone x.schedule) same
            (subst (IsTaken w.wall_clock w.is_zone) (sym (h d)) (k d refl))

      change-HasTaken :
          (v j : String) (f : Cron → Cron) (s : Store)
          → ((d : Cron) → (f d).schedule ≡ d.schedule)
          → HasTaken s
          → HasTaken (change v j f s)
      change-HasTaken v j f s h k c e =
          taken_through f (same_key v j u i) (job u i s) c h k (sym (job-change v j u i f s) ∙ e)

      turn_off-HasTaken :
          (v j : String) (at : ℕ) (s : Store) → HasTaken s → HasTaken (turn_off w v j at s)
      turn_off-HasTaken v j at s k c e =
          taken_through (off w at) (same_key v j u i) (job u i s) c (off-schedule w at) k
            (sym (job-turn_off w v j u i at s) ∙ e)

      log-HasTaken : (c : Cron) (e : Fired) (s : Store) → HasTaken s → HasTaken (log w c e s)
      unfolding record_fire
      log-HasTaken c e s k = change-HasTaken c.username c.id (record_fire e) s (λ d. refl) k

      run-HasTaken : (c : Cron) (s : Store) → HasTaken s → HasTaken (logged w c (w.run c s)).0
      run-HasTaken c s k = log-HasTaken c _ (w.run c s).0 (λ d e. k d (sym (left c s) ∙ e))

      fire-HasTaken : (c : Cron) (s : Store) → HasTaken s → HasTaken (fire w c s).0
      unfolding fire
      fire-HasTaken c s k =
          elim (Bool-cases (not (w.has_credential c.username) && w.requires_credential)) [
            | inl e ↦ rw (fire, e) (log-HasTaken c _ s k)
            | inr e ↦ rw (fire, e) (run-HasTaken c s k)
          ]

      disable-HasTaken : (c : Cron) (s : Store) → HasTaken s → HasTaken (disable_if_hopeless w c s)
      unfolding disable_if_hopeless
      disable-HasTaken c s k = elim (Option-cases (job c.username c.id s)) [
        | inl e ↦ rw (disable_if_hopeless, e) k
        | inr (r, e) ↦ elim (Bool-cases (is_hopeless w r.fire_log)) [
          | inl q ↦
              rw (disable_if_hopeless, e, q)
                (log-HasTaken c _ _ (turn_off-HasTaken c.username c.id (w.clock c) s k))
          | inr q ↦ rw (disable_if_hopeless, e, q) k
        ]
      ]

      after_fire-HasTaken :
          (c : Cron) (r : Store × Bool) → HasTaken r.0 → HasTaken (after_fire w c r)
      after_fire-HasTaken c (s, true) k = k
      after_fire-HasTaken c (s, false) k = disable-HasTaken c s k

      claim_slot-schedule :
          (t at : ℕ) (c : Cron) → (claim_slot w.wall_clock t at c).0.schedule ≡ c.schedule
      unfolding claim_slot
      claim_slot-schedule t at c = elim (Bool-cases (c.archived || not c.enabled)) [
        | inl a ↦ rw (claim_slot, a) refl
        | inr a ↦ elim (Bool-cases (is_at t (slot_of w.wall_clock c))) [
          | inl b ↦ rw (claim_slot, a, b) refl
          | inr b ↦ rw (claim_slot, a, b) refl
        ]
      ]

      claimed_in-HasTaken :
          (at : ℕ) (c : Cron) (t : ℕ) (s : Store) → HasTaken s → HasTaken (claimed_in w at c t s)
      claimed_in-HasTaken at c t s k =
          change-HasTaken c.username c.id _ s (claim_slot-schedule t at) k

      visit-HasTaken :
          (at : ℕ) (c : Cron) (t : ℕ) (acc : Store × List Cron)
          → HasTaken acc.0
          → HasTaken (visit w at c t acc).0
      unfolding visit
      visit-HasTaken at c t (s, fired) k =
          let k' = claimed_in-HasTaken at c t s k in
          elim (Bool-cases (claims w at c t s)) [
            | inl e ↦ rw (visit, e) (after_fire-HasTaken c _ (fire-HasTaken c _ k'))
            | inr e ↦ rw (visit, e) k'
          ]

      -- A claim that goes through moves the job on.
      claims-IsSettled :
          (at : ℕ) (c : Cron) (t : ℕ) (s : Store)
          → HasTaken s
          → t ≤ at
          → same_key c.username c.id u i ≡ true
          → claims w at c t s ≡ true
          → IsSettled w at u i (claimed_in w at c t s)
      claims-IsSettled at c t s k l n h =
          let (a, b) = same_names c.username c.id u i n in
          elim (Option-cases (job c.username c.id s)) [
            | inl e ↦ let bad : false ≡ true = rw (claims, e) at h in absurd (cc)
            | inr (r, e) ↦
                let went : (claim_slot w.wall_clock t at r).1 ≡ true = rw (claims, e) at h in
                let e' : job u i s ≡ some r =
                  subst (λ y. job u y s ≡ some r) b (subst (λ x. job x c.id s ≡ some r) a e) in
                (
                  (claim_slot w.wall_clock t at r).0,
                  rw (job-change, n, e') refl,
                  claimed w.wall_clock w.is_zone t at r (k r e') l went,
                )
          ]

      is_fired-last :
          (cs : List Cron) (c : Cron)
          → is_fired (cs ++ c ∷ []) ≡ true
          → (is_fired cs ≡ true) ⊎ (same_key c.username c.id u i ≡ true)
      is_fired-last [] c h = inr (ground arith)
      is_fired-last (d ∷ cs) c h = elim (Bool-cases (same_key d.username d.id u i)) [
        | inl e ↦ inl (rw e refl)
        | inr e ↦ elim (is_fired-last cs c (rw e at h)) [ inl f ↦ inl (rw e f) | inr f ↦ inr f ]
      ]

      -- The job is settled once it was fired.
      abbrev Settles : ℕ → Store × List Cron → Type 0
      Settles at acc = is_fired acc.1 ≡ true → IsSettled w at u i acc.0

      visit-Settles :
          (at : ℕ) (c : Cron) (t : ℕ) (acc : Store × List Cron)
          → HasTaken acc.0
          → t ≤ at
          → Settles at acc
          → Settles at (visit w at c t acc)
      unfolding visit
      visit-Settles at c t (s, fired) k l h = elim (Bool-cases (claims w at c t s)) [
        | inr e ↦
            let keep = visit-IsSettled w at t u i c (s, fired) left l in
            rw (visit, e) (λ f. (rw (visit, e) at keep (h f)))
        | inl e ↦
            let keep = visit-IsSettled w at t u i c (s, fired) left l in
            rw (visit, e)
              (λ f. elim (is_fired-last fired c f) [
                | inl g ↦ (rw (visit, e) at keep (h g))
                | inr n ↦
                    after_fire-IsSettled w at u i c _
                      (fire-IsSettled w at u i c _ left (claims-IsSettled at c t s k l n e))
              ])
      ]

      visit_all-Settles :
          (at : ℕ) (ds : List (Cron × ℕ)) (acc : Store × List Cron)
          → HasTaken acc.0
          → All (λ d. d.1 ≤ at) ds
          → Settles at acc
          → Settles at (visit_all w at ds acc)
      unfolding visit_all
      visit_all-Settles at [] acc k l h = h
      visit_all-Settles at ((c, t) ∷ ds) acc k l h =
          visit_all-Settles at ds (visit w at c t acc) (visit-HasTaken at c t acc k) l.1
            (visit-Settles at c t acc k l.0 h)

      -- When a tick fires a job that no run changes, and whose schedule is one that `normalizeSchedule`
      -- takes, then it fires at most five jobs in all, and this job is there afterwards with no next time
      -- up to the time of the tick, so that another tick for that time does not fire it again, however
      -- its run ended and whatever the runs did to other jobs.
      pub tick-IsSettled :
          (at : ℕ) (s : Store)
          → HasTaken s
          → is_fired (tick w at s).1 ≡ true
          → (length (tick w at s).1 ≤ 5) × IsSettled w at u i (tick w at s).0
      unfolding tick due
      tick-IsSettled at s k f =
          let all = due_now w.wall_clock at (all_jobs (Dict.values s)) in
          let ds = Sort.sort (λ d. d.1) all in
          let first = take max_fires_per_tick ds in
          let le =
            All-take _ max_fires_per_tick ds
              (Sort.sort-All (λ d. d.1) _ all (due_now-le at (all_jobs (Dict.values s)))) in
          (
            omega (arith, visit_all-length at first (s, []), length-take-le max_fires_per_tick ds),
            visit_all-Settles at first (s, []) k le (λ bad. absurd (cc)) f,
          )
