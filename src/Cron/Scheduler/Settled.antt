-- ===== src/Cron/Scheduler/Settled.antt =====
-- src/cron/scheduler.js: what a tick fires is not due again at its time.
use mathlib.Core.Option
use agent_pod.Base.{
  ℕ, ◌≤◌, ◌≡◌, refl, ap, ◌∙◌, subst, String, List, Option, none, some, Bool, true, false,
  if◌then◌else◌, arith, not, ◌&&◌, Bool-cases, Option-cases, inl, inr, str_eq, eq_iff,
}
use agent_pod.Base.Dict
use agent_pod.Base.Dict.{Dict}
use agent_pod.Base.Dict.Scoped
use agent_pod.Base.Dict.Scoped.{same_key}
use agent_pod.Cron.Store.{Cron, Fired, slot_of, claim_slot, record_fire}
use agent_pod.Cron.Store.Claims.{IsPast, not_at, elsewhere}
use agent_pod.Cron.Store.Edits.{
  update, done, merge, merge_at, fields_of, replanned, stored_schedule, new_task, new_schedule,
}
use agent_pod.Cron.Scheduler.{
  Store, World, job, change, log, logged, fire, is_hopeless, turned_off, turn_off,
  disable_if_hopeless, claims, claimed_in, after_fire, kept, visit,
}

pub job-change :
    (u i v j : String) (f : Cron → Cron) (s : Store)
    → job v j (change u i f s) ≡ (if same_key u i v j then Option.map f (job v j s) else job v j s)
job-change u i v j f s = Scoped.look-change u i v j f s

module _ (w : World) where
  -- The job is there, and its next time is later.
  abbrev pub IsSettled : ℕ → String → String → Store → Type 0
  IsSettled at u i s =
      (c : Cron) × (job u i s ≡ some c) × IsPast w.wall_clock w.is_zone at (slot_of w.wall_clock c)

  -- A change that leaves later times later.
  change-IsSettled :
      (at : ℕ) (u i v j : String) (f : Cron → Cron) (s : Store)
      → ((c : Cron)
          → IsPast w.wall_clock w.is_zone at (slot_of w.wall_clock c)
          → IsPast w.wall_clock w.is_zone at (slot_of w.wall_clock (f c)))
      → IsSettled at v j s
      → IsSettled at v j (change u i f s)
  change-IsSettled at u i v j f s h (c, e, p) = elim (Bool-cases (same_key u i v j)) [
    | inl q ↦ (f c, rw (job-change, q, e) refl, h c p)
    | inr q ↦ (c, rw (job-change, q) e, p)
  ]

  record_fire-slot :
      (e : Fired) (c : Cron) → slot_of w.wall_clock (record_fire e c) ≡ slot_of w.wall_clock c
  unfolding record_fire
  record_fire-slot e c = refl

  claim-later :
      (at t : ℕ) (c : Cron)
      → t ≤ at
      → IsPast w.wall_clock w.is_zone at (slot_of w.wall_clock c)
      → IsPast w.wall_clock w.is_zone at (slot_of w.wall_clock (claim_slot w.wall_clock t at c).0)
  claim-later at t c l p =
      rw
        (elsewhere w.wall_clock w.is_zone t at c
          (not_at w.wall_clock w.is_zone t at (slot_of w.wall_clock c) l p))
        p

  log-IsSettled :
      (at : ℕ) (u i : String) (c : Cron) (e : Fired) (s : Store)
      → IsSettled at u i s
      → IsSettled at u i (log w c e s)
  log-IsSettled at u i c e s v =
      change-IsSettled at c.username c.id u i (record_fire e) s (λ d p. rw (record_fire-slot e d) p)
        v

  -- No run changes the job.
  abbrev pub IsLeft : String → String → Type 0
  IsLeft u i = (c : Cron) (s : Store) → job u i (w.run c s).0 ≡ job u i s

  run-IsSettled :
      (at : ℕ) (u i : String) (c : Cron) (s : Store)
      → IsLeft u i
      → IsSettled at u i s
      → IsSettled at u i (logged w c (w.run c s)).0
  run-IsSettled at u i c s k (d, e, p) = log-IsSettled at u i c _ (w.run c s).0 (d, k c s ∙ e, p)

  pub fire-IsSettled :
      (at : ℕ) (u i : String) (c : Cron) (s : Store)
      → IsLeft u i
      → IsSettled at u i s
      → IsSettled at u i (fire w c s).0
  unfolding fire
  fire-IsSettled at u i c s k v =
      elim (Bool-cases (not (w.has_credential c.username) && w.requires_credential)) [
        | inl e ↦ rw (fire, e) (log-IsSettled at u i c _ s v)
        | inr e ↦ rw (fire, e) (run-IsSettled at u i c s k v)
      ]

  -- What turning a job off does to it.
  abbrev pub off : ℕ → Cron → Cron
  off at c = merge (fields_of w.wall_clock w.is_zone (turned_off w) c.schedule at none none) c

  off-slot : (at : ℕ) (c : Cron) → slot_of w.wall_clock (off at c) ≡ slot_of w.wall_clock c
  unfolding merge fields_of replanned
  off-slot at c = refl

  pub off-schedule : (at : ℕ) (c : Cron) → (off at c).schedule ≡ c.schedule
  unfolding merge fields_of
  off-schedule at c = refl

  update-off :
      (i : String) (at : ℕ) (m : Dict Cron)
      → update w.wall_clock w.is_zone i (turned_off w) at m
        ≡ done (
            merge_at w.wall_clock w.is_zone i m (Dict.get i m) (
              fields_of w.wall_clock w.is_zone
                (turned_off w)
                (stored_schedule (Dict.get i m))
                at
                none
                none))
  unfolding update new_task new_schedule
  update-off i at m = refl

  turn_off-some :
      (u i : String) (at : ℕ) (s : Store) (m : Dict Cron)
      → Dict.get u s ≡ some m
      → turn_off w u i at s
        ≡ Dict.set u
            (merge_at w.wall_clock w.is_zone i m (Dict.get i m) (
              fields_of w.wall_clock w.is_zone
                (turned_off w)
                (stored_schedule (Dict.get i m))
                at
                none
                none)).0
            s
  unfolding turn_off
  turn_off-some u i at s m e = rw (turn_off, e) (ap (kept u s) (update-off i at m))

  -- The user's jobs after it.
  get-off :
      (i j : String) (at : ℕ) (m : Dict Cron) (found : Option Cron)
      → Dict.get i m ≡ found
      → Dict.get j
          (merge_at w.wall_clock w.is_zone i m found (
            fields_of w.wall_clock w.is_zone (turned_off w) (stored_schedule found) at none none)).0
        ≡ (if str_eq i j then Option.map (off at) (Dict.get j m) else Dict.get j m)
  get-off i j at m none e = ground (arith, e, eq_iff i j)
  get-off i j at m (some c) e = rw (Dict.get-set) (ground (arith, e, eq_iff i j))

  -- Turning off by the key is a change of the job under it.
  pub job-turn_off :
      (u i v j : String) (at : ℕ) (s : Store)
      → job v j (turn_off w u i at s)
        ≡ (if same_key u i v j then Option.map (off at) (job v j s) else job v j s)
  unfolding turn_off
  job-turn_off u i v j at s = elim (Option-cases (Dict.get u s)) [
    | inl e ↦ elim (Bool-cases (str_eq u v)) [
      | inl q ↦
          let gone : Dict.get v s ≡ none = subst (λ x. Dict.get x s ≡ none) ((eq_iff u v).0 q) e in
          rw (turn_off, e, gone, q) (ground arith)
      | inr q ↦ rw (turn_off, e, q) refl
    ]
    | inr (m, e) ↦ elim (Bool-cases (str_eq u v)) [
      | inl q ↦
          let here : Dict.get v s ≡ some m =
            subst (λ x. Dict.get x s ≡ some m) ((eq_iff u v).0 q) e in
          rw (turn_off-some u i at s m e, Dict.get-set, q, here)
            (get-off i j at m (Dict.get i m) refl)
      | inr q ↦ rw (turn_off-some u i at s m e, Dict.get-set, q) refl
    ]
  ]

  turn_off-IsSettled :
      (at : ℕ) (u i v j : String) (t : ℕ) (s : Store)
      → IsSettled at v j s
      → IsSettled at v j (turn_off w u i t s)
  turn_off-IsSettled at u i v j t s (c, e, p) = elim (Bool-cases (same_key u i v j)) [
    | inl q ↦ (off t c, rw (job-turn_off, q, e) refl, rw (off-slot t c) p)
    | inr q ↦ (c, rw (job-turn_off, q) e, p)
  ]

  disable-IsSettled :
      (at : ℕ) (v j : String) (c : Cron) (s : Store)
      → IsSettled at v j s
      → IsSettled at v j (disable_if_hopeless w c s)
  unfolding disable_if_hopeless
  disable-IsSettled at v j c s h = elim (Option-cases (job c.username c.id s)) [
    | inl e ↦ rw (disable_if_hopeless, e) h
    | inr (r, e) ↦ elim (Bool-cases (is_hopeless w r.fire_log)) [
      | inl q ↦
          rw (disable_if_hopeless, e, q)
            (log-IsSettled at v j c _ _ (turn_off-IsSettled at c.username c.id v j (w.clock c) s h))
      | inr q ↦ rw (disable_if_hopeless, e, q) h
    ]
  ]

  pub after_fire-IsSettled :
      (at : ℕ) (v j : String) (c : Cron) (r : Store × Bool)
      → IsSettled at v j r.0
      → IsSettled at v j (after_fire w c r)
  after_fire-IsSettled at v j c (s, true) h = h
  after_fire-IsSettled at v j c (s, false) h = disable-IsSettled at v j c s h

  claim-IsSettled :
      (at t : ℕ) (v j : String) (c : Cron) (s : Store)
      → t ≤ at
      → IsSettled at v j s
      → IsSettled at v j (claimed_in w at c t s)
  claim-IsSettled at t v j c s l h =
      change-IsSettled at c.username c.id v j _ s (λ d p. claim-later at t d l p) h

  -- A job that is settled stays so, whatever job is visited.
  pub visit-IsSettled :
      (at t : ℕ) (v j : String) (c : Cron) (acc : Store × List Cron)
      → IsLeft v j
      → t ≤ at
      → IsSettled at v j acc.0
      → IsSettled at v j (visit w at c t acc).0
  unfolding visit
  visit-IsSettled at t v j c (s, fired) left l h =
      let k = claim-IsSettled at t v j c s l h in
      elim (Bool-cases (claims w at c t s)) [
        | inl e ↦ rw (visit, e) (after_fire-IsSettled at v j c _ (fire-IsSettled at v j c _ left k))
        | inr e ↦ rw (visit, e) k
      ]
