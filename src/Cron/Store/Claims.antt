-- ===== src/Cron/Store/Claims.antt =====
-- src/cron/store.js: a time is claimed once, by whichever replica comes first.
use agent_pod.Base.{
  ℕ, suc, ◌≤◌, ◌<◌, ◌≡◌, refl, sym, subst, max, String, List, [], ◌∷◌, Option, none, some, Bool,
  true, false, if◌then◌else◌, arith, leb, not, ◌||◌, All, Bool-cases, inl, inr,
}
use agent_pod.Cron.Fields.{Piece}
use agent_pod.Cron.Schedule.{Wall}
use agent_pod.Cron.Plan.{
  Schedule, calendar, interval, unset, next_fire, advance_next_fire_at, recover_next_fire_at,
}
use agent_pod.Cron.Plan.Progress.{IsTaken, next_fire-later}
use agent_pod.Cron.Store.{Cron, is_at, advance_from, slot_of, claim_slot}

module _ (wall_clock : String → ℕ → Wall) (is_zone : String → Bool) where
  -- No time, or a later one.
  abbrev pub IsPast : ℕ → Option ℕ → Type 0
  IsPast at none = Unit {0}
  IsPast at (some next) = at < next

  calendar-IsPast :
      (cron : List (List Piece)) (zone : String) (created at : ℕ) (o : Option ℕ)
      → next_fire wall_clock cron zone at ≡ o
      → IsPast at (recover_next_fire_at wall_clock (calendar cron zone) created (some at) o)
  unfolding recover_next_fire_at
  calendar-IsPast cron zone created at none e = subst (IsPast at) (sym e) tt
  calendar-IsPast cron zone created at (some t) e = next_fire-later wall_clock cron zone at t e

  -- Where the record says that a job comes next, once it fired.
  after_fire :
      (s : Schedule) (created scheduled at : ℕ)
      → IsTaken wall_clock is_zone s
      → scheduled ≤ at
      → IsPast at (
          recover_next_fire_at wall_clock s created
            (some at)
            (advance_next_fire_at wall_clock s (advance_from s scheduled at)))
  unfolding advance_next_fire_at recover_next_fire_at
  after_fire (calendar cron zone) created scheduled at v l =
      let same : max scheduled at ≡ at = omega arith in
      rw same (calendar-IsPast cron zone created at (next_fire wall_clock cron zone at) refl)
  after_fire (interval every first) created scheduled at v l =
      let some_steps : leb every 0 ≡ false = ground (arith, v) in rw some_steps (ground (arith, v))
  after_fire unset created scheduled at v l = absurd v

  pub not_at :
      (scheduled at : ℕ) (o : Option ℕ) → scheduled ≤ at → IsPast at o → is_at scheduled o ≡ false
  not_at scheduled at none l p = refl
  not_at scheduled at (some next) l p = ground (arith, p, l)

  -- What a claim that goes through leaves, and what one that does not.
  pub claimed :
      (scheduled at : ℕ) (c : Cron)
      → IsTaken wall_clock is_zone c.schedule
      → scheduled ≤ at
      → (claim_slot wall_clock scheduled at c).1 ≡ true
      → IsPast at (slot_of wall_clock (claim_slot wall_clock scheduled at c).0)
  unfolding claim_slot
  claimed scheduled at c v l h = elim (Bool-cases (c.archived || not c.enabled)) [
    | inl a ↦ let bad : false ≡ true = rw (claim_slot, a) at h in absurd (cc)
    | inr a ↦ elim (Bool-cases (is_at scheduled (slot_of wall_clock c))) [
      | inr b ↦ let bad : false ≡ true = rw (claim_slot, a, b) at h in absurd (cc)
      | inl b ↦ rw (claim_slot, a, b) (after_fire c.schedule c.created_at scheduled at v l)
    ]
  ]

  pub refused :
      (scheduled at : ℕ) (c : Cron)
      → (claim_slot wall_clock scheduled at c).1 ≡ false
      → (claim_slot wall_clock scheduled at c).0 ≡ c
  unfolding claim_slot
  refused scheduled at c h = elim (Bool-cases (c.archived || not c.enabled)) [
    | inl a ↦ rw (claim_slot, a) refl
    | inr a ↦ elim (Bool-cases (is_at scheduled (slot_of wall_clock c))) [
      | inr b ↦ rw (claim_slot, a, b) refl
      | inl b ↦ let bad : true ≡ false = rw (claim_slot, a, b) at h in absurd (cc)
    ]
  ]

  pub elsewhere :
      (scheduled at : ℕ) (c : Cron)
      → is_at scheduled (slot_of wall_clock c) ≡ false
      → claim_slot wall_clock scheduled at c ≡ (c, false)
  unfolding claim_slot
  elsewhere scheduled at c b = elim (Bool-cases (c.archived || not c.enabled)) [
    | inl a ↦ rw (claim_slot, a) refl
    | inr a ↦ rw (claim_slot, a, b) refl
  ]

  -- How many of the claims of one time go through, one after the other.
  pub wins : ℕ → List ℕ → Cron → ℕ
  wins scheduled [] c = 0
  wins scheduled (at ∷ ats) c =
      let r = claim_slot wall_clock scheduled at c in
      let rest = wins scheduled ats r.0 in if r.1 then suc rest else rest

  none_wins :
      (scheduled : ℕ) (ats : List ℕ) (c : Cron)
      → is_at scheduled (slot_of wall_clock c) ≡ false
      → wins scheduled ats c ≡ 0
  unfolding wins
  none_wins scheduled [] c b = refl
  none_wins scheduled (at ∷ ats) c b = rw (elsewhere scheduled at c b) (none_wins scheduled ats c b)

  -- However many replicas claim the same time of a job, each when it is due, at most one goes
  -- through, where the schedule is one that `normalizeSchedule` takes.
  pub claim_slot-once :
      (scheduled : ℕ) (ats : List ℕ) (c : Cron)
      → IsTaken wall_clock is_zone c.schedule
      → All (λ at. scheduled ≤ at) ats
      → wins scheduled ats c ≤ 1
  unfolding wins
  claim_slot-once scheduled [] c v l = omega arith
  claim_slot-once scheduled (at ∷ ats) c v l =
      let r = claim_slot wall_clock scheduled at c in
      elim (Bool-cases r.1) [
        | inr e ↦
            let same = refused scheduled at c e in
            rw (e, same) (claim_slot-once scheduled ats c v l.1)
        | inl e ↦
            let past = claimed scheduled at c v l.0 e in
            let over =
              none_wins scheduled ats r.0 (not_at scheduled at (slot_of wall_clock r.0) l.0 past) in
            rw (e, over) (omega arith)
      ]
