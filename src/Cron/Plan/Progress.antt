-- ===== src/Cron/Plan/Progress.antt =====
-- src/cron/schedule.js: a schedule that was taken goes on.
use agent_pod.Base.{
  ℕ, ◌+◌, ◌≤◌, ◌<◌, ◌≡◌, refl, subst, ◌∙◌, String, List, Option, none, some, Bool, true, arith, ltb,
  leb, Bool-cases, Option-cases, inl, inr,
}
use agent_pod.Cron.Fields.{Piece, Fields, parse_cron}
use agent_pod.Cron.Schedule.{Wall, day_ms, min_every_ms}
use agent_pod.Cron.Schedule.Search.{next_fire_after-IsNext}
use agent_pod.Cron.Plan.{
  Schedule, calendar, interval, unset, Input, planned, rejected, zone_of, or_else, next_fire,
  normalize_cron, normalize_every, normalize_schedule, advance_next_fire_at, recover_next_fire_at,
}

module _ (wall_clock : String → ℕ → Wall) where
  pub next_fire-later :
      (cron : List (List Piece)) (zone : String) (after next : ℕ)
      → next_fire wall_clock cron zone after ≡ some next
      → after < next
  next_fire-later cron zone after next h = elim (Option-cases (parse_cron cron)) [
    | inl e ↦ let bad : none ≡ some next = rw e at h in absurd (cc)
    | inr (f, e) ↦ (next_fire_after-IsNext (wall_clock zone) f after next (rw e at h)).later
  ]

  -- What a schedule that was taken looks like; an expression has a time after the moment at which it
  -- was taken.
  abbrev pub IsTaken : (String → Bool) → Schedule → Type 0
  IsTaken is_zone (calendar cron zone) =
      (is_zone zone ≡ true)
      × (f : Fields) × (parse_cron cron ≡ some f)
      × (at : ℕ) × (next : ℕ) × (next_fire wall_clock cron zone at ≡ some next)
  IsTaken is_zone (interval every first) =
      (min_every_ms ≤ every) × (every < day_ms) × (moment : ℕ) × (first ≡ some moment)
  IsTaken is_zone unset = ⊥

  module _ (is_zone : String → Bool) (at : ℕ) (s : Schedule) (next : ℕ) where
    normalize_cron-IsTaken :
        (cron : List (List Piece)) (timezone : Option String)
        → normalize_cron wall_clock is_zone cron timezone at ≡ planned s next
        → IsTaken is_zone s × (at < next)
    unfolding normalize_cron
    normalize_cron-IsTaken cron timezone h = elim (Bool-cases (is_zone (zone_of timezone))) [
      | inr z ↦ let bad : rejected _ ≡ planned s next = rw (normalize_cron, z) at h in absurd (cc)
      | inl z ↦ elim (Option-cases (parse_cron cron)) [
        | inl e ↦
            let bad : rejected _ ≡ planned s next = rw (normalize_cron, z, e) at h in absurd (cc)
        | inr (f, e) ↦ elim (Option-cases (next_fire wall_clock cron (zone_of timezone) at)) [
          | inl g ↦
              let bad : rejected _ ≡ planned s next = rw (normalize_cron, z, e, g) at h in
              absurd (cc)
          | inr (t, g) ↦
              let same : planned (calendar cron (zone_of timezone)) t ≡ planned s next =
                rw (normalize_cron, z, e, g) at h in
              let is : calendar cron (zone_of timezone) ≡ s = cc in
              let when : t ≡ next = cc in
              (
                subst (IsTaken is_zone) is (z, f, e, at, t, g),
                subst (λ n. at < n) when (next_fire-later cron (zone_of timezone) at t g),
              )
        ]
      ]
    ]

    normalize_every-IsTaken :
        (every first : Option ℕ)
        → normalize_every wall_clock every first at ≡ planned s next
        → IsTaken is_zone s
    unfolding normalize_every
    normalize_every-IsTaken none first h = absurd (cc)
    normalize_every-IsTaken (some every) first h = elim (Bool-cases (leb every 0)) [
      | inl a ↦ let bad : rejected _ ≡ planned s next = rw (normalize_every, a) at h in absurd (cc)
      | inr a ↦ elim (Bool-cases (ltb every min_every_ms)) [
        | inl b ↦
            let bad : rejected _ ≡ planned s next = rw (normalize_every, a, b) at h in absurd (cc)
        | inr b ↦ elim (Bool-cases (leb day_ms every)) [
          | inl c ↦
              let bad : rejected _ ≡ planned s next = rw (normalize_every, a, b, c) at h in
              absurd (cc)
          | inr c ↦
              let moment = or_else first (at + every) in
              let same : planned (interval every (some moment)) moment ≡ planned s next =
                rw (normalize_every, a, b, c) at h in
              let is : interval every (some moment) ≡ s = cc in
              subst (IsTaken is_zone) is (ground (arith, b), ground (arith, c), moment, refl)
        ]
      ]
    ]

    pub normalized-IsTaken :
        (input : Input)
        → normalize_schedule wall_clock is_zone input at ≡ planned s next
        → IsTaken is_zone s
    unfolding normalize_schedule
    normalized-IsTaken input h = elim (Option-cases input.cron) [
      | inr (cron, c) ↦ elim (Option-cases input.every_ms) [
        | inr (every, e) ↦
            let bad : rejected _ ≡ planned s next = rw (normalize_schedule, c, e) at h in
            absurd (cc)
        | inl e ↦
            (normalize_cron-IsTaken cron input.timezone (rw (normalize_schedule, c, e) at h)).0
      ]
      | inl c ↦ elim (Option-cases input.every_ms) [
        | inl e ↦
            let bad : rejected _ ≡ planned s next = rw (normalize_schedule, c, e) at h in
            absurd (cc)
        | inr (every, e) ↦ elim (Option-cases input.timezone) [
          | inr (zone, z) ↦
              let bad : rejected _ ≡ planned s next = rw (normalize_schedule, c, e, z) at h in
              absurd (cc)
          | inl z ↦
              normalize_every-IsTaken every input.first_fire_at
                (rw (normalize_schedule, c, e, z) at h)
        ]
      ]
    ]

  pub advance-later :
      (is_zone : String → Bool) (s : Schedule) (fired_at later : ℕ)
      → IsTaken is_zone s
      → advance_next_fire_at wall_clock s fired_at ≡ some later
      → fired_at < later
  unfolding advance_next_fire_at
  advance-later is_zone (calendar cron zone) fired_at later v h =
      next_fire-later cron zone fired_at later h
  advance-later is_zone (interval every first) fired_at later (l, u, m, e) h = ground (arith, l, h)
  advance-later is_zone unset fired_at later v h = absurd v

  recover-advance :
      (s : Schedule) (fired_at created_at : ℕ)
      → recover_next_fire_at wall_clock s created_at (some fired_at) none
        ≡ advance_next_fire_at wall_clock s fired_at
  unfolding advance_next_fire_at recover_next_fire_at
  recover-advance (calendar cron zone) fired_at created_at = refl
  recover-advance (interval every first) fired_at created_at = refl
  recover-advance unset fired_at created_at = refl

  -- A time that a schedule gives after a firing is later than that firing, for a schedule that
  -- `normalizeSchedule` takes, and where the record has lost that time, `recoverNextFireAt` finds the
  -- same one from the last firing. An expression may give no time: the search ends after 366 days.
  pub normalize-advance :
      (is_zone : String → Bool) (input : Input) (at next fired_at later created_at : ℕ)
      (s : Schedule)
      → normalize_schedule wall_clock is_zone input at ≡ planned s next
      → advance_next_fire_at wall_clock s fired_at ≡ some later
      → (fired_at < later)
        × (recover_next_fire_at wall_clock s created_at (some fired_at) none ≡ some later)
  normalize-advance is_zone input at next fired_at later created_at s n h = (
    advance-later is_zone s fired_at later (normalized-IsTaken is_zone at s next input n) h,
    recover-advance s fired_at created_at ∙ h,
  )
