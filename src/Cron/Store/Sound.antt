-- ===== src/Cron/Store/Sound.antt =====
-- src/cron/store.js: what every operation on the record of a job keeps.
use mathlib.Core.Option
use agent_pod.Base.{
  ℕ, ◌-◌, ◌≤◌, ◌≡◌, refl, subst, String, [], ◌∷◌, ◌++◌, Option, none, some, Bool, arith, not, ◌||◌,
  Bool-cases, inl, inr, length, length-take-le, length-drop,
}
use agent_pod.Base.Text
use agent_pod.Base.Text.{Text}
use agent_pod.Cron.Schedule.{Wall}
use agent_pod.Cron.Plan.{Schedule, Input, Normalized, planned, rejected, normalize_schedule}
use agent_pod.Cron.Plan.Progress.{IsTaken, normalized-IsTaken}
use agent_pod.Cron.Store.{
  Cron, Fired, task_max, title_max, fire_log_max, claim_slot, unclaim_slot, record_fire, is_at,
  slot_of, cut,
}
use agent_pod.Cron.Store.Edits.{
  Draft, Patch, done, clean_title, clean_task, title_or, new_task, new_schedule, merge, fields_of,
  drafted, or_keep, schedule_of, accepted, not_empty, create_task, create_planned, first_line,
}

module _ (wall_clock : String → ℕ → Wall) (is_zone : String → Bool) where
  pub record IsSound (c : Cron) : Type 0 where
    pub title_fits : length c.title ≤ title_max
    pub has_task : 1 ≤ length c.task
    pub task_fits : length c.task ≤ task_max
    pub taken : IsTaken wall_clock is_zone c.schedule
    pub short_log : length c.fire_log ≤ fire_log_max

  clean_title-le : (t : Text) → length (clean_title t) ≤ title_max
  clean_title-le t = length-take-le title_max (Text.trim (Text.squeeze t))

  pub clean_task-le : (t : Text) → length (clean_task t) ≤ task_max
  clean_task-le t = length-take-le task_max (Text.trim t)

  title_or-le :
      (t other : Text)
      → length t ≤ title_max
      → length other ≤ title_max
      → length (title_or t other) ≤ title_max
  title_or-le [] other h k = k
  title_or-le (c ∷ s) other h k = h

  pub record_fire-IsSound : (e : Fired) (c : Cron) → IsSound c → IsSound (record_fire e c)
  unfolding record_fire
  record_fire-IsSound e c v =
      let kept : Fired = record e { reply = cut e.reply; note = cut e.note } in
      let log = c.fire_log ++ kept ∷ [] in
      record {
        title_fits = v.title_fits;
        has_task = v.has_task;
        task_fits = v.task_fits;
        taken = v.taken;
        short_log = omega (arith, length-drop (length log - fire_log_max) log);
      }

  -- The times of a job may change.
  moved :
      (c : Cron) (last next : Option ℕ)
      → IsSound c
      → IsSound (record c { last_fired_at = last; next_fire_at = next })
  moved c last next v = record {
    title_fits = v.title_fits;
    has_task = v.has_task;
    task_fits = v.task_fits;
    taken = v.taken;
    short_log = v.short_log;
  }

  pub claim_slot-IsSound :
      (scheduled at : ℕ) (c : Cron) → IsSound c → IsSound (claim_slot wall_clock scheduled at c).0
  unfolding claim_slot
  claim_slot-IsSound scheduled at c v = elim (Bool-cases (c.archived || not c.enabled)) [
    | inl a ↦ rw (claim_slot, a) v
    | inr a ↦ elim (Bool-cases (is_at scheduled (slot_of wall_clock c))) [
      | inr b ↦ rw (claim_slot, a, b) v
      | inl b ↦ rw (claim_slot, a, b) (moved c _ _ v)
    ]
  ]

  pub unclaim_slot-IsSound :
      (scheduled at : ℕ) (prior : Option ℕ) (c : Cron)
      → IsSound c
      → IsSound (unclaim_slot scheduled at prior c)
  unfolding unclaim_slot
  unclaim_slot-IsSound scheduled at prior c v = elim (Bool-cases (is_at at c.last_fired_at)) [
    | inl e ↦ rw (unclaim_slot, e) (moved c _ _ v)
    | inr e ↦ rw (unclaim_slot, e) v
  ]

  not_empty-fits :
      (t : Text) (task : Option Text) (old : Text)
      → length t ≤ task_max
      → (1 ≤ length old) × (length old ≤ task_max)
      → not_empty t ≡ done task
      → (1 ≤ length (or_keep task old)) × (length (or_keep task old) ≤ task_max)
  not_empty-fits [] task old h k e = absurd (cc)
  not_empty-fits (x ∷ xs) task old h k e =
      let same : some (x ∷ xs) ≡ task = cc in
      subst (λ o. (1 ≤ length (or_keep o old)) × (length (or_keep o old) ≤ task_max)) same
        (omega arith, h)

  new_task-fits :
      (asked task : Option Text) (old : Text)
      → (1 ≤ length old) × (length old ≤ task_max)
      → new_task asked ≡ done task
      → (1 ≤ length (or_keep task old)) × (length (or_keep task old) ≤ task_max)
  unfolding new_task
  new_task-fits none task old k e =
      let same : none ≡ task = cc in
      subst (λ o. (1 ≤ length (or_keep o old)) × (length (or_keep o old) ≤ task_max)) same k
  new_task-fits (some t) task old k e = not_empty-fits (clean_task t) task old (clean_task-le t) k e

  accepted-IsTaken :
      (i : Input) (at : ℕ) (n : Normalized) (new : Option (Schedule × ℕ)) (old : Schedule)
      → normalize_schedule wall_clock is_zone i at ≡ n
      → accepted n ≡ done new
      → IsTaken wall_clock is_zone (or_keep (schedule_of new) old)
  accepted-IsTaken i at (rejected f) new old h e = absurd (cc)
  accepted-IsTaken i at (planned s t) new old h e =
      let same : some (s, t) ≡ new = cc in
      subst (λ o. IsTaken wall_clock is_zone (or_keep (schedule_of o) old)) same
        (normalized-IsTaken wall_clock is_zone at s t i h)

  new_schedule-IsTaken :
      (asked : Option Input) (at : ℕ) (new : Option (Schedule × ℕ)) (old : Schedule)
      → IsTaken wall_clock is_zone old
      → new_schedule wall_clock is_zone asked at ≡ done new
      → IsTaken wall_clock is_zone (or_keep (schedule_of new) old)
  unfolding new_schedule
  new_schedule-IsTaken none at new old k e =
      let same : none ≡ new = cc in
      subst (λ o. IsTaken wall_clock is_zone (or_keep (schedule_of o) old)) same k
  new_schedule-IsTaken (some i) at new old k e = accepted-IsTaken i at _ new old refl e

  or_keep-title-le :
      (asked : Option Text) (old : Text)
      → length old ≤ title_max
      → length (or_keep (Option.map clean_title asked) old) ≤ title_max
  or_keep-title-le none old h = h
  or_keep-title-le (some t) old h = clean_title-le t

  pub merge-IsSound :
      (p : Patch) (at : ℕ) (task : Option Text) (new : Option (Schedule × ℕ)) (c : Cron)
      → new_task p.task ≡ done task
      → new_schedule wall_clock is_zone p.schedule at ≡ done new
      → IsSound c
      → IsSound (merge (fields_of wall_clock is_zone p c.schedule at task new) c)
  unfolding merge fields_of
  merge-IsSound p at task new c t n v =
      let fits = new_task-fits p.task task c.task (v.has_task, v.task_fits) t in
      record {
        title_fits = or_keep-title-le p.title c.title v.title_fits;
        has_task = fits.0;
        task_fits = fits.1;
        taken = new_schedule-IsTaken p.schedule at new c.schedule v.taken n;
        short_log = v.short_log;
      }

  drafted-IsSound :
      (id username : String) (d : Draft) (at : ℕ) (task : Text) (s : Schedule) (t : ℕ)
      → 1 ≤ length task
      → length task ≤ task_max
      → IsTaken wall_clock is_zone s
      → IsSound (drafted wall_clock is_zone id username d at task s t)
  unfolding drafted
  drafted-IsSound id username d at task s t h k v = record {
    title_fits =
        title_or-le (clean_title d.title) _ (clean_title-le d.title)
          (Text.truncate-le (first_line (Text.split 10 task)) title_max (omega arith));
    has_task = h;
    task_fits = k;
    taken = v;
    short_log = omega arith;
  }

  pub create_task-IsSound :
      (id username : String) (d : Draft) (at : ℕ) (task : Text) (c : Cron)
      → length task ≤ task_max
      → create_task wall_clock is_zone id username d at task ≡ done c
      → IsSound c
  create_task-IsSound id username d at [] c k h = absurd (cc)
  create_task-IsSound id username d at (x ∷ xs) c k h = planned_in _ refl h
    where
      planned_in :
          (n : Normalized)
          → normalize_schedule wall_clock is_zone d.schedule at ≡ n
          → create_planned wall_clock is_zone id username d at (x ∷ xs) n ≡ done c
          → IsSound c
      planned_in (rejected f) e q = absurd (cc)
      planned_in (planned s t) e q =
          let same : drafted wall_clock is_zone id username d at (x ∷ xs) s t ≡ c = cc in
          subst IsSound same (
            drafted-IsSound id username d at (x ∷ xs) s t (omega arith) k
              (normalized-IsTaken wall_clock is_zone at s t d.schedule e))
