-- ===== src/Cron/Store/Replan.antt =====
-- src/cron/store.js: the next time of a job that `update` turns on.
use agent_pod.Base.{ℕ, ◌≡◌, refl, sym, ap, ◌∙◌, String, Option, none, some, Bool, true}
use agent_pod.Base.Dict
use agent_pod.Base.Dict.{Dict}
use agent_pod.Base.Text.{Text}
use agent_pod.Cron.Schedule.{Wall}
use agent_pod.Cron.Plan.{Schedule, advance_next_fire_at}
use agent_pod.Cron.Store.{Cron}
use agent_pod.Cron.Store.Edits.{
  Patch, done, new_task, new_schedule, merge, fields_of, replanned, update, merge_at,
  stored_schedule, next_of, or_keep,
}
use agent_pod.Cron.Store.Planned.{invert}

module _ (wall_clock : String → ℕ → Wall) (is_zone : String → Bool) where
  replanned_on :
      (on : Option Bool) (stored : Schedule) (at : ℕ) (next : Option (Option ℕ))
      → on ≡ some true
      → replanned wall_clock is_zone on stored at next
        ≡ some (advance_next_fire_at wall_clock stored at)
  unfolding replanned
  replanned_on on stored at next e = rw (e, replanned) refl

  merge-replanned :
      (p : Patch) (at : ℕ) (task : Option Text) (new : Option (Schedule × ℕ)) (c : Cron)
      → p.enabled ≡ some true
      → (merge (fields_of wall_clock is_zone p c.schedule at task new) c).next_fire_at
        ≡ advance_next_fire_at wall_clock c.schedule at
  unfolding merge fields_of
  merge-replanned p at task new c on =
      ap (λ n. or_keep n c.next_fire_at) (replanned_on p.enabled c.schedule at (next_of new) on)

  merge_at-replanned :
      (id : String) (p : Patch) (at : ℕ) (task : Option Text) (new : Option (Schedule × ℕ))
      (m m' : Dict Cron) (here : Option Cron) (c c' : Cron)
      → here ≡ some c
      → p.enabled ≡ some true
      → merge_at wall_clock is_zone id m here
          (fields_of wall_clock is_zone p (stored_schedule here) at task new)
        ≡ (m', some c')
      → c'.next_fire_at ≡ advance_next_fire_at wall_clock c.schedule at
  merge_at-replanned id p at task new m m' none c c' e on h = absurd (cc)
  merge_at-replanned id p at task new m m' (some d) c c' e on h =
      let same : d ≡ c = cc in
      let is : merge (fields_of wall_clock is_zone p d.schedule at task new) d ≡ c' = cc in
      ap (λ x. x.next_fire_at) (sym is)
      ∙ merge-replanned p at task new d on
      ∙ ap (λ x. advance_next_fire_at wall_clock x.schedule at) same

  -- An `update` that turns a job on plans its next time by the schedule that the record had before,
  -- whatever schedule the same call puts in its place.
  pub update-replanned :
      (id : String) (p : Patch) (at : ℕ) (m m' : Dict Cron) (c c' : Cron)
      → Dict.get id m ≡ some c
      → p.enabled ≡ some true
      → update wall_clock is_zone id p at m ≡ done (m', some c')
      → c'.next_fire_at ≡ advance_next_fire_at wall_clock c.schedule at
  unfolding update
  update-replanned id p at m m' c c' e on h =
      let (task, t, rest) = invert (new_task p.task) _ (m', some c') h in
      let (new, n, last) =
        invert (new_schedule wall_clock is_zone p.schedule at) _ (m', some c') rest in
      merge_at-replanned id p at task new m m' (Dict.get id m) c c' e on (cc)
