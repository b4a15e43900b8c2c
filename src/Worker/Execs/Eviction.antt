-- ===== src/Worker/Execs/Eviction.antt =====
-- sandbox-worker/src/exec-jobs.js: which jobs a lease remembers.
use agent_pod.Base.{
  ℕ, ◌-◌, ◌≤◌, ◌≡◌, refl, sym, ap, ◌∙◌, String, List, [], ◌∷◌, ◌++◌, some, ◌⊎◌, Bool, true, false,
  arith, length, keep, drop, map, Bool-cases, inl, inr, All, All-keep, All-take, All-map₂, keep-All,
  keep-append, take-append-drop, length-keep-le, length-drop, str_eq, eq_iff,
}
use agent_pod.Base.Dict
use agent_pod.Base.Dict.{Dict}
use agent_pod.Base.Dict.Unique.{IsMap}
use agent_pod.Base.Dict.Keep.{get-keep, get_unique}
use agent_pod.Base.Sort
use agent_pod.Base.Spares.{spares, keep-spares_self}
use agent_pod.Worker.Execs.{Job, is_running, is_finished, evictable, evict_old}

-- Every job stands under its id.
abbrev pub IsFiled : Dict Job → Type 0
IsFiled = All (λ p. p.1.exec_id ≡ p.0)

module _ (retain_jobs : ℕ) where
  abbrev finished : Dict Job → List Job
  finished jobs = keep is_finished (Dict.values jobs)

  abbrev by_end : Dict Job → List Job
  by_end jobs = Sort.sort (λ job. job.finished_at) (finished jobs)

  abbrev excess : Dict Job → ℕ
  excess jobs = length (finished jobs) - retain_jobs

  abbrev spared : Dict Job → Job → Bool
  spared jobs job = spares (map (λ job. job.exec_id) (evictable retain_jobs jobs)) job.exec_id

  evict_old-keep :
      (jobs : Dict Job)
      → evict_old retain_jobs jobs
        ≡ keep (λ p. spares (map (λ job. job.exec_id) (evictable retain_jobs jobs)) p.0) jobs
  unfolding evict_old
  evict_old-keep jobs = Dict.delete_all-keep _ jobs

  -- On jobs filed by their id the key and the id are the same thing.
  finished-keep :
      (ids : List String) (jobs : Dict Job)
      → IsFiled jobs
      → finished (keep (λ p. spares ids p.0) jobs)
        ≡ keep (λ job. spares ids job.exec_id) (finished jobs)
  unfolding Dict.values
  finished-keep ids [] f = refl
  finished-keep ids ((id, job) ∷ jobs) f =
      let here : spares ids id ≡ spares ids job.exec_id = ap (spares ids) (sym f.0) in
      elim (Bool-cases (spares ids id)) [
        | inl e ↦
            let own : spares ids job.exec_id ≡ true = sym here ∙ e in
            elim (Bool-cases (is_finished job)) [
              | inl d ↦ rw (e, d, own) (ap (◌∷◌ job) (finished-keep ids jobs f.1))
              | inr d ↦ rw (e, d) (finished-keep ids jobs f.1)
            ]
        | inr e ↦
            let own : spares ids job.exec_id ≡ false = sym here ∙ e in
            elim (Bool-cases (is_finished job)) [
              | inl d ↦ rw (e, d, own) (finished-keep ids jobs f.1)
              | inr d ↦ rw (e, d) (finished-keep ids jobs f.1)
            ]
      ]

  spared-rest :
      (jobs : Dict Job)
      → keep (spared jobs) (by_end jobs) ≡ keep (spared jobs) (drop (excess jobs) (by_end jobs))
  unfolding evictable
  spared-rest jobs =
      ap (keep (spared jobs)) (sym (take-append-drop (excess jobs) (by_end jobs)))
      ∙ keep-append (spared jobs) (evictable retain_jobs jobs) (drop (excess jobs) (by_end jobs))
      ∙ ap (λ z. z ++ keep (spared jobs) (drop (excess jobs) (by_end jobs)))
          (keep-spares_self (λ job. job.exec_id) (evictable retain_jobs jobs))

  length-evict_old :
      (jobs : Dict Job)
      → IsFiled jobs
      → length (finished (evict_old retain_jobs jobs)) ≤ retain_jobs
  length-evict_old jobs f = omega (
    arith,
    ap (λ m. length (finished m)) (evict_old-keep jobs),
    ap length (finished-keep (map (λ job. job.exec_id) (evictable retain_jobs jobs)) jobs f),
    Sort.length-keep-sort (λ job. job.finished_at) (spared jobs) (finished jobs),
    ap length (spared-rest jobs),
    length-keep-le (spared jobs) (drop (excess jobs) (by_end jobs)),
    length-drop (excess jobs) (by_end jobs),
    Sort.length-sort (λ job. job.finished_at) (finished jobs),
  )

  module _ (id : String) (job : Job) (busy : is_running job.status ≡ true) where
    other :
        (p : String × Job)
        → (str_eq p.0 id ≡ false) ⊎ (p.1 ≡ job)
        → p.1.exec_id ≡ p.0
        → (is_finished p.1 ≡ true → str_eq id p.1.exec_id ≡ false)
    other p (inl e) f d = ground (arith, e, f, eq_iff id p.1.exec_id, eq_iff p.0 id)
    other p (inr e) f d = absurd (ground (arith, busy, d, ap is_finished e))

    values-All {ℓ} :
        (P : Job → Type ℓ) (jobs : Dict Job) → All (λ p. P p.1) jobs → All P (Dict.values jobs)
    unfolding Dict.values
    values-All P [] a = tt
    values-All P ((k, v) ∷ jobs) a = (a.0, values-All P jobs a.1)

    spares-All :
        (js : List Job)
        → All (λ j. str_eq id j.exec_id ≡ false) js
        → spares (map (λ j. j.exec_id) js) id ≡ true
    unfolding spares
    spares-All [] a = refl
    spares-All (j ∷ js) a = ground (arith, a.0, spares-All js a.1)

    evictable_others :
        (jobs : Dict Job)
        → IsMap jobs
        → IsFiled jobs
        → Dict.get id jobs ≡ some job
        → spares (map (λ j. j.exec_id) (evictable retain_jobs jobs)) id ≡ true
    unfolding evictable
    evictable_others jobs u f e = spares-All (evictable retain_jobs jobs) (
        All-take _ (excess jobs) (by_end jobs) (
          Sort.sort-All (λ j. j.finished_at) _ (finished jobs)
            (All-map₂ _ _ _ (finished jobs) (λ j k d. k d)
              (All-keep _ is_finished (Dict.values jobs)
                (values-All _ jobs (All-map₂ _ _ _ jobs other (get_unique id job jobs u e) f)))
              (keep-All is_finished (Dict.values jobs)))))

    -- Where every job stands under its own id and no id stands twice, making room keeps at most
    -- `retainJobs` jobs whose command has ended, and a job whose command still runs is found as
    -- before.
    pub get-evict_old :
        (jobs : Dict Job)
        → IsMap jobs
        → IsFiled jobs
        → Dict.get id jobs ≡ some job
        → (Dict.get id (evict_old retain_jobs jobs) ≡ some job)
          × (length (keep is_finished (Dict.values (evict_old retain_jobs jobs))) ≤ retain_jobs)
    get-evict_old jobs u f e = (
      ap (Dict.get id) (evict_old-keep jobs)
          ∙ get-keep _ id job jobs e (λ j h. ap (spares _) h ∙ evictable_others jobs u f e),
      length-evict_old jobs f,
    )
