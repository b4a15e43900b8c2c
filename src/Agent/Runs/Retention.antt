-- ===== src/Agent/Runs/Retention.antt =====
-- src/agent/run-registry.js: which runs the sweep keeps.
use agent_pod.Base.{
  ℕ, ◌+◌, ◌-◌, ◌≤◌, ◌≡◌, refl, sym, ap, ◌∙◌, String, [], ◌∷◌, ◌++◌, some, ◌⊎◌, max, Bool, true,
  false, not, if◌then◌else◌, arith, leb, length, keep, drop, Bool-cases, inl, inr, All-keep,
  All-take, keep-All, keep-append, keep-keep, All-map₂, take-append-drop, length-keep-le,
  length-drop, str_eq, eq_iff,
}
use agent_pod.Base.Dict
use agent_pod.Base.Dict.{Dict}
use agent_pod.Base.Dict.Unique.{IsMap}
use agent_pod.Base.Dict.Keep.{get-keep, keep-IsMap, get_unique, spares_of_All}
use agent_pod.Base.Sort
use agent_pod.Base.Spares.{spares, keep-spares_self}
use agent_pod.Agent.Runs.{Limits, Run, Runs, is_stale, drop_stale, evictable, sweep}

-- How many runs of the table have not ended.
abbrev pub running : Runs → ℕ
running m = length (keep (λ p. not p.1.done) m)

module _ (o : Limits) where
  abbrev finished : Runs → Runs
  finished m = keep (λ p. p.1.done) m

  abbrev by_end : Runs → Runs
  by_end m = Sort.sort (λ p. p.1.ended_at) (finished m)

  abbrev excess : Runs → ℕ
  excess m = length m - o.max_retained_runs

  abbrev spared : Runs → String × Run → Bool
  spared m p = spares (Dict.keys (evictable o m)) p.0

  sweep-spared :
      (at : ℕ) (m : Runs)
      → sweep o at m ≡ (
          if leb (length (drop_stale o at m)) o.max_retained_runs
          then drop_stale o at m
          else keep (spared (drop_stale o at m)) (drop_stale o at m))
  unfolding sweep
  sweep-spared at m = ground (
    arith,
    Dict.delete_all-keep (Dict.keys (evictable o (drop_stale o at m))) (drop_stale o at m),
  )

  -- The sweep is a filter.
  pub sweep-keep : (at : ℕ) (m : Runs) → (q : String × Run → Bool) × (sweep o at m ≡ keep q m)
  unfolding drop_stale
  sweep-keep at m =
      let live = drop_stale o at m in
      elim (Bool-cases (leb (length live) o.max_retained_runs)) [
        | inl e ↦ ((λ p. not (is_stale o at p.1)), rw (sweep-spared at m, e) refl)
        | inr e ↦ (
          (λ p. if not (is_stale o at p.1) then spared live p else false),
          rw (sweep-spared at m, e) (keep-keep (λ p. not (is_stale o at p.1)) (spared live) m),
        )
      ]

  split_done : (m : Runs) → length m ≡ running m + length (finished m)
  split_done [] = refl
  split_done (p ∷ m) = ground (arith, split_done m)

  running-keep : (q : String × Run → Bool) (m : Runs) → running (keep q m) ≤ running m
  running-keep q [] = omega arith
  running-keep q (p ∷ m) = ground (arith, running-keep q m)

  finished-keep : (q : String × Run → Bool) (m : Runs) → finished (keep q m) ≡ keep q (finished m)
  finished-keep q [] = refl
  finished-keep q (p ∷ m) = ground (arith, finished-keep q m)

  spared-rest :
      (m : Runs) → keep (spared m) (by_end m) ≡ keep (spared m) (drop (excess m) (by_end m))
  unfolding evictable
  spared-rest m =
      ap (keep (spared m)) (sym (take-append-drop (excess m) (by_end m)))
      ∙ keep-append (spared m) (evictable o m) (drop (excess m) (by_end m))
      ∙ ap (λ z. z ++ keep (spared m) (drop (excess m) (by_end m)))
          (keep-spares_self (λ p. p.0) (evictable o m))

  length-spared :
      (m : Runs) → length (keep (spared m) m) ≤ running m + (length (finished m) - excess m)
  length-spared m = omega (
    arith,
    split_done (keep (spared m) m),
    running-keep (spared m) m,
    ap length (finished-keep (spared m) m),
    Sort.length-keep-sort (λ p. p.1.ended_at) (spared m) (finished m),
    ap length (spared-rest m),
    length-keep-le (spared m) (drop (excess m) (by_end m)),
    length-drop (excess m) (by_end m),
    Sort.length-sort (λ p. p.1.ended_at) (finished m),
  )

  running-drop_stale : (at : ℕ) (m : Runs) → running (drop_stale o at m) ≤ running m
  unfolding drop_stale
  running-drop_stale at m = running-keep (λ p. not (is_stale o at p.1)) m

  -- After the sweep the table holds no more than `maxRetainedRuns` runs, or, where more than that
  -- are running, no more than those.
  pub length-sweep_runs :
      (at : ℕ) (m : Runs) → length (sweep o at m) ≤ max o.max_retained_runs (running m)
  length-sweep_runs at m =
      let live = drop_stale o at m in
      rw (sweep-spared at m)
        (ground (arith, length-spared live, split_done live, running-drop_stale at m))

  module _ (run_id : String) (r : Run) (busy : r.done ≡ false) where
    other :
        (p : String × Run)
        → (str_eq p.0 run_id ≡ false) ⊎ (p.1 ≡ r)
        → p.1.done ≡ true
        → str_eq run_id p.0 ≡ false
    other p (inl e) d = ground (arith, e, eq_iff run_id p.0, eq_iff p.0 run_id)
    other p (inr e) d = absurd (cc)

    evictable_others :
        (m : Runs)
        → IsMap m
        → Dict.get run_id m ≡ some r
        → spares (Dict.keys (evictable o m)) run_id ≡ true
    unfolding evictable
    evictable_others m u e = spares_of_All run_id (evictable o m) (
        All-take _ (excess m) (by_end m) (
          Sort.sort-All (λ p. p.1.ended_at) _ (finished m)
            (All-map₂ _ _ _ (finished m) other
              (All-keep _ (λ p. p.1.done) m (get_unique run_id r m u e))
              (keep-All (λ p. p.1.done) m))))

    drop_stale_running :
        (at : ℕ) (m : Runs)
        → Dict.get run_id m ≡ some r
        → Dict.get run_id (drop_stale o at m) ≡ some r
    unfolding drop_stale
    drop_stale_running at m e = get-keep _ run_id r m e (λ j q. ground (arith, busy))

    spared_at :
        (at : ℕ) (m : Runs)
        → IsMap m
        → Dict.get run_id m ≡ some r
        → (j : String) → j ≡ run_id
        → spares (Dict.keys (evictable o (drop_stale o at m))) j ≡ true
    unfolding drop_stale
    spared_at at m u e j h =
        let live = drop_stale o at m in
        ap (spares (Dict.keys (evictable o live))) h
        ∙ evictable_others live (keep-IsMap (λ p. not (is_stale o at p.1)) m u)
            (drop_stale_running at m e)

    -- The sweep never gives up a run that has not ended, however full the table is: where no id
    -- stands twice, it is found as before.
    pub get-sweep_running :
        (at : ℕ) (m : Runs)
        → IsMap m
        → Dict.get run_id m ≡ some r
        → Dict.get run_id (sweep o at m) ≡ some r
    get-sweep_running at m u e =
        let live = drop_stale o at m in
        let e' = drop_stale_running at m e in
        rw (sweep-spared at m) elim (Bool-cases (leb (length live) o.max_retained_runs)) [
          | inl q ↦ rw q e'
          | inr q ↦ rw q (get-keep (spared live) run_id r live e' (λ j h. spared_at at m u e j h))
        ]
