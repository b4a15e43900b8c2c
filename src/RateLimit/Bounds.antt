-- ===== src/RateLimit/Bounds.antt =====
-- src/http/rate-limit.js: how many keys the table holds, and which ones `sweep` gives up.
use agent_pod.Base.{
  ℕ, ◌+◌, ◌-◌, ◌≤◌, ◌≡◌, ap, ◌∙◌, sym, subst, String, [], ◌++◌, arith, leb, length, length-drop,
  length-keep-le, take-append-drop, All, if◌then◌else◌, Bool-cases, inl, inr, not_leb→lt, leb→le,
  keep, take, drop, keep-append, All-keep, All-map, All-keep_of, All-keep_to,
}
use agent_pod.Base.Dict
use agent_pod.Base.Dict.{Dict}
use agent_pod.Base.Sort
use agent_pod.Base.Spares.{spares, keep-spares_self}
use agent_pod.RateLimit.Limiter.{
  Options, Entry, Table, expiry_of, drop_expired, victims, sweep, make_room, consume, admit,
  entry_for,
}

module _ (o : Options) where
  abbrev by_expiry : Table → Table
  by_expiry = Sort.sort (λ p. expiry_of o p.1)

  abbrev survivors : Table → Table
  survivors m = keep (λ p. spares (Dict.keys (victims o m)) p.0) m

  abbrev rest_of : Table → Table
  rest_of m = drop (length m - o.max_keys) (by_expiry m)

  -- In the sorted table the survivors are the part behind the victims.
  survivors-rest :
      (m : Table)
      → keep (λ p. spares (Dict.keys (victims o m)) p.0) (by_expiry m)
        ≡ keep (λ p. spares (Dict.keys (victims o m)) p.0) (rest_of m)
  unfolding victims
  survivors-rest m =
      let spared = λ (p : String × Entry). spares (Dict.keys (victims o m)) p.0 in
      ap (keep spared) (sym (take-append-drop (length m - o.max_keys) (by_expiry m)))
      ∙ keep-append spared (victims o m) (rest_of m)
      ∙ ap (λ z. z ++ keep spared (rest_of m)) (keep-spares_self (λ p. p.0) (victims o m))

  length-survivors : (m : Table) → length (survivors m) ≤ length m - (length m - o.max_keys)
  length-survivors m =
      let spared = λ (p : String × Entry). spares (Dict.keys (victims o m)) p.0 in
      omega (
        arith,
        Sort.length-keep-sort (λ p. expiry_of o p.1) spared m,
        ap length (survivors-rest m),
        length-keep-le spared (rest_of m),
        length-drop (length m - o.max_keys) (by_expiry m),
        Sort.length-sort (λ p. expiry_of o p.1) m,
      )

  sweep-survivors :
      (at : ℕ) (m : Table)
      → sweep o at m ≡ (
          if leb (length (drop_expired o at m)) o.max_keys
          then drop_expired o at m
          else survivors (drop_expired o at m))
  unfolding sweep
  sweep-survivors at m = ground (
    arith,
    Dict.delete_all-keep (Dict.keys (victims o (drop_expired o at m))) (drop_expired o at m),
  )

  pub length-sweep : (at : ℕ) (m : Table) → length (sweep o at m) ≤ o.max_keys
  length-sweep at m =
      rw (sweep-survivors at m) (ground (arith, length-survivors (drop_expired o at m)))

  -- A table with no more than one key above `maxKeys` has no more than that after `consume`.
  pub length-consume :
      (at : ℕ) (key : String) (m : Table)
      → length m ≤ o.max_keys + 1
      → length (consume o at key m).0 ≤ o.max_keys + 1
  unfolding consume make_room
  length-consume at key m h = elim (Bool-cases (leb o.max_keys (length m))) [
    | inl e ↦ rw e (
        omega (
          arith,
          length-sweep at m,
          Dict.length-set key (admit o at (entry_for o (Dict.get key (sweep o at m)))).0
              (sweep o at m),
        ))
    | inr e ↦ rw e (
        omega (
          arith,
          not_leb→lt _ _ e,
          Dict.length-set key (admit o at (entry_for o (Dict.get key m))).0 m,
        ))
  ]

  victims_none : (m : Table) → length m ≤ o.max_keys → victims o m ≡ []
  unfolding victims
  victims_none m h =
      let none_over : length m - o.max_keys ≡ 0 = omega arith in
      ap (λ n. take n (by_expiry m)) none_over

  survivors_later :
      (m : Table)
      → All (λ v. All (λ s. expiry_of o v.1 ≤ expiry_of o s.1) (survivors m)) (victims o m)
  unfolding victims
  survivors_later m = All-map _ _ (victims o m) later (
      Sort.take-le-drop (λ p. expiry_of o p.1) (length m - o.max_keys) (by_expiry m)
        (Sort.sort-IsSorted (λ p. expiry_of o p.1) m))
    where
      later :
          (v : String × Entry)
          → All (λ s. expiry_of o v.1 ≤ expiry_of o s.1) (rest_of m)
          → All (λ s. expiry_of o v.1 ≤ expiry_of o s.1) (survivors m)
      later v h =
          let P = λ (s : String × Entry). expiry_of o v.1 ≤ expiry_of o s.1 in
          let spared = λ (p : String × Entry). spares (Dict.keys (victims o m)) p.0 in
          All-keep_of P spared m (
            Sort.All-sort_inv (λ p. expiry_of o p.1) _ m
              (All-keep_to P spared (by_expiry m)
                (subst (All P) (sym (survivors-rest m)) (All-keep P spared (rest_of m) h))))

  -- What `sweep` gives up for want of room ran out no later than anything that it keeps.
  pub sweep-evicts_earliest :
      (at : ℕ) (m : Table)
      → All
          (λ v. All (λ s. expiry_of o v.1 ≤ expiry_of o s.1) (sweep o at m))
          (victims o (drop_expired o at m))
  sweep-evicts_earliest at m =
      rw (sweep-survivors at m) elim (Bool-cases (leb (length (drop_expired o at m)) o.max_keys)) [
        | inl e ↦ rw (victims_none (drop_expired o at m) (leb→le _ _ e)) tt
        | inr e ↦ rw e (survivors_later (drop_expired o at m))
      ]
