-- ===== src/Worker/Leases/Acquire.antt =====
-- sandbox-worker/src/leases.js: which lease is taken away when the pool is full, and when
-- `acquire` answers null.
use mathlib.Core.List.{append_assoc, append-nil}
use agent_pod.Base.{
  ℕ, ◌≤◌, ◌≡◌, ◌≢◌, ◌↔◌, ◌⊎◌, refl, subst, String, List, [], ◌∷◌, ◌++◌, Option, none, some, Bool,
  Option-cases, inl, inr, str_eq, ltb, Bool-cases, if◌then◌else◌, arith, keep, All, All-append, Has,
  All-map, ltb→lt, not_ltb→le,
}
use agent_pod.Base.Dict
use agent_pod.Base.Dict.Unique.{get_of_Has, get-All}
use agent_pod.Worker.Slots
use agent_pod.Worker.Slots.{Boot, Slot, slot_at, booted}
use agent_pod.Worker.Slots.Holders.{holder, release-first_free}
use agent_pod.Worker.Lease.{Config, Lease, new_lease}
use agent_pod.Worker.Leases.{
  Manager, release, grant, preempt, acquire, is_eligible, older, oldest_from, oldest_parked,
}
use agent_pod.Worker.Leases.Invariant.{IsConsistent, IsHeld}

-- Of these leases, one that was parked first; none if there are none.
abbrev pub IsOldest : List Lease → Option Lease → Type 0
IsOldest ls none = ls ≡ []
IsOldest ls (some v) = Has v ls × All (λ l. v.parked_at ≤ l.parked_at) ls

Has-append_left : (v : Lease) (xs ys : List Lease) → Has v xs → Has v (xs ++ ys)
Has-append_left v [] ys h = absurd h
Has-append_left v (x ∷ xs) ys (inl e) = inl e
Has-append_left v (x ∷ xs) ys (inr h) = inr (Has-append_left v xs ys h)

Has-append_right : (v : Lease) (xs ys : List Lease) → Has v ys → Has v (xs ++ ys)
Has-append_right v [] ys h = h
Has-append_right v (x ∷ xs) ys h = inr (Has-append_right v xs ys h)

older-IsOldest :
    (seen : List Lease) (victim : Option Lease) (l : Lease)
    → IsOldest seen victim
    → IsOldest (seen ++ l ∷ []) (older victim l)
older-IsOldest seen none l h = rw h (inl refl, (omega arith, tt))
older-IsOldest seen (some v) l h = elim (Bool-cases (ltb l.parked_at v.parked_at)) [
  | inl e ↦ rw e (
    Has-append_right l seen _ (inl refl),
    All-append _ seen _ (All-map _ _ seen (λ x k. omega (arith, ltb→lt _ _ e)) h.1)
        (omega arith, tt),
  )
  | inr e ↦ rw e (Has-append_left v seen _ h.0, All-append _ seen _ h.1 (not_ltb→le _ _ e, tt))
]

module _ (c : Config) where
  oldest_from-IsOldest :
      (now : ℕ) (ls seen : List Lease) (victim : Option Lease)
      → IsOldest seen victim
      → IsOldest (seen ++ keep (is_eligible c now) ls) (oldest_from c now victim ls)
  unfolding oldest_from
  oldest_from-IsOldest now [] seen victim h = rw append-nil h
  oldest_from-IsOldest now (l ∷ ls) seen victim h = elim (Bool-cases (is_eligible c now l)) [
    | inl e ↦ rw e (
        subst (λ xs. IsOldest xs (oldest_from c now (older victim l) ls))
          (append_assoc seen (l ∷ []) (keep (is_eligible c now) ls))
          (oldest_from-IsOldest now ls (seen ++ l ∷ []) (older victim l)
            (older-IsOldest seen victim l h)))
    | inr e ↦ rw e (oldest_from-IsOldest now ls seen victim h)
  ]

  -- The lease that is given up for a new one is parked, past its grace, and was parked no later than
  -- any other such lease; none is given up exactly if there is no such lease.
  pub oldest_parked-IsOldest :
      (now : ℕ) (m : Manager)
      → IsOldest (keep (is_eligible c now) (Dict.values m.leases)) (oldest_parked c now m)
  unfolding oldest_parked
  oldest_parked-IsOldest now m = oldest_from-IsOldest now (Dict.values m.leases) [] none refl

Has-keep : (p : Lease → Bool) (v : Lease) (ls : List Lease) → Has v (keep p ls) → Has v ls
Has-keep p v [] h = h
Has-keep p v (l ∷ ls) h = elim (Bool-cases (p l)) [
  | inl e ↦
      let k : (l ≡ v) ⊎ Has v (keep p ls) =
        subst (λ b. Has v (if b then l ∷ keep p ls else keep p ls)) e h in
      elim k [ inl q ↦ inl q | inr q ↦ inr (Has-keep p v ls q) ]
  | inr e ↦ inr (Has-keep p v ls (subst (λ b. Has v (if b then l ∷ keep p ls else keep p ls)) e h))
]

Has-nil : (v : Lease) (ls : List Lease) → Has v ls → ls ≢ []
Has-nil v [] h e = absurd h
Has-nil v (l ∷ ls) h e = cc

module _ (c : Config) (at : ℕ) (m : Manager) (ok : IsConsistent m) where
  victim-IsOldest :
      (v : Lease)
      → oldest_parked c at m ≡ some v
      → IsOldest (keep (is_eligible c at) (Dict.values m.leases)) (some v)
  victim-IsOldest v e =
      subst (IsOldest (keep (is_eligible c at) (Dict.values m.leases))) e
        (oldest_parked-IsOldest c at m)

  -- The victim is in the map, and its slot in the pool.
  victim-get : (v : Lease) → oldest_parked c at m ≡ some v → Dict.get v.lease_id m.leases ≡ some v
  victim-get v e =
      get_of_Has (λ l. l.lease_id) v m.leases ok.is_map ok.keyed
        (Has-keep (is_eligible c at) v _ (victim-IsOldest v e).0)

  victim-slot : (v : Lease) → oldest_parked c at m ≡ some v → slot_at v.slot m.slots ≢ none
  victim-slot v e n =
      let h : holder (slot_at v.slot m.slots) ≡ some v.lease_id =
        get-All (IsHeld m.slots) v.lease_id m.leases ok.held (victim-get v e) in
      let g : holder none ≡ some v.lease_id = subst (λ s. holder s ≡ some v.lease_id) n h in cc

  -- After the victim is released, its slot is the free one.
  preempted :
      (b : Boot) (v : Lease)
      → Slots.first_free m.slots ≡ none
      → oldest_parked c at m ≡ some v
      → preempt c at (some b) m ≡ record {
        leases = Dict.delete v.lease_id m.leases;
        slots = Slots.release v.slot (some b) m.slots;
      }
  unfolding preempt release
  preempted b v e q = rw (e, q, preempt) (rw (victim-get v q, release) refl)

  freed :
      (b : Boot) (v : Lease)
      → Slots.first_free m.slots ≡ none
      → oldest_parked c at m ≡ some v
      → Slots.first_free (Slots.release v.slot (some b) m.slots) ≡ some (booted v.slot b)
  freed b v e q = elim (Option-cases (slot_at v.slot m.slots)) [
    | inl n ↦ absurd (victim-slot v q n)
    | inr (s, n) ↦ release-first_free v.slot b m.slots e n
  ]

  module _ (id token run_id username : String) (ttl : Option ℕ) (now : ℕ) (b : Boot) where
    -- Where a slot is free, the new lease gets the first such slot and no other lease is touched.
    pub acquire_free :
        (s : Slot)
        → Slots.first_free m.slots ≡ some s
        → let r = acquire c id token run_id username ttl at now (some b) m in
          let l = new_lease c id token run_id username s.index ttl now in
          (r.1 ≡ some l)
          × ((j : String)
              → Dict.get j r.0.leases ≡ (if str_eq id j then some l else Dict.get j m.leases))
    unfolding acquire preempt grant new_lease
    acquire_free s e = (
      rw (e, preempt) (rw (e, grant) refl),
      λ j. rw (e, preempt) (rw (e, grant) (Dict.get-set id j _ m.leases)),
    )

    -- In a consistent pool where no slot is free, with an answer of the slot's new boot and no other
    -- call running while it waits: the lease that is taken away is one of those parked and past their
    -- grace, and none of them was parked before it. The new lease gets its slot; it is gone, and no
    -- other lease is touched.
    pub acquire_preempts :
        (v : Lease)
        → Slots.first_free m.slots ≡ none
        → oldest_parked c at m ≡ some v
        → let r = acquire c id token run_id username ttl at now (some b) m in
          let l = new_lease c id token run_id username v.slot ttl now in
          IsOldest (keep (is_eligible c at) (Dict.values m.leases)) (some v)
          × (r.1 ≡ some l)
          × ((j : String)
              → Dict.get j r.0.leases ≡ (
                  if str_eq id j
                  then some l
                  else if str_eq v.lease_id j
                  then none
                  else Dict.get j m.leases))
    unfolding acquire grant new_lease
    acquire_preempts v e q = rw (preempted b v e q) (
        rw (freed b v e q, grant)
          (victim-IsOldest v q, refl, λ j. rw (Dict.get-set, Dict.get-delete) refl))

    acquire_full :
        Slots.first_free m.slots ≡ none
        → oldest_parked c at m ≡ none
        → (acquire c id token run_id username ttl at now (some b) m).1 ≡ none
    unfolding acquire grant preempt
    acquire_full e q = rw (e, q, preempt) (rw (e, grant) refl)

    -- `acquire` answers null exactly if every slot is busy and no parked lease is past its grace.
    pub acquire_null : ((acquire c id token run_id username ttl at now (some b) m).1 ≡ none) ↔ (
        (Slots.first_free m.slots ≡ none) × (keep (is_eligible c at) (Dict.values m.leases) ≡ []))
    acquire_null = elim (Option-cases (Slots.first_free m.slots)) [
      | inr (s, e) ↦
          let granted = (acquire_free s e).0 in
          ((λ h. absurd (cc)), (λ h. let full = h.0 in absurd (cc)))
      | inl e ↦ elim (Option-cases (oldest_parked c at m)) [
        | inl q ↦ ((λ h. (e, subst (IsOldest eligible) q oldest)), (λ h. acquire_full e q))
        | inr (v, q) ↦
            let granted = (acquire_preempts v e q).1 in
            (
              (λ h. absurd (cc)),
              (λ h. absurd (Has-nil v eligible (subst (IsOldest eligible) q oldest).0 h.1)),
            )
      ]
    ]
      where
        eligible : List Lease
        eligible = keep (is_eligible c at) (Dict.values m.leases)

        oldest : IsOldest eligible (oldest_parked c at m)
        oldest = oldest_parked-IsOldest c at m
