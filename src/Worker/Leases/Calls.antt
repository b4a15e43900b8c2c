-- ===== src/Worker/Leases/Calls.antt =====
-- sandbox-worker/src/leases.js: the operations as a whole are runs of the interleaved system.
use agent_pod.Base.{
  ℕ, ◌+◌, ◌≡◌, refl, subst, String, List, [], ◌∷◌, Option, none, Option-cases, inl, inr, leb,
  Bool-cases, map, arith,
}
use agent_pod.Base.Dict
use agent_pod.Base.Dict.{Dict}
use agent_pod.Base.Dict.Unique.{delete-set}
use agent_pod.Worker.Slots
use agent_pod.Worker.Slots.{Slot, Boot}
use agent_pod.Worker.Lease
use agent_pod.Worker.Lease.{Config, Lease}
use agent_pod.Worker.Leases.{
  Manager, release, release_each, release_all, grant, preempt, acquire, get, renew, attach, park,
  sweep, oldest_parked, overflow, dead,
}
use agent_pod.Worker.Leases.Interleaving.{
  State, Step, Reach, here, next, grants, changes, changes_all, begins, ends, KeepsSlot,
  Reach-IsSafe,
}
use agent_pod.Worker.Leases.Invariant.{IsConsistent}

abbrev at_rest : Manager → State
at_rest m = record { manager = m; waiting = [] }

Reach-trans : {s t u : State} → Reach s t → Reach t u → Reach s u
Reach-trans r here = r
Reach-trans r (next q st) = next (Reach-trans r q) st

-- Nothing that is done to a lease changes its id or its slot.
module _ (c : Config) (now : ℕ) where
  touch-KeepsSlot : KeepsSlot (λ l. Lease.touch c l now)
  unfolding Lease.touch
  touch-KeepsSlot l = (ground arith, ground arith)

  renew-KeepsSlot : (wish : Option ℕ) → KeepsSlot (λ l. Lease.renew c l wish now)
  unfolding Lease.renew
  renew-KeepsSlot wish l = (ground arith, ground arith)

  attach-KeepsSlot : (run_id token : String) → KeepsSlot (λ l. Lease.attach c l run_id token now)
  unfolding Lease.attach
  attach-KeepsSlot run_id token l = (ground arith, ground arith)

  parked_lease-KeepsSlot : KeepsSlot (λ l. Lease.parked_lease c l now)
  unfolding Lease.parked_lease
  parked_lease-KeepsSlot l = (refl, refl)

  swept-KeepsSlot : KeepsSlot (λ l. Lease.swept c l now)
  unfolding Lease.swept
  swept-KeepsSlot l = (ground arith, ground arith)

release-Reach :
    (id : String) (b : Option Boot) (m : Manager) → Reach (at_rest m) (at_rest (release id b m).0)
unfolding release Dict.get
release-Reach id b m = elim (Option-cases (Dict.get id m.leases)) [
  | inl e ↦ rw (e, release) here
  | inr (l, e) ↦ rw (e, release) (next (next here (begins id l e)) (ended l))
]
  where
    ended :
        (l : Lease)
        → let gone = Dict.delete id m.leases in
          Step
            (record {
              manager = record { leases = gone; slots = m.slots };
              waiting = Dict.set id l.slot [];
            })
            (at_rest (record { leases = gone; slots = Slots.release l.slot b m.slots }))
    ended l =
        let gone = Dict.delete id m.leases in
        let m' : Manager = record { leases = gone; slots = Slots.release l.slot b m.slots } in
        subst
          (λ w.
            Step
              (record {
                manager = record { leases = gone; slots = m.slots };
                waiting = Dict.set id l.slot [];
              })
              (record { manager = m'; waiting = w }))
          (delete-set id l.slot [] refl) (ends id l.slot b (Dict.get-set_self id l.slot []))

release_each-Reach :
    (ids : List String) (boots : String → Option Boot) (m : Manager)
    → Reach (at_rest m) (at_rest (release_each ids boots m))
unfolding release_each
release_each-Reach [] boots m = here
release_each-Reach (id ∷ ids) boots m =
    Reach-trans (release-Reach id (boots id) m)
      (release_each-Reach ids boots (release id (boots id) m).0)

-- A call of the lease manager with what comes from outside: times, random ids and tokens, and what
-- the kernel answers where slots are built anew.
pub data Call : Type 0 where
  acquires :
      (id token run_id username : String) (ttl : Option ℕ) (at now : ℕ) (b : Option Boot) → Call
  gets : (id : String) (now : ℕ) → Call
  renews : (l : Lease) (wish : Option ℕ) (now : ℕ) → Call
  attaches : (l : Lease) (run_id token : String) (now : ℕ) → Call
  parks : (l : Lease) (now : ℕ) (boots : String → Option Boot) → Call
  releases : (id : String) (b : Option Boot) → Call
  sweeps : (now : ℕ) (boots : String → Option Boot) → Call
  releases_all : (boots : String → Option Boot) → Call

pub apply : Config → Manager → Call → Manager
apply c m (acquires id token run_id username ttl at now b) =
    (acquire c id token run_id username ttl at now b m).0
apply c m (gets id now) = (get c id now m).0
apply c m (renews l wish now) = (renew c l wish now m).0
apply c m (attaches l run_id token now) = (attach c l run_id token now m).0
apply c m (parks l now boots) = (park c l now boots m).0
apply c m (releases id b) = (release id b m).0
apply c m (sweeps now boots) = (sweep c now boots m).0
apply c m (releases_all boots) = (release_all boots m).0

-- An id drawn for a new lease is in use nowhere.
abbrev pub IsFresh : Manager → Call → Type 0
IsFresh m (acquires id token run_id username ttl at now b) = Dict.get id m.leases ≡ none
IsFresh m (gets id now) = Unit {0}
IsFresh m (renews l wish now) = Unit {0}
IsFresh m (attaches l run_id token now) = Unit {0}
IsFresh m (parks l now boots) = Unit {0}
IsFresh m (releases id b) = Unit {0}
IsFresh m (sweeps now boots) = Unit {0}
IsFresh m (releases_all boots) = Unit {0}

release-get-none :
    (id k : String) (b : Option Boot) (m : Manager)
    → Dict.get k m.leases ≡ none
    → Dict.get k (release id b m).0.leases ≡ none
unfolding release
release-get-none id k b m h = elim (Option-cases (Dict.get id m.leases)) [
  | inl e ↦ rw (e, release) h
  | inr (l, e) ↦ rw (e, release) (ground (arith, Dict.get-delete id k m.leases))
]

module _ (c : Config) where
  preempt-cases {κ} :
      (P : Manager → Type κ) (at : ℕ) (b : Option Boot) (m : Manager)
      → P m
      → ((id : String) → P (release id b m).0)
      → P (preempt c at b m)
  unfolding preempt
  preempt-cases P at b m h k = elim (Option-cases (Slots.first_free m.slots)) [
    | inr (s, e) ↦ rw (e, preempt) h
    | inl e ↦ elim (Option-cases (oldest_parked c at m)) [
      | inl n ↦ rw (e, n, preempt) h
      | inr (v, n) ↦ rw (e, n, preempt) (k v.lease_id)
    ]
  ]

  grant-Reach :
      (l : Lease) (m : Manager)
      → Dict.get l.lease_id m.leases ≡ none
      → Reach (at_rest m) (at_rest (grant l m).0)
  unfolding Dict.get
  grant-Reach l m h = next here (grants l h refl)

  acquire-Reach :
      (id token run_id username : String) (ttl : Option ℕ) (at now : ℕ) (b : Option Boot)
      (m : Manager)
      → Dict.get id m.leases ≡ none
      → Reach (at_rest m) (at_rest (acquire c id token run_id username ttl at now b m).0)
  unfolding acquire Lease.new_lease
  acquire-Reach id token run_id username ttl at now b m h =
      Reach-trans
        (preempt-cases (λ n. Reach (at_rest m) (at_rest n)) at b m here (λ v. release-Reach v b m))
        (grant-Reach (Lease.new_lease c id token run_id username 0 ttl now) (preempt c at b m) (
          preempt-cases (λ n. Dict.get id n.leases ≡ none) at b m h
            (λ v. release-get-none v id b m h)))

  get-Reach : (id : String) (now : ℕ) (m : Manager) → Reach (at_rest m) (at_rest (get c id now m).0)
  unfolding get
  get-Reach id now m = elim (Option-cases (Dict.get id m.leases)) [
    | inl e ↦ rw (e, get) here
    | inr (l, e) ↦ elim (Bool-cases (leb l.expires_at now)) [
      | inl q ↦ rw (e, get) (rw q here)
      | inr q ↦ rw (e, get) (rw q (next here (changes id _ (touch-KeepsSlot c now))))
    ]
  ]

  park-Reach :
      (l : Lease) (now : ℕ) (boots : String → Option Boot) (m : Manager)
      → Reach (at_rest m) (at_rest (park c l now boots m).0)
  unfolding park
  park-Reach l now boots m = elim (Bool-cases (leb c.max_parked_per_user 0)) [
    | inl e ↦ rw (park, e) here
    | inr e ↦ elim (Bool-cases (leb l.hard_expires_at (now + c.park_grace_ms))) [
      | inl q ↦ rw (park, e, q) here
      | inr q ↦
          rw (park, e, q)
            (next (release_each-Reach (overflow c l m) boots m)
              (changes l.lease_id _ (parked_lease-KeepsSlot c now)))
    ]
  ]

  -- Every operation of the lease manager, run without another in between, is a run of the
  -- interleaved system from one state with no release under way to another.
  pub apply-Reach :
      (m : Manager) (call : Call) → IsFresh m call → Reach (at_rest m) (at_rest (apply c m call))
  unfolding apply renew attach sweep release_all
  apply-Reach m (acquires id token run_id username ttl at now b) f =
      acquire-Reach id token run_id username ttl at now b m f
  apply-Reach m (gets id now) f = get-Reach id now m
  apply-Reach m (renews l wish now) f =
      next here (changes l.lease_id _ (renew-KeepsSlot c now wish))
  apply-Reach m (attaches l run_id token now) f =
      next here (changes l.lease_id _ (attach-KeepsSlot c now run_id token))
  apply-Reach m (parks l now boots) f = park-Reach l now boots m
  apply-Reach m (releases id b) f = release-Reach id b m
  apply-Reach m (sweeps now boots) f =
      Reach-trans (next here (changes_all _ (swept-KeepsSlot c now))) (
        release_each-Reach
          (map (λ d. d.0) (dead now (Dict.update_all (λ l. Lease.swept c l now) m.leases))) boots
          (record m { leases = Dict.update_all (λ l. Lease.swept c l now) m.leases }))
  apply-Reach m (releases_all boots) f = release_each-Reach (Dict.keys m.leases) boots m

-- Each operation keeps the leases and slots consistent: each key once, each lease under its id and
-- alone in holding its slot.
pub apply-IsConsistent :
    (c : Config) (m : Manager) (call : Call)
    → IsFresh m call
    → IsConsistent m
    → IsConsistent (apply c m call)
apply-IsConsistent c m call f v =
    (Reach-IsSafe (record { consistent = v; waits = tt }) (apply-Reach c m call f)).consistent
