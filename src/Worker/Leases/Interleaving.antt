-- ===== src/Worker/Leases/Interleaving.antt =====
-- sandbox-worker/src/leases.js with its waits. A release deletes the lease from the map at once, and
-- its slot becomes free only after the slot has been destroyed and built anew; any operation may
-- run in between. A step is the stretch of code between two waits.
use mathlib.Core.Option
use agent_pod.Base.{
  ℕ, ◌≡◌, ◌≢◌, sym, ap, ◌∙◌, String, List, [], Option, none, some, false, arith, All, All-map,
  All-map₂, str_eq, eq_iff, eq_refl, Option-cases, inl, inr,
}
use agent_pod.Base.Dict
use agent_pod.Base.Dict.{Dict}
use agent_pod.Base.Dict.Unique.{
  delete-IsMap, set-All, delete-All, get-All, delete-keys, get-none-All, modify-none,
  get-update_all,
}
use agent_pod.Worker.Slots
use agent_pod.Worker.Slots.{Slot, Boot, slot_at}
use agent_pod.Worker.Slots.Holders.{holder, IsPool, release-IsPool, mark-holder}
use agent_pod.Worker.Lease.{Lease}
use agent_pod.Worker.Leases.{Manager, grant}
use agent_pod.Worker.Leases.Invariant.{
  IsHeld, IsConsistent, IsConsistent-slot, grant-IsConsistent, modify-IsConsistent,
  update_all-IsConsistent, release_other,
}

-- The manager, and the releases that wait for their slot: id and slot of each.
pub record State : Type 0 where
  pub manager : Manager
  pub waiting : Dict ℕ

abbrev pub KeepsSlot : (Lease → Lease) → Type 0
KeepsSlot f = (l : Lease) → ((f l).lease_id ≡ l.lease_id) × ((f l).slot ≡ l.slot)

-- `grants`: an `acquire` that finds a free slot or none, under an id that is in use nowhere (it is
-- drawn at random). `changes` and `changes_all`: `get`, `renew`, `attach`, `park` and the first loop
-- of `sweep`, which write into leases and leave their ids and slots alone. `begins` and `ends`: the
-- two halves of `releaseLease`.
pub data Step (s : State) : State → Type 0 where
  grants :
      (l : Lease)
      → Dict.get l.lease_id s.manager.leases ≡ none
      → Dict.get l.lease_id s.waiting ≡ none
      → Step s (record s { manager = (grant l s.manager).0 })
  changes :
      (id : String) (f : Lease → Lease)
      → KeepsSlot f
      → Step s
          (record s { manager = record (s.manager) { leases = Dict.modify id f s.manager.leases } })
  changes_all :
      (f : Lease → Lease)
      → KeepsSlot f
      → Step s (record s {
        manager = record (s.manager) { leases = Dict.update_all f s.manager.leases };
      })
  begins :
      (id : String) (l : Lease)
      → Dict.get id s.manager.leases ≡ some l
      → Step s (record {
        manager = record (s.manager) { leases = Dict.delete id s.manager.leases };
        waiting = Dict.set id l.slot s.waiting;
      })
  ends :
      (id : String) (i : ℕ) (b : Option Boot)
      → Dict.get id s.waiting ≡ some i
      → Step s (record {
        manager = record (s.manager) { slots = Slots.release i b s.manager.slots };
        waiting = Dict.delete id s.waiting;
      })

pub data Reach (s : State) : State → Type 0 where
  here : Reach s s
  next : {t u : State} → Reach s t → Step t u → Reach s u

-- A slot that waits to be destroyed is still marked for its old lease, which is gone from the map.
abbrev pub IsWaiting : Manager → String × ℕ → Type 0
IsWaiting m q = (holder (slot_at q.1 m.slots) ≡ some q.0) × (Dict.get q.0 m.leases ≡ none)

pub record IsSafe (s : State) : Type 0 where
  pub consistent : IsConsistent s.manager
  pub waits : All (IsWaiting s.manager) s.waiting

grants-IsWaiting :
    (l : Lease) (m : Manager) (q : String × ℕ)
    → IsWaiting m q
    → str_eq q.0 l.lease_id ≡ false
    → IsWaiting (grant l m).0 q
unfolding grant
grants-IsWaiting l m q w k = elim (Option-cases (Slots.first_free m.slots)) [
  | inl e ↦ rw (e, grant) w
  | inr (s, e) ↦
      rw (e, grant)
        (
          mark-holder l.lease_id q.1 m.slots w.0,
          ground (
            arith,
            Dict.get-set l.lease_id q.0 (record l { slot = s.index }) m.leases,
            w.1,
            eq_iff q.0 l.lease_id,
            eq_iff l.lease_id q.0,
          ),
        )
]

begins-IsConsistent :
    (m : Manager) (id : String)
    → IsConsistent m
    → IsConsistent (record m { leases = Dict.delete id m.leases })
begins-IsConsistent m id v = record {
  is_map = delete-IsMap id m.leases v.is_map;
  keyed = delete-All (λ p. p.1.lease_id ≡ p.0) id m.leases v.keyed;
  is_pool = v.is_pool;
  held = delete-All (IsHeld m.slots) id m.leases v.held;
}

begins-IsWaiting :
    (m : Manager) (id : String) (l : Lease) (waiting : Dict ℕ)
    → IsConsistent m
    → Dict.get id m.leases ≡ some l
    → All (IsWaiting m) waiting
    → All (IsWaiting (record m { leases = Dict.delete id m.leases })) (Dict.set id l.slot waiting)
begins-IsWaiting m id l waiting v e w =
    let m' : Manager = record m { leases = Dict.delete id m.leases } in
    set-All (IsWaiting m') id l.slot waiting
      (get-All (IsHeld m.slots) id m.leases v.held e, rw (Dict.get-delete, eq_refl))
      (All-map (IsWaiting m) (IsWaiting m') waiting
        (λ q h. (h.0, ground (arith, Dict.get-delete id q.0 m.leases, h.1))) w)

ends-IsSafe :
    (s : State) (id : String) (i : ℕ) (b : Option Boot)
    → Dict.get id s.waiting ≡ some i
    → IsSafe s
    → IsSafe (record {
      manager = record (s.manager) { slots = Slots.release i b s.manager.slots };
      waiting = Dict.delete id s.waiting;
    })
ends-IsSafe s id i b e v = record {
  consistent = record {
    is_map = v.consistent.is_map;
    keyed = v.consistent.keyed;
    is_pool = release-IsPool i b s.manager.slots v.consistent.is_pool;
    held =
        All-map₂ (IsHeld s.manager.slots) (λ p. str_eq p.0 id ≡ false) (IsHeld slots')
          s.manager.leases (λ p. release_other id p.0 i p.1.slot b s.manager.slots mine.0)
          v.consistent.held (get-none-All id s.manager.leases mine.1);
  };
  waits =
      All-map₂ (IsWaiting s.manager) (λ q. str_eq q.0 id ≡ false) (IsWaiting m')
        (Dict.delete id s.waiting)
        (λ q h k. (release_other id q.0 i q.1 b s.manager.slots mine.0 h.0 k, h.1))
        (delete-All (IsWaiting s.manager) id s.waiting v.waits) (delete-keys id s.waiting);
}
  where
    slots' : List Slot
    slots' = Slots.release i b s.manager.slots

    m' : Manager
    m' = record (s.manager) { slots = slots' }

    mine : IsWaiting s.manager (id, i)
    mine = get-All (IsWaiting s.manager) id s.waiting v.waits e

pub Step-IsSafe : {s t : State} → Step s t → IsSafe s → IsSafe t
Step-IsSafe {s} (grants l new gone) v = record {
  consistent = grant-IsConsistent l s.manager v.consistent;
  waits =
      All-map₂ (IsWaiting s.manager) (λ q. str_eq q.0 l.lease_id ≡ false)
        (IsWaiting (grant l s.manager).0) s.waiting (grants-IsWaiting l s.manager) v.waits
        (get-none-All l.lease_id s.waiting gone);
}
Step-IsSafe {s} (changes id f same) v = record {
  consistent = modify-IsConsistent s.manager id f same v.consistent;
  waits = All-map _ _ s.waiting (λ q h. (h.0, modify-none id q.0 f s.manager.leases h.1)) v.waits;
}
Step-IsSafe {s} (changes_all f same) v = record {
  consistent = update_all-IsConsistent s.manager f same v.consistent;
  waits =
      All-map _ _ s.waiting
        (λ q h. (h.0, get-update_all f q.0 s.manager.leases ∙ ap (Option.map f) h.1)) v.waits;
}
Step-IsSafe {s} (begins id l e) v = record {
  consistent = begins-IsConsistent s.manager id v.consistent;
  waits = begins-IsWaiting s.manager id l s.waiting v.consistent e v.waits;
}
Step-IsSafe {s} (ends id i b e) v = ends-IsSafe s id i b e v

pub Reach-IsSafe : {s t : State} → IsSafe s → Reach s t → IsSafe t
Reach-IsSafe v here = v
Reach-IsSafe v (next r st) = Step-IsSafe st (Reach-IsSafe v r)

-- The worker as it starts: a pool and no lease.
abbrev pub start : List Slot → State
start slots = record { manager = record { leases = []; slots = slots }; waiting = [] }

start-IsSafe : (slots : List Slot) → IsPool slots → IsSafe (start slots)
start-IsSafe slots p = record {
  consistent = record { is_map = tt; keyed = tt; is_pool = p; held = tt };
  waits = tt;
}

-- Whatever operations run while others wait: from a pool that has each index once and no lease, no
-- state is reached in which two leases share a slot.
pub Reach-slot :
    (slots : List Slot) (t : State) (id id' : String) (l l' : Lease)
    → IsPool slots
    → Reach (start slots) t
    → Dict.get id t.manager.leases ≡ some l
    → Dict.get id' t.manager.leases ≡ some l'
    → l.slot ≡ l'.slot
    → id ≡ id'
Reach-slot slots t id id' l l' p r e e' =
    IsConsistent-slot t.manager id id' l l' (Reach-IsSafe (start-IsSafe slots p) r).consistent e e'

-- In any state that is reached from a pool that has each index once and no lease, a slot that
-- waits to be destroyed and built anew belongs to no lease of the map.
pub Reach-waiting :
    (slots : List Slot) (t : State) (id id' : String) (i : ℕ) (l : Lease)
    → IsPool slots
    → Reach (start slots) t
    → Dict.get id t.waiting ≡ some i
    → Dict.get id' t.manager.leases ≡ some l
    → l.slot ≢ i
Reach-waiting slots t id id' i l p r e e' q =
    let v = Reach-IsSafe (start-IsSafe slots p) r in
    let w = get-All (IsWaiting t.manager) id t.waiting v.waits e in
    let h = get-All (IsHeld t.manager.slots) id' t.manager.leases v.consistent.held e' in
    let same : some id' ≡ some id = sym h ∙ ap (λ j. holder (slot_at j t.manager.slots)) q ∙ w.0 in
    let bad : some l ≡ none = sym e' ∙ ap (λ k. Dict.get k t.manager.leases) (cc) ∙ w.1 in cc
