-- ===== src/Worker/Leases/Invariant.antt =====
-- sandbox-worker/src/leases.js: no slot is ever held by two leases, in any interleaving.
-- The operations wait while a slot is destroyed and built anew, and others run meanwhile. So the
-- steps here are the stretches of code between two waits.
use agent_pod.Base.{
  ℕ, ◌≡◌, ◌≢◌, refl, sym, ap, ◌∙◌, String, List, Option, some, true, false, inl, inr, All, All-map,
  All-map₂, str_eq, eq_iff, Option-cases,
}
use agent_pod.Base.Dict
use agent_pod.Base.Dict.{Dict}
use agent_pod.Base.Dict.Unique.{
  IsMap, set-IsMap, delete-IsMap, update_all-IsMap, modify-IsMap, set-All, delete-All, get-All,
  update_all-All, modify-All, delete-keys,
}
use agent_pod.Worker.Slots
use agent_pod.Worker.Slots.{Slot, Boot, slot_at}
use agent_pod.Worker.Slots.Holders.{
  holder, IsPool, mark-IsPool, release-IsPool, mark-holder, mark-first_free, release-holder,
}
use agent_pod.Worker.Lease.{Lease}
use agent_pod.Worker.Leases.{Manager, release, grant}

-- The slot of an entry of the map is held by the lease of that key.
abbrev pub IsHeld : List Slot → String × Lease → Type 0
IsHeld slots p = holder (slot_at p.1.slot slots) ≡ some p.0

-- The map has each key once, its leases know their keys, and each holds its own slot.
pub record IsConsistent (m : Manager) : Type 0 where
  pub is_map : IsMap m.leases
  pub keyed : All (λ p. p.1.lease_id ≡ p.0) m.leases
  pub is_pool : IsPool m.slots
  pub held : All (IsHeld m.slots) m.leases

-- A slot has one holder, so two leases of the map never share one.
pub IsConsistent-slot :
    (m : Manager) (id id' : String) (l l' : Lease)
    → IsConsistent m
    → Dict.get id m.leases ≡ some l
    → Dict.get id' m.leases ≡ some l'
    → l.slot ≡ l'.slot
    → id ≡ id'
IsConsistent-slot m id id' l l' v e e' q =
    let h = get-All (IsHeld m.slots) id m.leases v.held e in
    let h' = get-All (IsHeld m.slots) id' m.leases v.held e' in
    let both : some id ≡ some id' = sym h ∙ ap (λ i. holder (slot_at i m.slots)) q ∙ h' in cc

-- A grant under an id that is not in the map.
pub grant-IsConsistent :
    (fresh : Lease) (m : Manager) → IsConsistent m → IsConsistent (grant fresh m).0
unfolding grant
grant-IsConsistent fresh m v = elim (Option-cases (Slots.first_free m.slots)) [
  | inl e ↦ rw (e, grant) v
  | inr (s, e) ↦
      rw (e, grant)
        (record {
          is_map = set-IsMap fresh.lease_id _ m.leases v.is_map;
          keyed = set-All (λ p. p.1.lease_id ≡ p.0) fresh.lease_id _ m.leases refl v.keyed;
          is_pool = mark-IsPool fresh.lease_id m.slots v.is_pool;
          held =
              set-All (IsHeld (Slots.mark fresh.lease_id m.slots)) fresh.lease_id _ m.leases
                (mark-first_free fresh.lease_id m.slots v.is_pool e)
                (All-map (IsHeld m.slots) (IsHeld (Slots.mark fresh.lease_id m.slots)) m.leases
                  (λ p h. mark-holder fresh.lease_id p.1.slot m.slots h) v.held);
        })
]

-- Any change of the leases that keeps their ids and slots.
pub modify-IsConsistent :
    (m : Manager) (id : String) (f : Lease → Lease)
    → ((l : Lease) → ((f l).lease_id ≡ l.lease_id) × ((f l).slot ≡ l.slot))
    → IsConsistent m
    → IsConsistent (record m { leases = Dict.modify id f m.leases })
modify-IsConsistent m id f same v = record {
  is_map = modify-IsMap id f m.leases v.is_map;
  keyed = modify-All (λ p. p.1.lease_id ≡ p.0) id f m.leases (λ k l h. (same l).0 ∙ h) v.keyed;
  is_pool = v.is_pool;
  held = modify-All (IsHeld m.slots) id f m.leases (λ k l h. rw (same l).1 h) v.held;
}

pub update_all-IsConsistent :
    (m : Manager) (f : Lease → Lease)
    → ((l : Lease) → ((f l).lease_id ≡ l.lease_id) × ((f l).slot ≡ l.slot))
    → IsConsistent m
    → IsConsistent (record m { leases = Dict.update_all f m.leases })
update_all-IsConsistent m f same v = record {
  is_map = update_all-IsMap f m.leases v.is_map;
  keyed = update_all-All (λ p. p.1.lease_id ≡ p.0) f m.leases (λ k l h. (same l).0 ∙ h) v.keyed;
  is_pool = v.is_pool;
  held = update_all-All (IsHeld m.slots) f m.leases (λ k l h. rw (same l).1 h) v.held;
}

-- A slot that another lease holds is left alone where this one's is built anew.
pub release_other :
    (id id' : String) (i i' : ℕ) (b : Option Boot) (slots : List Slot)
    → holder (slot_at i slots) ≡ some id
    → holder (slot_at i' slots) ≡ some id'
    → str_eq id' id ≡ false
    → holder (slot_at i' (Slots.release i b slots)) ≡ some id'
release_other id id' i i' b slots h h' k = rw (release-holder i i' b slots apart) h'
  where
    apart : i' ≢ i
    apart q =
        let both : some id' ≡ some id = sym h' ∙ ap (λ j. holder (slot_at j slots)) q ∙ h in
        let same : str_eq id' id ≡ true = (eq_iff id' id).1 (cc) in cc

pub release-IsConsistent :
    (id : String) (b : Option Boot) (m : Manager) → IsConsistent m → IsConsistent (release id b m).0
unfolding release
release-IsConsistent id b m v = elim (Option-cases (Dict.get id m.leases)) [
  | inl e ↦ rw (e, release) v
  | inr (l, e) ↦
      rw (e, release)
        (record {
          is_map = delete-IsMap id m.leases v.is_map;
          keyed = delete-All (λ p. p.1.lease_id ≡ p.0) id m.leases v.keyed;
          is_pool = release-IsPool l.slot b m.slots v.is_pool;
          held =
              All-map₂ (IsHeld m.slots) (λ p. str_eq p.0 id ≡ false)
                (IsHeld (Slots.release l.slot b m.slots)) (Dict.delete id m.leases)
                (λ p.
                  release_other id p.0 l.slot p.1.slot b m.slots
                    (get-All (IsHeld m.slots) id m.leases v.held e))
                (delete-All (IsHeld m.slots) id m.leases v.held) (delete-keys id m.leases);
        })
]
