-- ===== src/Worker/Slots/Holders.antt =====
-- sandbox-worker/src/namespace/slot-pool.js: who holds which slot.
use agent_pod.Base.{
  ℕ, ◌≡◌, ◌≢◌, refl, subst, String, List, [], ◌∷◌, Option, none, some, if◌then◌else◌, ◌==◌, arith,
  Bool-cases, inl, inr,
}
use agent_pod.Worker.Slots.{Slot, Boot, booted, first_free, mark, slot_at, release}

-- The lease that holds a slot; none if the slot is idle or not in the pool.
abbrev pub holder : Option Slot → Option String
holder none = none
holder (some s) = if s.busy then s.lease_id else none

-- Each index once.
abbrev pub IsPool : List Slot → Type 0
IsPool [] = Unit {0}
IsPool (s ∷ ss) = (slot_at s.index ss ≡ none) × IsPool ss

slot_at-mark-none :
    (id : String) (i : ℕ) (ss : List Slot) → slot_at i ss ≡ none → slot_at i (mark id ss) ≡ none
unfolding mark
slot_at-mark-none id i [] h = refl
slot_at-mark-none id i (s ∷ ss) h = ground (arith, slot_at-mark-none id i ss)

pub mark-IsPool : (id : String) (ss : List Slot) → IsPool ss → IsPool (mark id ss)
unfolding mark
mark-IsPool id [] p = tt
mark-IsPool id (s ∷ ss) p = elim (Bool-cases s.busy) [
  | inl e ↦ rw e (slot_at-mark-none id s.index ss p.0, mark-IsPool id ss p.1)
  | inr e ↦ rw e p
]

slot_at-release-none :
    (j i : ℕ) (b : Option Boot) (ss : List Slot)
    → slot_at i ss ≡ none
    → slot_at i (release j b ss) ≡ none
unfolding release
slot_at-release-none j i b [] h = refl
slot_at-release-none j i none (s ∷ ss) h = h
slot_at-release-none j i (some b) (s ∷ ss) h = ground (arith, slot_at-release-none j i (some b) ss)

pub release-IsPool :
    (j : ℕ) (b : Option Boot) (ss : List Slot) → IsPool ss → IsPool (release j b ss)
unfolding release
release-IsPool j b [] p = tt
release-IsPool j none (s ∷ ss) p = p
release-IsPool j (some b) (s ∷ ss) p = elim (Bool-cases (s.index == j)) [
  | inl e ↦ let q : j ≡ s.index = ground arith in rw e (rw q p.0, p.1)
  | inr e ↦ rw e (slot_at-release-none j s.index (some b) ss p.0, release-IsPool j (some b) ss p.1)
]

-- Marking a slot takes none from its holder.
pub mark-holder :
    (id : String) (i : ℕ) (ss : List Slot) {id' : String}
    → holder (slot_at i ss) ≡ some id'
    → holder (slot_at i (mark id ss)) ≡ some id'
unfolding mark
mark-holder id i [] h = h
mark-holder id i (s ∷ ss) {id'} h = ground (arith, mark-holder id i ss {id' = id'})

first_free-slot_at :
    (ss : List Slot) {s : Slot} → first_free ss ≡ some s → slot_at s.index ss ≢ none
unfolding first_free
first_free-slot_at [] h n = cc
first_free-slot_at (t ∷ ss) {s} h n = ground (arith, first_free-slot_at ss {s = s})

-- The slot that was free is held by the lease that it was marked for.
pub mark-first_free :
    (id : String) (ss : List Slot) {s : Slot}
    → IsPool ss
    → first_free ss ≡ some s
    → holder (slot_at s.index (mark id ss)) ≡ some id
unfolding mark first_free
mark-first_free id [] p h = absurd (cc)
mark-first_free id (t ∷ ss) {s} p h = elim (Bool-cases t.busy) [
  | inl e ↦
      let free : first_free ss ≡ some s = rw e at h in
      let other : t.index ≢ s.index =
        λ q. first_free-slot_at ss free (subst (λ i. slot_at i ss ≡ none) q p.0) in
      rw e (ground (arith, mark-first_free id ss {s = s} p.1, other))
  | inr e ↦ ground arith
]

-- Building a slot anew changes no other slot.
pub release-holder :
    (j i : ℕ) (b : Option Boot) (ss : List Slot) → i ≢ j → slot_at i (release j b ss) ≡ slot_at i ss
unfolding release
release-holder j i b [] h = refl
release-holder j i none (s ∷ ss) h = refl
release-holder j i (some b) (s ∷ ss) h = ground (arith, release-holder j i (some b) ss h)

-- A slot that was built anew is idle.
pub release-slot_at :
    (j : ℕ) (b : Boot) (ss : List Slot) {s : Slot}
    → slot_at j ss ≡ some s
    → slot_at j (release j (some b) ss) ≡ some (booted j b)
unfolding release
release-slot_at j b [] h = cc
release-slot_at j b (t ∷ ss) {s} h = ground (arith, release-slot_at j b ss {s = s})

pub release-first_free :
    (j : ℕ) (b : Boot) (ss : List Slot) {s : Slot}
    → first_free ss ≡ none
    → slot_at j ss ≡ some s
    → first_free (release j (some b) ss) ≡ some (booted j b)
unfolding release first_free
release-first_free j b [] f h = cc
release-first_free j b (t ∷ ss) {s} f h = ground (arith, release-first_free j b ss {s = s})
