-- ===== src/Worker/Leases/Removal.antt =====
-- sandbox-worker/src/leases.js: which leases are left after releases, and after a sweep.
use agent_pod.Base.{
  ℕ, ◌≡◌, refl, sym, ap, ◌∙◌, String, List, [], ◌∷◌, Option, none, some, Bool, true, Option-cases,
  inl, inr, str_eq, eq_iff, ltb, Bool-cases, map, if◌then◌else◌, arith, keep, subst,
}
use agent_pod.Base.Spares.{spares}
use agent_pod.Base.Dict
use agent_pod.Base.Dict.{Dict}
use agent_pod.Base.Dict.Unique.{IsMap, get-update_all, update_all-IsMap}
use agent_pod.Worker.Slots.{Boot}
use agent_pod.Worker.Lease
use agent_pod.Worker.Lease.{Config, Lease}
use agent_pod.Worker.Leases.{Manager, release, release_each, sweep, dead}
use agent_pod.Worker.Leases.Invariant.{IsConsistent}

delete-none : {V : Type 0} (k : String) (m : Dict V) → Dict.get k m ≡ none → Dict.delete k m ≡ m
unfolding Dict.get Dict.delete
delete-none k [] h = refl
delete-none k ((j, w) ∷ m) h = elim (Bool-cases (str_eq j k)) [
  | inl e ↦ let bad : some w ≡ none = rw e at h in cc
  | inr e ↦ rw e (ap (◌∷◌ (j, w)) (delete-none k m (rw e at h)))
]

pub release-leases :
    (id : String) (b : Option Boot) (m : Manager)
    → (release id b m).0.leases ≡ Dict.delete id m.leases
unfolding release
release-leases id b m = elim (Option-cases (Dict.get id m.leases)) [
  | inl e ↦ rw (e, release) (sym (delete-none id m.leases e))
  | inr (l, e) ↦ rw (e, release) refl
]

release_each-delete_all :
    (ids : List String) (boots : String → Option Boot) (m : Manager)
    → (release_each ids boots m).leases ≡ Dict.delete_all ids m.leases
unfolding release_each Dict.delete_all
release_each-delete_all [] boots m = refl
release_each-delete_all (k ∷ ks) boots m =
    release_each-delete_all ks boots (release k (boots k) m).0
    ∙ ap (Dict.delete_all ks) (release-leases k (boots k) m)

pub release_each-leases :
    (ids : List String) (boots : String → Option Boot) (m : Manager)
    → (release_each ids boots m).leases ≡ keep (λ p. spares ids p.0) m.leases
release_each-leases ids boots m =
    release_each-delete_all ids boots m ∙ Dict.delete_all-keep ids m.leases

pub get-keep :
    {V : Type 0} (F : String → Bool) (j : String) (m : Dict V)
    → Dict.get j (keep (λ p. F p.0) m) ≡ (if F j then Dict.get j m else none)
unfolding Dict.get
get-keep F j [] = ground arith
get-keep F j ((k, v) ∷ m) = elim (Bool-cases (str_eq k j)) [
  | inl e ↦ let q = (eq_iff k j).0 e in ground (arith, get-keep F j m, ap F q)
  | inr e ↦ ground (arith, get-keep F j m)
]

-- Whether a lease that the sweep looks at stays.
abbrev stays : ℕ → Option Lease → Bool
stays now none = true
stays now (some l) = ltb now l.expires_at

spares-dead :
    (now : ℕ) (j : String) (ls : Dict Lease)
    → IsMap ls
    → spares (map (λ d. d.0) (dead now ls)) j ≡ stays now (Dict.get j ls)
unfolding spares dead Dict.get
spares-dead now j [] u = refl
spares-dead now j ((k, l) ∷ ls) u = elim (Bool-cases (str_eq k j)) [
  | inl e ↦
      let gone : Dict.get j ls ≡ none = subst (λ i. Dict.get i ls ≡ none) ((eq_iff k j).0 e) u.0 in
      ground (arith, spares-dead now j ls u.1, eq_iff k j, eq_iff j k)
  | inr e ↦ ground (arith, spares-dead now j ls u.1, eq_iff k j, eq_iff j k)
]

-- What becomes of a lease in a sweep.
abbrev pub survivor : Config → ℕ → Option Lease → Option Lease
survivor c now none = none
survivor c now (some l) =
    if ltb now (Lease.swept c l now).expires_at then some (Lease.swept c l now) else none

-- A sweep first extends the leases that run a command, and then takes exactly those that have run
-- out; every other lease stays, as extended.
pub get-sweep :
    (c : Config) (now : ℕ) (boots : String → Option Boot) (m : Manager) (j : String)
    → IsConsistent m
    → Dict.get j (sweep c now boots m).0.leases ≡ survivor c now (Dict.get j m.leases)
unfolding sweep
get-sweep c now boots m j v =
    let slid = Dict.update_all (λ l. Lease.swept c l now) m.leases in
    let ids = map (λ d. d.0) (dead now slid) in
    ap (Dict.get j) (release_each-leases ids boots (record m { leases = slid }))
    ∙ get-keep (spares ids) j slid
    ∙ stay
  where
    stay :
        (if spares
            (map (λ d. d.0) (dead now (Dict.update_all (λ l. Lease.swept c l now) m.leases)))
            j
          then Dict.get j (Dict.update_all (λ l. Lease.swept c l now) m.leases)
          else none)
        ≡ survivor c now (Dict.get j m.leases)
    stay =
        rw
          (
            spares-dead now j (Dict.update_all (λ l. Lease.swept c l now) m.leases)
                (update_all-IsMap _ m.leases v.is_map),
            get-update_all,
          )
          (elim (Option-cases (Dict.get j m.leases)) [ inl e ↦ rw e refl | inr (l, e) ↦ rw e refl ])
