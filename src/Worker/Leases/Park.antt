-- ===== src/Worker/Leases/Park.antt =====
-- sandbox-worker/src/leases.js, `park`: the limit on the parked leases of one user.
use agent_pod.Base.{
  ℕ, ◌-◌, ◌≡◌, refl, sym, ap, ◌∙◌, String, List, [], ◌∷◌, Option, Bool, true, false, str_eq,
  if◌then◌else◌, arith, keep, All, length, not, ◌&&◌, keep-keep, keep-ext,
}
use agent_pod.Base.Sort
use agent_pod.Base.Spares.{spares}
use agent_pod.Base.Dict
use agent_pod.Base.Dict.{Dict}
use agent_pod.Worker.Slots.{Boot}
use agent_pod.Worker.Lease.{Config, Lease, parked_lease}
use agent_pod.Worker.Leases.{Manager, release_each, parked_of, mine, overflow, parked}
use agent_pod.Worker.Leases.Removal.{release_each-leases}

abbrev is_parked_of : String → Lease → Bool
is_parked_of username l = l.parked && str_eq l.username username

abbrev is_other : String → Lease → Bool
is_other id x = not (str_eq x.lease_id id)

-- Filtering the entries of the map is filtering its values, for leases that know their ids.
values-keep :
    (ids : List String) (m : Dict Lease)
    → All (λ p. p.1.lease_id ≡ p.0) m
    → Dict.values (keep (λ p. spares ids p.0) m) ≡ keep (λ l. spares ids l.lease_id) (Dict.values m)
unfolding Dict.values
values-keep ids [] a = refl
values-keep ids ((k, l) ∷ m) a = ground (arith, values-keep ids m a.1, ap (spares ids) a.0)

bools :
    (s q n : Bool)
    → (if (if s then q else false) then n else false)
      ≡ (if q then (if n then s else false) else false)
bools true true true = refl
bools true true false = refl
bools true false n = refl
bools false true true = refl
bools false true false = refl
bools false false n = refl

module _ (c : Config) (l : Lease) (m : Manager) where
  excess : ℕ
  excess = length (mine l m) - (c.max_parked_per_user - 1)

  counted :
      All (λ p. p.1.lease_id ≡ p.0) m.leases
      → (boots : String → Option Boot)
      → length (
          keep (is_other l.lease_id) (
            keep
              (is_parked_of l.username)
              (Dict.values (release_each (overflow c l m) boots m).leases)))
        ≡ length (keep (λ x. spares (overflow c l m) x.lease_id) (mine l m))
  unfolding mine parked_of
  counted a boots =
      let ids = overflow c l m in
      let S = λ (x : Lease). spares ids x.lease_id in
      let Q = is_parked_of l.username in
      let N = is_other l.lease_id in
      let L = Dict.values m.leases in
      ap (λ z. length (keep N (keep Q z)))
        (ap Dict.values (release_each-leases ids boots m) ∙ values-keep ids m.leases a)
      ∙ ap (λ z. length (keep N z)) (keep-keep S Q L)
      ∙ ap length (keep-keep (λ x. if S x then Q x else false) N L)
      ∙ ap length (
          keep-ext (λ x. if (if S x then Q x else false) then N x else false)
            (λ x. if Q x then (if N x then S x else false) else false) L
            (λ x. bools (S x) (Q x) (N x)))
      ∙ sym (ap length (keep-keep Q (λ x. if N x then S x else false) L))
      ∙ sym (Sort.length-keep-sort (λ x. x.parked_at) (λ x. if N x then S x else false) (keep Q L))
      ∙ sym (ap length (keep-keep N S (Sort.sort (λ x. x.parked_at) (keep Q L))))

  -- The manager after a `park` that goes through.
  abbrev parked_manager : ℕ → (String → Option Boot) → Manager
  parked_manager now boots =
      let m' = release_each (overflow c l m) boots m in
      record m' { leases = Dict.modify l.lease_id (λ x. parked_lease c x now) m'.leases }
