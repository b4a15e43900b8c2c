-- ===== src/Sandbox/Sticky/Held.antt =====
-- src/sandbox/sticky.js: who holds what points at a lease, over the changes of the table.
use agent_pod.Base.{
  ℕ, ◌≡◌, String, [], ◌∷◌, none, some, Bool, true, false, arith, leb, length, str_eq, Bool-cases,
  inl, inr,
}
use agent_pod.Base.Dict
use agent_pod.Base.Dict.{Dict}
use agent_pod.Sandbox.Sticky.{Entry, Entries, evict_if_needed}

-- Whether an entry points at the lease.
abbrev pub holds : String → Entry → Bool
holds lease e = elim e.handle [ none ↦ false | some h ↦ str_eq h.lease_id lease ]

module _ (run lease : String) where
  -- What points at the lease is held by the run.
  abbrev pub HoldsFor : Entry → Type 0
  HoldsFor e = holds lease e ≡ true → e.busy_run ≡ some run

  abbrev pub AllHeld : Entries → Type 0
  AllHeld m = (j : String) (e : Entry) → Dict.get j m ≡ some e → HoldsFor e

  pub AllHeld-delete : (k : String) (m : Entries) → AllHeld m → AllHeld (Dict.delete k m)
  AllHeld-delete k m a j e g h = elim (Bool-cases (str_eq k j)) [
    | inl q ↦ let bad : none ≡ some e = rw (Dict.get-delete, q) at g in absurd (cc)
    | inr q ↦ a j e (rw (Dict.get-delete, q) at g) h
  ]

  pub AllHeld-set :
      (k : String) (v : Entry) (m : Entries)
      → HoldsFor v
      → ((j : String) (e : Entry) → str_eq k j ≡ false → Dict.get j m ≡ some e → HoldsFor e)
      → AllHeld (Dict.set k v m)
  AllHeld-set k v m hv a j e g h = elim (Bool-cases (str_eq k j)) [
    | inl q ↦ let same : some v ≡ some e = rw (Dict.get-set, q) at g in ground (arith, same, hv)
    | inr q ↦ a j e q (rw (Dict.get-set, q) at g) h
  ]

  pub AllHeld-evict : (limit : ℕ) (m : Entries) → AllHeld m → AllHeld (evict_if_needed limit m)
  unfolding evict_if_needed
  AllHeld-evict limit [] a = elim (Bool-cases (leb (length {A = String × Entry} []) limit)) [
    | inl q ↦ rw q a
    | inr q ↦ rw q a
  ]
  AllHeld-evict limit ((k, e) ∷ m) a = elim (Bool-cases (leb (length ((k, e) ∷ m)) limit)) [
    | inl q ↦ rw q a
    | inr q ↦ rw q (AllHeld-delete k ((k, e) ∷ m) a)
  ]

  pub AllHeld-same :
      (k : String) (v : Entry) (m : Entries) → AllHeld m → HoldsFor v → AllHeld (Dict.set k v m)
  AllHeld-same k v m a hv = AllHeld-set k v m hv (λ j e q g. a j e g)
