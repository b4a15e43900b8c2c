-- ===== src/Base/Dict/Keep.antt =====
-- What a test on the entries of a `Dict` leaves under a key.
use Prim.Native.String.{String}
use mathlib.Core.Path.{◌≡◌, refl}
use mathlib.Core.Bool.{Bool, true, false}
use mathlib.Core.Logic.{◌⊎◌, inl, inr}
use mathlib.Core.List.{[], ◌∷◌, map}
use mathlib.Core.Option.{none, some}
use native.Mathlib.Omega.{arith}
use text.Mathlib.Text.{◌==◌ as str_eq}
use text.Mathlib.TextEquality.{eq_iff}
use agent_pod.Base.Tests.{Bool-cases}
use agent_pod.Base.Lists.{keep, All, All-map}
use agent_pod.Base.Spares.{spares}
use agent_pod.Base.Dict.{Dict, get}
use agent_pod.Base.Dict.Unique.{IsMap, get-none-All}

module _ {V : Type 0} where
  -- An entry that passes the test is found as before.
  pub get-keep :
      (p : String × V → Bool) (k : String) (v : V) (m : Dict V)
      → get k m ≡ some v
      → ((j : String) → j ≡ k → p (j, v) ≡ true)
      → get k (keep p m) ≡ some v
  unfolding get
  get-keep p k v [] e h = absurd (cc)
  get-keep p k v ((j, w) ∷ m) e h = elim (Bool-cases (str_eq j k)) [
    | inl q ↦
        let same : some w ≡ some v = rw q at e in
        let passes : p (j, w) ≡ true = ground (arith, same, h j ((eq_iff j k).0 q)) in
        rw (passes, q) same
    | inr q ↦ let later : get k m ≡ some v = rw q at e in ground (arith, get-keep p k v m later h)
  ]

  -- What a map holds under a key is the only entry with that key.
  pub get_unique :
      (k : String) (v : V) (m : Dict V)
      → IsMap m
      → get k m ≡ some v
      → All (λ p. (str_eq p.0 k ≡ false) ⊎ (p.1 ≡ v)) m
  unfolding get
  get_unique k v [] u e = tt
  get_unique k v ((j, w) ∷ m) u e = elim (Bool-cases (str_eq j k)) [
    | inl q ↦
        let same : some w ≡ some v = rw q at e in
        let alone : get k m ≡ none = ground (arith, u.0, (eq_iff j k).0 q) in
        (inr (ground (arith, same)), All-map _ _ m (λ x h. inl h) (get-none-All k m alone))
    | inr q ↦ (inl q, get_unique k v m u.1 (rw q at e))
  ]

  -- A key that none of the items has is spared by their keys.
  pub spares_of_All :
      (k : String) (m : Dict V)
      → All (λ p. str_eq k p.0 ≡ false) m
      → spares (map (λ p. p.0) m) k ≡ true
  unfolding spares
  spares_of_All k [] a = refl
  spares_of_All k (p ∷ m) a = ground (arith, a.0, spares_of_All k m a.1)

  keep-none :
      (p : String × V → Bool) (k : String) (m : Dict V) → get k m ≡ none → get k (keep p m) ≡ none
  unfolding get
  keep-none p k [] e = e
  keep-none p k ((j, w) ∷ m) e = elim (Bool-cases (str_eq j k)) [
    | inl q ↦ let bad : some w ≡ none = rw q at e in absurd (cc)
    | inr q ↦ let later : get k m ≡ none = rw q at e in ground (arith, keep-none p k m later)
  ]

  pub keep-IsMap : (p : String × V → Bool) (m : Dict V) → IsMap m → IsMap (keep p m)
  keep-IsMap p [] u = tt
  keep-IsMap p ((j, w) ∷ m) u = elim (Bool-cases (p (j, w))) [
    | inl q ↦ rw q (keep-none p j m u.0, keep-IsMap p m u.1)
    | inr q ↦ rw q (keep-IsMap p m u.1)
  ]
