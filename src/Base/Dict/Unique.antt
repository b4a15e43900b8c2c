-- ===== src/Base/Dict/Unique.antt =====
-- Maps with each key once, and what holds of all their entries.
use Prim.Native.String.{String}
use mathlib.Core.Path.{◌≡◌, refl, ap, sym, ◌∙◌, subst}
use mathlib.Core.Bool.{false}
use mathlib.Core.Logic.{inl, inr}
use mathlib.Core.List.{[], ◌∷◌}
use mathlib.Core.Option
use mathlib.Core.Option.{Option, none, some}
use native.Mathlib.Omega.{arith}
use text.Mathlib.Text.{◌==◌ as str_eq}
use text.Mathlib.TextEquality.{eq_iff}
use text.Mathlib.TextPositions.{eq_refl}
use agent_pod.Base.Tests.{if◌then◌else◌, Bool-cases}
use agent_pod.Base.Lists.{All, Has}
use agent_pod.Base.Dict.{Dict, get, set, delete, update_all, modify, values, get-set, get-delete}

module _ {ℓ} {V : Type ℓ} where
  abbrev pub IsMap : Dict V → Type ℓ
  IsMap [] = Unit
  IsMap ((k, v) ∷ m) = (get k m ≡ none) × IsMap m

  pub set-IsMap : (k : String) (v : V) (m : Dict V) → IsMap m → IsMap (set k v m)
  unfolding set get
  set-IsMap k v [] h = (refl, tt)
  set-IsMap k v ((j, w) ∷ m) h = elim (Bool-cases (str_eq j k)) [
    | inl e ↦ rw e h
    | inr e ↦
        rw e (ground (arith, get-set k j v m, eq_iff j k, eq_iff k j, h.0), set-IsMap k v m h.1)
  ]

  pub delete-IsMap : (k : String) (m : Dict V) → IsMap m → IsMap (delete k m)
  unfolding delete
  delete-IsMap k [] h = tt
  delete-IsMap k ((j, w) ∷ m) h = elim (Bool-cases (str_eq j k)) [
    | inl e ↦ rw e (delete-IsMap k m h.1)
    | inr e ↦ rw e (ground (arith, get-delete k j m, h.0), delete-IsMap k m h.1)
  ]

  pub get-update_all :
      (f : V → V) (k : String) (m : Dict V) → get k (update_all f m) ≡ Option.map f (get k m)
  unfolding get update_all
  get-update_all f k [] = refl
  get-update_all f k ((j, w) ∷ m) = ground (arith, get-update_all f k m)

  pub get-modify :
      (k j : String) (f : V → V) (m : Dict V)
      → get j (modify k f m) ≡ (if str_eq k j then Option.map f (get j m) else get j m)
  unfolding get modify
  get-modify k j f [] = ground arith
  get-modify k j f ((i, w) ∷ m) =
      ground (arith, eq_iff k j, eq_iff i k, eq_iff i j, get-modify k j f m)

  pub modify-none :
      (k j : String) (f : V → V) (m : Dict V) → get j m ≡ none → get j (modify k f m) ≡ none
  modify-none k j f m h = rw (get-modify, h) (ground arith)

  pub update_all-IsMap : (f : V → V) (m : Dict V) → IsMap m → IsMap (update_all f m)
  unfolding update_all
  update_all-IsMap f [] h = tt
  update_all-IsMap f ((j, w) ∷ m) h =
      (get-update_all f j m ∙ ap (Option.map f) h.0, update_all-IsMap f m h.1)

  pub modify-IsMap : (k : String) (f : V → V) (m : Dict V) → IsMap m → IsMap (modify k f m)
  unfolding modify
  modify-IsMap k f [] h = tt
  modify-IsMap k f ((j, w) ∷ m) h = elim (Bool-cases (str_eq j k)) [
    | inl e ↦ rw e (modify-none k j f m h.0, modify-IsMap k f m h.1)
    | inr e ↦ rw e (modify-none k j f m h.0, modify-IsMap k f m h.1)
  ]

pair_path {ℓ} :
    {V : Type ℓ} {j k : String} {v w : V} → j ≡ k → v ≡ w → ◌≡◌ {A = String × V} (j, v) (k, w)
pair_path p q = λ i. (p i, q i)

module _ {ℓ κ} {V : Type ℓ} (P : String × V → Type κ) where
  pub set-All : (k : String) (v : V) (m : Dict V) → P (k, v) → All P m → All P (set k v m)
  unfolding set
  set-All k v [] h a = (h, tt)
  set-All k v ((j, w) ∷ m) h a = elim (Bool-cases (str_eq j k)) [
    | inl e ↦ rw e (subst (λ i. P (i, v)) (sym ((eq_iff j k).0 e)) h, a.1)
    | inr e ↦ rw e (a.0, set-All k v m h a.1)
  ]

  pub delete-All : (k : String) (m : Dict V) → All P m → All P (delete k m)
  unfolding delete
  delete-All k [] a = tt
  delete-All k ((j, w) ∷ m) a = elim (Bool-cases (str_eq j k)) [
    | inl e ↦ rw e (delete-All k m a.1)
    | inr e ↦ rw e (a.0, delete-All k m a.1)
  ]

  pub get-All : (k : String) (m : Dict V) {v : V} → All P m → get k m ≡ some v → P (k, v)
  unfolding get
  get-All k [] a e = absurd (cc)
  get-All k ((j, w) ∷ m) {v} a e = elim (Bool-cases (str_eq j k)) [
    | inl q ↦
        let same : some w ≡ some v = rw q at e in
        subst P (pair_path ((eq_iff j k).0 q) (ground arith)) a.0
    | inr q ↦ get-All k m a.1 (rw q at e)
  ]

  pub update_all-All :
      (f : V → V) (m : Dict V)
      → ((k : String) (v : V) → P (k, v) → P (k, f v))
      → All P m
      → All P (update_all f m)
  unfolding update_all
  update_all-All f [] h a = tt
  update_all-All f ((j, w) ∷ m) h a = (h j w a.0, update_all-All f m h a.1)

  pub modify-All :
      (k : String) (f : V → V) (m : Dict V)
      → ((j : String) (v : V) → P (j, v) → P (j, f v))
      → All P m
      → All P (modify k f m)
  unfolding modify
  modify-All k f [] h a = tt
  modify-All k f ((j, w) ∷ m) h a = elim (Bool-cases (str_eq j k)) [
    | inl e ↦ rw e (h j w a.0, modify-All k f m h a.1)
    | inr e ↦ rw e (a.0, modify-All k f m h a.1)
  ]

-- What is left after a deletion has other keys.
pub delete-keys {ℓ} :
    {V : Type ℓ} (k : String) (m : Dict V) → All (λ p. str_eq p.0 k ≡ false) (delete k m)
unfolding delete
delete-keys k [] = tt
delete-keys k ((j, w) ∷ m) = elim (Bool-cases (str_eq j k)) [
  | inl e ↦ rw e (delete-keys k m)
  | inr e ↦ rw e (e, delete-keys k m)
]

-- A value of a map whose values know their keys is found under its key.
pub get_of_Has :
    {V : Type 0} (key : V → String) (v : V) (m : Dict V)
    → IsMap m
    → All (λ p. key p.1 ≡ p.0) m
    → Has v (values m)
    → get (key v) m ≡ some v
unfolding get values
get_of_Has key v [] u a h = absurd h
get_of_Has key v ((j, w) ∷ m) u a (inl e) =
    rw ((eq_iff j (key v)).1 (sym a.0 ∙ ap key e)) (ap some e)
get_of_Has key v ((j, w) ∷ m) u a (inr h) =
    let found = get_of_Has key v m u.1 a.1 h in
    elim (Bool-cases (str_eq j (key v))) [
      | inl q ↦
          let gone : get (key v) m ≡ none =
            subst (λ i. get i m ≡ none) ((eq_iff j (key v)).0 q) u.0 in
          absurd (cc)
      | inr q ↦ rw q found
    ]

pub get-none-All {ℓ} :
    {V : Type ℓ} (k : String) (m : Dict V) → get k m ≡ none → All (λ p. str_eq p.0 k ≡ false) m
unfolding get
get-none-All k [] h = tt
get-none-All k ((j, w) ∷ m) h = elim (Bool-cases (str_eq j k)) [
  | inl e ↦ let bad : some w ≡ none = rw e at h in absurd (cc)
  | inr e ↦ (e, get-none-All k m (rw e at h))
]

pub delete-set {ℓ} :
    {V : Type ℓ} (k : String) (v : V) (m : Dict V) → get k m ≡ none → delete k (set k v m) ≡ m
unfolding get set delete
delete-set k v [] h = rw eq_refl
delete-set k v ((j, w) ∷ m) h = elim (Bool-cases (str_eq j k)) [
  | inl e ↦ let bad : some w ≡ none = rw e at h in absurd (cc)
  | inr e ↦ rw (e, e) (ap (◌∷◌ (j, w)) (delete-set k v m (rw e at h)))
]
