-- ===== src/Base/Dict.antt =====
-- The language's `Map` with text keys: an association list in the order of insertion.
pub mod Unique
pub mod Keep
pub mod Scoped
use Prim.Native.Nat.{ℕ, zero, suc, ◌+◌, ◌≤◌}
use Prim.Native.String.{String}
use mathlib.Core.Path.{◌≡◌, refl, ap, ◌∙◌, sym}
use mathlib.Core.Bool.{Bool, true, false, not}
use mathlib.Core.Logic.{inl, inr, ◌≢◌}
use mathlib.Core.List.{List, [], ◌∷◌, ◌++◌, map}
use mathlib.Core.Option.{Option, none, some}
use native.Mathlib.Omega.{arith}
use text.Mathlib.Text.{◌==◌ as str_eq}
use text.Mathlib.TextEquality.{eq_iff}
use text.Mathlib.TextPositions.{eq_refl}
use agent_pod.Base.Tests.{if◌then◌else◌, Bool-cases, ◌==◌}
use agent_pod.Base.Spares.{spares}
use agent_pod.Base.Lists.{keep_all, keep-keep, keep-ext, length, All, keep}

abbrev pub Dict {ℓ} : Type ℓ → Type ℓ
Dict V = List (String × V)

module _ {ℓ} {V : Type ℓ} where
  -- `m.get(k)`
  unfoldable pub get : String → Dict V → Option V
  get k [] = none
  get k ((j, v) ∷ m) = if str_eq j k then some v else get k m

  -- `m.set(k, v)`: in place if the key is there, at the end if not.
  unfoldable pub set : String → V → Dict V → Dict V
  set k v [] = (k, v) ∷ []
  set k v ((j, w) ∷ m) = if str_eq j k then (j, v) ∷ m else (j, w) ∷ set k v m

  -- `m.delete(k)`
  unfoldable pub delete : String → Dict V → Dict V
  delete k [] = []
  delete k ((j, w) ∷ m) = if str_eq j k then delete k m else (j, w) ∷ delete k m

  -- Mutating the object that the map holds under `k`.
  unfoldable pub modify : String → (V → V) → Dict V → Dict V
  modify k f [] = []
  modify k f ((j, w) ∷ m) = if str_eq j k then (j, f w) ∷ modify k f m else (j, w) ∷ modify k f m

  unfoldable pub values : Dict V → List V
  values [] = []
  values ((k, v) ∷ m) = v ∷ values m

  abbrev pub keys : Dict V → List String
  keys = map (λ p. p.0)

  -- Mutating every object that the map holds.
  unfoldable pub update_all : (V → V) → Dict V → Dict V
  update_all f [] = []
  update_all f ((k, v) ∷ m) = (k, f v) ∷ update_all f m

  -- Every key of the list is deleted.
  unfoldable pub delete_all : List String → Dict V → Dict V
  delete_all [] m = m
  delete_all (k ∷ ks) m = delete_all ks (delete k m)

  pub get-set :
      (k j : String) (v : V) (m : Dict V)
      → get j (set k v m) ≡ (if str_eq k j then some v else get j m)
  unfolding get set
  get-set k j v [] = refl
  get-set k j v ((i, w) ∷ m) = ground (arith, eq_iff k j, eq_iff i k, eq_iff i j, get-set k j v m)

  pub get-set_self : (k : String) (v : V) (m : Dict V) → get k (set k v m) ≡ some v
  get-set_self k v m = simp (get-set, eq_refl)

  pub get-delete :
      (k j : String) (m : Dict V) → get j (delete k m) ≡ (if str_eq k j then none else get j m)
  unfolding get delete
  get-delete k j [] = ground arith
  get-delete k j ((i, w) ∷ m) = ground (arith, eq_iff k j, eq_iff i k, eq_iff i j, get-delete k j m)

  pub length-set : (k : String) (v : V) (m : Dict V) → length (set k v m) ≤ length m + 1
  unfolding set
  length-set k v [] = omega arith
  length-set k v ((i, w) ∷ m) = ground (arith, length-set k v m)

  pub length-set_old :
      (k : String) (v : V) (m : Dict V) {v' : V} → get k m ≡ some v' → length (set k v m) ≡ length m
  unfolding set get
  length-set_old k v [] h = cc
  length-set_old k v ((i, w) ∷ m) {v'} h = ground (arith, length-set_old k v m {v' = v'})

  pub length-delete : (k : String) (m : Dict V) → length (delete k m) ≤ length m
  unfolding delete
  length-delete k [] = omega arith
  length-delete k ((i, w) ∷ m) = ground (arith, length-delete k m)

  pub delete-keep : (k : String) (m : Dict V) → delete k m ≡ keep (λ p. not (str_eq p.0 k)) m
  unfolding delete
  delete-keep k [] = refl
  delete-keep k ((i, w) ∷ m) = ground (arith, delete-keep k m)

  pub delete_all-keep :
      (ks : List String) (m : Dict V) → delete_all ks m ≡ keep (λ p. spares ks p.0) m
  unfolding delete_all spares
  delete_all-keep [] m = sym (keep_all m)
  delete_all-keep (k ∷ ks) m =
      delete_all-keep ks (delete k m)
      ∙ ap (keep (λ p. spares ks p.0)) (delete-keep k m)
      ∙ keep-keep (λ p. not (str_eq p.0 k)) (λ p. spares ks p.0) m
      ∙ keep-ext _ _ m (λ x. ground arith)
