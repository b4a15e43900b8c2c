-- ===== src/Base/Dict/Scoped.antt =====
-- Records of several users: a map by user of maps by id.
use Prim.Native.String.{String}
use mathlib.Core.Path.{◌≡◌, refl}
use mathlib.Core.Bool.{Bool, true, ◌&&◌}
use mathlib.Core.Logic.{inl, inr}
use mathlib.Core.Option
use mathlib.Core.Option.{Option, none, some}
use native.Mathlib.Omega.{arith}
use text.Mathlib.Text.{◌==◌ as str_eq}
use text.Mathlib.TextEquality.{eq_iff}
use text.Mathlib.TextPositions.{eq_refl}
use agent_pod.Base.Tests.{if◌then◌else◌, Bool-cases, Option-cases}
use agent_pod.Base.Results.{◌>>=◌}
use agent_pod.Base.Dict.{Dict, get, modify, delete, get-delete}
use agent_pod.Base.Dict.Unique.{get-modify}

-- Whether both are the key of the same record.
abbrev pub same_key : String → String → String → String → Bool
same_key u i v j = str_eq u v && str_eq i j

pub same_key_self : (u i : String) → same_key u i u i ≡ true
same_key_self u i = rw (eq_refl u, eq_refl i) refl

pub same_names : (u i v j : String) → same_key u i v j ≡ true → (u ≡ v) × (i ≡ j)
same_names u i v j h = ((eq_iff u v).0 (ground arith), (eq_iff i j).0 (ground (arith, eq_iff u v)))

module _ {ℓ} {V : Type ℓ} where
  abbrev pub look : String → String → Dict (Dict V) → Option V
  look u i s = get u s >>= λ m. get i m

  -- Mutating the record that is found.
  abbrev pub change : String → String → (V → V) → Dict (Dict V) → Dict (Dict V)
  change u i f s = modify u (λ m. modify i f m) s

  abbrev pub remove : String → String → Dict (Dict V) → Dict (Dict V)
  remove u i s = modify u (λ m. delete i m) s

  pub look-change :
      (u i v j : String) (f : V → V) (s : Dict (Dict V))
      → look v j (change u i f s)
        ≡ (if same_key u i v j then Option.map f (look v j s) else look v j s)
  look-change u i v j f s = elim (Option-cases (get v s)) [
    | inl e ↦ rw (get-modify, e) (ground arith)
    | inr (m, e) ↦ elim (Bool-cases (str_eq u v)) [
      | inl q ↦ rw (get-modify, e, q) (get-modify i j f m)
      | inr q ↦ rw (get-modify, e, q) refl
    ]
  ]

  pub look-change_own :
      (u i : String) (f : V → V) (s : Dict (Dict V)) {v : V}
      → look u i s ≡ some v
      → look u i (change u i f s) ≡ some (f v)
  look-change_own u i f s h = rw (look-change u i u i f s, same_key_self u i, h) refl

  pub look-remove :
      (u i v j : String) (s : Dict (Dict V))
      → look v j (remove u i s) ≡ (if same_key u i v j then none else look v j s)
  look-remove u i v j s = elim (Option-cases (get v s)) [
    | inl e ↦ rw (get-modify, e) (ground arith)
    | inr (m, e) ↦ elim (Bool-cases (str_eq u v)) [
      | inl q ↦ rw (get-modify, e, q) (get-delete i j m)
      | inr q ↦ rw (get-modify, e, q) refl
    ]
  ]
