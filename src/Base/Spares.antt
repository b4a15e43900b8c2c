-- ===== src/Base/Spares.antt =====
-- Deleting by a list of keys: which keys are left alone.
use Prim.Native.String.{String}
use mathlib.Core.Path.{◌≡◌, refl, subst}
use mathlib.Core.Bool.{Bool, true, false}
use mathlib.Core.List.{List, [], ◌∷◌, ◌++◌, map, append_assoc}
use native.Mathlib.Omega.{arith}
use text.Mathlib.Text.{◌==◌ as str_eq}
use text.Mathlib.TextPositions.{eq_refl}
use agent_pod.Base.Tests.{if◌then◌else◌}
use agent_pod.Base.Lists.{keep}

-- Whether the key is none of these.
unfoldable pub spares : List String → String → Bool
spares [] j = true
spares (k ∷ ks) j = if str_eq j k then false else spares ks j

-- A listed key is not spared.
spares-mem : (ks ls : List String) (k : String) → spares (ks ++ k ∷ ls) k ≡ false
unfolding spares
spares-mem [] ls k = rw eq_refl
spares-mem (j ∷ ks) ls k = ground (arith, spares-mem ks ls k)

module _ {ℓ} {A : Type ℓ} (key : A → String) where
  spares_none :
      (pre : List String) (xs : List A) → keep (λ x. spares (pre ++ map key xs) (key x)) xs ≡ []
  spares_none pre [] = refl
  spares_none pre (x ∷ xs) = rw (spares-mem pre (map key xs) (key x)) (
      subst (λ ks. keep (λ y. spares ks (key y)) xs ≡ [])
        (append_assoc pre (key x ∷ []) (map key xs)) (spares_none (pre ++ key x ∷ []) xs))

  -- No item of a list is spared by the list of all their keys.
  pub keep-spares_self : (xs : List A) → keep (λ x. spares (map key xs) (key x)) xs ≡ []
  keep-spares_self xs = spares_none [] xs
