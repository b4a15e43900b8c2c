-- ===== src/Base/Text.antt =====
-- The language's texts where their characters count: lists of UTF-16 code units.
use Prim.Native.Nat.{ℕ, zero, suc, ◌+◌, ◌-◌, ◌*◌, ◌/◌, ◌%◌, ◌≤◌, ◌<◌}
use mathlib.Core.Path.{◌≡◌, refl}
use mathlib.Core.Bool.{Bool, true, false, ◌||◌, ◌&&◌}
use mathlib.Core.Logic.{inl, inr}
use mathlib.Core.List.{List, [], ◌∷◌, ◌++◌}
use native.Mathlib.Omega.{arith}
use agent_pod.Base.Tests.{if◌then◌else◌, Bool-cases, ltb, leb, ◌==◌}
use agent_pod.Base.Lists.{length, take, length-take-le, length-append}

abbrev pub Text : Type 0
Text = List ℕ

abbrev within : ℕ → ℕ → ℕ → Bool
within lo hi c = leb lo c && leb c hi

-- `\s`, and what `trim` takes away.
abbrev pub is_space : ℕ → Bool
is_space c =
    within 9 13 c
    || c == 32
    || c == 160
    || c == 0x1680
    || within 0x2000 0x200a c
    || c == 0x2028
    || c == 0x2029
    || c == 0x202f
    || c == 0x205f
    || c == 0x3000
    || c == 0xfeff

-- `s.trimStart()`
unfoldable pub trim_start : Text → Text
trim_start [] = []
trim_start (c ∷ s) = if is_space c then trim_start s else c ∷ s

-- Without the spaces at the end.
unfoldable pub trim_end : Text → Text
trim_end [] = []
trim_end (c ∷ s) = put c (trim_end s)
  where
    put : ℕ → Text → Text
    put c [] = if is_space c then [] else c ∷ []
    put c (d ∷ s) = c ∷ d ∷ s

-- `s.trim()`
abbrev pub trim : Text → Text
trim s = trim_end (trim_start s)

-- `s.replace(/\s+/g, ' ')`, after a space or not.
unfoldable pub squeeze_from : Bool → Text → Text
squeeze_from after [] = []
squeeze_from after (c ∷ s) =
    let rest = squeeze_from (is_space c) s in
    if is_space c then if after then rest else 32 ∷ rest else c ∷ rest

abbrev pub squeeze : Text → Text
squeeze = squeeze_from false

-- `s.split(c)`
unfoldable pub split : ℕ → Text → List Text
split c [] = [] ∷ []
split c (d ∷ s) = cut (d == c) (split c s)
  where
    cut : Bool → List Text → List Text
    cut true parts = [] ∷ parts
    cut false [] = (d ∷ []) ∷ []
    cut false (p ∷ ps) = (d ∷ p) ∷ ps

-- `'…'`, one unit.
abbrev pub ellipsis : Text
ellipsis = 0x2026 ∷ []

-- What does not fit is cut off, and an ellipsis says so.
unfoldable pub truncate : Text → ℕ → Text
truncate s n = if leb (length s) n then s else take (n - 1) s ++ ellipsis

pub truncate-le : (s : Text) (n : ℕ) → 0 < n → length (truncate s n) ≤ n
unfolding truncate
truncate-le s n h =
    ground (arith, length-take-le (n - 1) s, length-append (take (n - 1) s) ellipsis)

-- `s === t`
unfoldable pub same : Text → Text → Bool
same [] [] = true
same [] (d ∷ t) = false
same (c ∷ s) [] = false
same (c ∷ s) (d ∷ t) = c == d && same s t

-- `s <= t`, by the code units.
unfoldable pub no_later : Text → Text → Bool
no_later [] t = true
no_later (c ∷ s) [] = false
no_later (c ∷ s) (d ∷ t) = ltb c d || (c == d && no_later s t)

unfoldable pub insert : Text → List Text → List Text
insert s [] = s ∷ []
insert s (t ∷ ts) = if no_later s t then s ∷ t ∷ ts else t ∷ insert s ts

-- `ts.sort()`
unfoldable pub sort : List Text → List Text
sort [] = []
sort (t ∷ ts) = insert t (sort ts)

-- `ts.join(by)`
unfoldable pub join : Text → List Text → Text
join by [] = []
join by (t ∷ []) = t
join by (t ∷ u ∷ ts) = t ++ by ++ join by (u ∷ ts)

-- The decimal digits of a number, from the last on; as many as the fuel allows.
digits : ℕ → ℕ → Text
digits zero n = []
digits (suc fuel) n =
    let rest = digits fuel (n / 10) in
    if ltb n 10 then (48 + n) ∷ [] else rest ++ (48 + n % 10) ∷ []

-- `String(n)`; no number has more digits than it has units and one.
unfoldable pub decimal : ℕ → Text
unfolding digits
decimal n = digits (suc n) n

pub same_refl : (s : Text) → same s s ≡ true
unfolding same
same_refl [] = refl
same_refl (c ∷ s) = ground (arith, same_refl s)

pub same→≡ : (s t : Text) → same s t ≡ true → s ≡ t
unfolding same
same→≡ [] [] h = refl
same→≡ [] (d ∷ t) h = absurd (cc)
same→≡ (c ∷ s) [] h = absurd (cc)
same→≡ (c ∷ s) (d ∷ t) h = elim (Bool-cases (c == d)) [
  | inl e ↦
      let q : c ≡ d = ground arith in
      let k : same s t ≡ true = rw e at h in λ i. q i ∷ same→≡ s t k i
  | inr e ↦ let bad : false ≡ true = rw e at h in absurd (cc)
]

-- The number that digits stand for, with those before them.
abbrev pub value_from : ℕ → Text → ℕ
value_from n [] = n
value_from n (c ∷ s) = value_from (n * 10 + (c - 48)) s

value-append :
    (n : ℕ) (s : Text) (c : ℕ) → value_from n (s ++ c ∷ []) ≡ value_from n s * 10 + (c - 48)
value-append n [] c = refl
value-append n (d ∷ s) c = value-append (n * 10 + (d - 48)) s c

value-digits : (fuel n : ℕ) → n < fuel → value_from 0 (digits fuel n) ≡ n
unfolding digits
value-digits zero n h = absurd (omega arith)
value-digits (suc fuel) n h = elim (Bool-cases (ltb n 10)) [
  | inl e ↦ rw (digits, e) (omega arith)
  | inr e ↦
      let big : 10 ≤ n = ground arith in
      let ih : value_from 0 (digits fuel (n / 10)) ≡ n / 10 =
        value-digits fuel (n / 10) (omega arith) in
      rw (digits, e, value-append 0 (digits fuel (n / 10)) (48 + n % 10), ih) (omega arith)
]

-- Enough fuel: the digits stand for the number.
pub value-decimal : (n : ℕ) → value_from 0 (decimal n) ≡ n
unfolding decimal
value-decimal n = value-digits (suc n) n (omega arith)
