-- ===== src/Cron/Fields/Steps.antt =====
-- src/cron/schedule.js: which values a piece of a field admits.
use agent_pod.Base.{
  ℕ, zero, suc, ◌+◌, ◌-◌, ◌*◌, ◌≤◌, ◌<◌, ◌≡◌, ◌↔◌, ◌⊎◌, refl, List, ◌∷◌, none, some, true, false,
  arith, ◌==◌, ltb, leb, leb→le, ◌||◌, Bool-cases, inl, inr,
}
use agent_pod.Cron.Fields.{Piece, Limits, stepped, has, step_of, ends_of, values_of}

-- A whole number of steps from the first value, and not beyond the last.
abbrev pub IsStep : ℕ → ℕ → ℕ → ℕ → Type 0
IsStep value last step x = (k : ℕ) × (x ≡ value + k * step) × (x ≤ last)

has-head :
    (x value : ℕ) (rest : List ℕ) → has x (value ∷ rest) ≡ true → (value ≡ x) ⊎ (has x rest ≡ true)
has-head x value rest h = elim (Bool-cases (value == x)) [
  | inl e ↦ inl (ground (arith, e))
  | inr e ↦ inr (rw e at h)
]

stepped-IsStep :
    (rounds x value last step : ℕ)
    → has x (stepped rounds value last step) ≡ true
    → IsStep value last step x
unfolding stepped
stepped-IsStep zero x value last step h = absurd (cc)
stepped-IsStep (suc rounds) x value last step h = elim (Bool-cases (leb value last)) [
  | inr e ↦ let bad : false ≡ true = rw e at h in absurd (cc)
  | inl e ↦ elim (has-head x value (stepped rounds (value + step) last step) (rw e at h)) [
    | inl q ↦ (0, omega (arith, q), omega (arith, q, leb→le _ _ e))
    | inr q ↦
        let (k, same, below) = stepped-IsStep rounds x (value + step) last step q in
        (suc k, omega (arith, same), below)
  ]
]

IsStep-stepped :
    (rounds x value last step k : ℕ)
    → 1 ≤ step
    → last < value + rounds
    → x ≡ value + k * step
    → x ≤ last
    → has x (stepped rounds value last step) ≡ true
unfolding stepped
IsStep-stepped zero x value last step k s r e b = absurd (omega arith)
IsStep-stepped (suc rounds) x value last step zero s r e b =
    let first : value ≡ x = omega (arith, e) in
    let fits : leb value last ≡ true = ground (arith, first, b) in rw fits (ground (arith, first))
IsStep-stepped (suc rounds) x value last step (suc k) s r e b =
    let fits : leb value last ≡ true = ground (arith, e, b) in
    let later : x ≡ (value + step) + k * step = omega (arith, e) in
    rw fits
      (ground (arith, IsStep-stepped rounds x (value + step) last step k s (omega arith) later b))

step_of-positive : (p : Piece) (n : ℕ) → step_of p ≡ some n → 1 ≤ n
step_of-positive p n h =
    elim p.step as (λ s. step_of (record p { step = s }) ≡ some n → 1 ≤ n) [
      | none ↦ λ h. ground (arith, h)
      | some none ↦ λ h. absurd (cc)
      | some (some m) ↦ λ h. ground (arith, h)
    ]
      h

-- A piece whose ends are in order and within the limits of its field admits exactly the values that
-- are a whole number of its steps above the first end and not above the last.
pub values_of-IsStep :
    (limits : Limits) (p : Piece) (first last step : ℕ)
    → step_of p ≡ some step
    → ends_of limits p ≡ some (first, last)
    → limits.min ≤ first
    → first ≤ last
    → last ≤ limits.max
    → (vs : List ℕ) × (values_of limits p ≡ some vs)
      × ((x : ℕ) → (has x vs ≡ true) ↔ IsStep first last step x)
unfolding values_of
values_of-IsStep limits p first last step s e low order high =
    let positive = step_of-positive p step s in
    let rounds = suc (last - first) in
    let inside : (ltb first limits.min || ltb limits.max last || ltb last first) ≡ false =
      ground (arith, low, order, high) in
    (
      stepped rounds first last step,
      rw (values_of, s, e, inside) refl,
      λ x. (
        (λ h. let (k, same, below) = stepped-IsStep rounds x first last step h in (k, same, below)),
        (λ (k, same, below).
            IsStep-stepped rounds x first last step k positive (omega (arith, order)) same below),
      ),
    )
