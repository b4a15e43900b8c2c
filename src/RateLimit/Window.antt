-- ===== src/RateLimit/Window.antt =====
-- src/http/rate-limit.js: what `consume` does to the entry of its key.
use native.Mathlib.Nat.{pow-suc}
use agent_pod.Base.{
  ℕ, zero, suc, ◌+◌, ◌-◌, ◌*◌, ◌^◌, ◌≤◌, ◌<◌, min, ◌≡◌, refl, List, [], ◌∷◌, ◌++◌, arith, length,
  length-append, All,
}
use agent_pod.RateLimit.Limiter.{Options, Entry, allowed, refused, in_window, admit}

-- Between two calls an entry holds at most `max` stamps.
abbrev pub IsBounded : Options → Entry → Type 0
IsBounded o e = length e.stamps ≤ o.limit

pub pow_pos : (k : ℕ) → 1 ≤ 2 ^ k
pow_pos zero = omega arith
pow_pos (suc k) = omega (arith, pow-suc 2 k, pow_pos k)

abbrev pub block_of : Options → ℕ → ℕ
block_of o strikes = min (o.base_block_ms * 2 ^ strikes) o.max_block_ms

module _ (o : Options) where
  pub admit-IsBounded : (at : ℕ) (e : Entry) → IsBounded o e → IsBounded o (admit o at e).0
  unfolding admit
  admit-IsBounded at e h = ground arith

  -- While the block lasts the call is refused, is told the time that is left, and changes nothing.
  pub admit_blocked :
      (at : ℕ) (e : Entry)
      → at < e.blocked_until
      → admit o at e ≡ (e, refused (e.blocked_until - at))
  unfolding admit
  admit_blocked at e h = ground arith

  -- One call too many in the window.
  pub admit_over :
      (at : ℕ) (e : Entry)
      → e.blocked_until ≤ at
      → o.limit ≤ length (in_window o at e.stamps)
      → admit o at e ≡ (
        record { stamps = []; strikes = e.strikes + 1; blocked_until = at + block_of o e.strikes },
        refused (block_of o e.strikes),
      )
  unfolding admit
  admit_over at e h k = ground (arith, length-append (in_window o at e.stamps) (at ∷ []))

  pub admit_under :
      (at : ℕ) (e : Entry)
      → e.blocked_until ≤ at
      → length (in_window o at e.stamps) < o.limit
      → admit o at e ≡ (record e { stamps = in_window o at e.stamps ++ at ∷ [] }, allowed)
  unfolding admit
  admit_under at e h k = ground (arith, length-append (in_window o at e.stamps) (at ∷ []))

  pub in_window-append :
      (t : ℕ) (xs ys : List ℕ) → in_window o t (xs ++ ys) ≡ in_window o t xs ++ in_window o t ys
  unfolding in_window
  in_window-append t [] ys = refl
  in_window-append t (x ∷ xs) ys = ground (arith, in_window-append t xs ys)

  -- A later window drops all that an earlier one did.
  pub in_window_again :
      (s t : ℕ) (xs : List ℕ) → s ≤ t → in_window o t (in_window o s xs) ≡ in_window o t xs
  unfolding in_window
  in_window_again s t [] h = refl
  in_window_again s t (x ∷ xs) h = ground (arith, in_window_again s t xs)

  pub in_window_mono :
      (s t : ℕ) (xs : List ℕ) → s ≤ t → length (in_window o t xs) ≤ length (in_window o s xs)
  unfolding in_window
  in_window_mono s t [] h = omega arith
  in_window_mono s t (x ∷ xs) h = ground (arith, in_window_mono s t xs)

  pub in_window_old :
      (t : ℕ) (xs : List ℕ) → All (λ x. x + o.window_ms ≤ t) xs → in_window o t xs ≡ []
  unfolding in_window
  in_window_old t [] h = refl
  in_window_old t (x ∷ xs) h = ground (arith, in_window_old t xs h.1, h.0)
