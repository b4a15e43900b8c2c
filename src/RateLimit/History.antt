-- ===== src/RateLimit/History.antt =====
-- src/http/rate-limit.js: one key through a history of calls at times that never go back.
use agent_pod.Base.{
  ℕ, ◌+◌, ◌≤◌, ◌<◌, ◌*◌, ◌^◌, ◌≡◌, refl, ap, List, [], ◌∷◌, ◌++◌, arith, ltb, length, length-append,
  All, All-append, if◌then◌else◌, Bool-cases, inl, inr, not_ltb→le, ltb→lt, length-keep-le,
}
use agent_pod.RateLimit.Limiter.{Options, Entry, fresh, Verdict, in_window, admit}
use agent_pod.RateLimit.Window.{
  block_of, pow_pos, admit_blocked, admit_over, admit_under, in_window-append, in_window_again,
  in_window_mono, in_window_old,
}

-- The times that were let through so far.
abbrev pub log_after : Verdict → ℕ → List ℕ → List ℕ
log_after v at log = if v.is_ok then log ++ at ∷ [] else log

unfoldable pub run : Options → List ℕ → Entry → List ℕ → Entry × List ℕ
run o [] e log = (e, log)
run o (at ∷ ts) e log = run o ts (admit o at e).0 (log_after (admit o at e).1 at log)

abbrev pub Rising : ℕ → List ℕ → Type 0
Rising now [] = Unit {0}
Rising now (at ∷ ts) = (now ≤ at) × Rising at ts

abbrev pub last_of : ℕ → List ℕ → ℕ
last_of now [] = now
last_of now (at ∷ ts) = last_of at ts

-- The log and the stamps of the entry agree on every window that ends after the block.
record Agree (o : Options) (now : ℕ) (e : Entry) (log : List ℕ) : Type 0 where
  bounded : length e.stamps ≤ o.limit
  past : All (λ x. x ≤ now) log
  same :
      (t : ℕ)
      → now ≤ t
      → e.blocked_until ≤ t
      → length (in_window o t log) ≡ length (in_window o t e.stamps)
  few : length (in_window o now log) ≤ o.limit

All-le_trans : (m n : ℕ) (xs : List ℕ) → m ≤ n → All (λ x. x ≤ m) xs → All (λ x. x ≤ n) xs
All-le_trans m n [] h k = tt
All-le_trans m n (x ∷ xs) h k = (omega arith, All-le_trans m n xs h k.1)

past_old :
    (w at t b : ℕ) (xs : List ℕ)
    → All (λ x. x ≤ at) xs
    → w ≤ b
    → at + b ≤ t
    → All (λ x. x + w ≤ t) xs
past_old w at t b [] h k l = tt
past_old w at t b (x ∷ xs) h k l = (omega arith, past_old w at t b xs h.1 k l)

module _ (o : Options) (now at : ℕ) (e : Entry) (log : List ℕ) (h : now ≤ at)
    (a : Agree o now e log) where
  past_at : All (λ x. x ≤ at) log
  past_at = All-le_trans now at log h a.past

  -- One more stamp in both.
  same_after :
      (t : ℕ)
      → at ≤ t
      → e.blocked_until ≤ at
      → length (in_window o t (log ++ at ∷ []))
        ≡ length (in_window o t (in_window o at e.stamps ++ at ∷ []))
  same_after t k l = omega (
    arith,
    ap length (in_window-append o t log (at ∷ [])),
    ap length (in_window-append o t (in_window o at e.stamps) (at ∷ [])),
    ap length (in_window_again o at t e.stamps k),
    length-append (in_window o t log) (in_window o t (at ∷ [])),
    length-append (in_window o t (in_window o at e.stamps)) (in_window o t (at ∷ [])),
    a.same t (omega arith) (omega arith),
  )

  stamps_few :
      length (in_window o at (in_window o at e.stamps ++ at ∷ []))
      ≤ length (in_window o at e.stamps) + 1
  unfolding in_window
  stamps_few = omega (
    arith,
    length-keep-le (λ stamp. ltb at (stamp + o.window_ms)) (in_window o at e.stamps ++ at ∷ []),
    length-append (in_window o at e.stamps) (at ∷ []),
  )

  Agree-under :
      e.blocked_until ≤ at
      → length (in_window o at e.stamps) < o.limit
      → Agree o at (record e { stamps = in_window o at e.stamps ++ at ∷ [] }) (log ++ at ∷ [])
  Agree-under u s = record {
    bounded = omega (arith, length-append (in_window o at e.stamps) (at ∷ []));
    past = All-append (λ x. x ≤ at) log (at ∷ []) past_at (omega arith, tt);
    same = λ t k l. same_after t k u;
    few = omega (arith, same_after at (omega arith) u, stamps_few);
  }

  Agree-over :
      (k : ℕ)
      → e.blocked_until ≤ at
      → o.window_ms ≤ block_of o k
      → Agree o at (record { stamps = []; strikes = k + 1; blocked_until = at + block_of o k }) log
  unfolding in_window
  Agree-over k u long = record {
    bounded = omega arith;
    past = past_at;
    same = λ t j l. ap length (in_window_old o t log (past_old _ at t _ log past_at long l));
    few = omega (arith, in_window_mono o now at log h, a.few);
  }

  Agree-blocked : Agree o at e log
  Agree-blocked = record {
    bounded = a.bounded;
    past = past_at;
    same = λ t k l. a.same t (omega arith) l;
    few = omega (arith, in_window_mono o now at log h, a.few);
  }

module _ (o : Options) (long : o.window_ms ≤ o.base_block_ms)
    (cap : o.window_ms ≤ o.max_block_ms) where
  block_long : (k : ℕ) → o.window_ms ≤ block_of o k
  block_long k =
      let p : o.base_block_ms ≤ o.base_block_ms * 2 ^ k = grind (arith, pow_pos k) in omega arith

  Agree-step :
      (now at : ℕ) (e : Entry) (log : List ℕ)
      → now ≤ at
      → Agree o now e log
      → Agree o at (admit o at e).0 (log_after (admit o at e).1 at log)
  Agree-step now at e log h a = elim (Bool-cases (ltb at e.blocked_until)) [
    | inl b ↦ rw (admit_blocked o at e (ltb→lt _ _ b)) (Agree-blocked o now at e log h a)
    | inr b ↦ elim (Bool-cases (ltb (length (in_window o at e.stamps)) o.limit)) [
      | inl s ↦
          rw (admit_under o at e (not_ltb→le _ _ b) (ltb→lt _ _ s))
            (Agree-under o now at e log h a (not_ltb→le _ _ b) (ltb→lt _ _ s))
      | inr s ↦
          rw (admit_over o at e (not_ltb→le _ _ b) (not_ltb→le _ _ s))
            (Agree-over o now at e log h a e.strikes (not_ltb→le _ _ b) (block_long e.strikes))
    ]
  ]

  Agree-run :
      (now : ℕ) (ts : List ℕ) (e : Entry) (log : List ℕ)
      → Rising now ts
      → Agree o now e log
      → Agree o (last_of now ts) (run o ts e log).0 (run o ts e log).1
  unfolding run
  Agree-run now [] e log r a = a
  Agree-run now (at ∷ ts) e log r a = Agree-run at ts _ _ r.1 (Agree-step now at e log r.0 a)

  -- Where a block lasts at least as long as the window, then after any history of calls for one
  -- key, at times that never go back, at most `max` of the calls that were let through lie in the
  -- window that ends at the last call: the entry may forget its stamps without losing the bound.
  pub run-window_bound :
      (ts : List ℕ)
      → Rising 0 ts
      → length (in_window o (last_of 0 ts) (run o ts fresh []).1) ≤ o.limit
  unfolding in_window
  run-window_bound ts r = (Agree-run 0 ts fresh [] r start).few
    where
      start : Agree o 0 fresh []
      start = record { bounded = omega arith; past = tt; same = λ t k l. refl; few = omega arith }
