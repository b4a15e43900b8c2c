-- ===== src/Sandbox/Sticky/Exclusive.antt =====
-- src/sandbox/sticky.js: the run that was given a sandbox is the only one that gets it.
use agent_pod.Base.{
  ℕ, ◌≡◌, refl, sym, ap, ◌∙◌, String, List, [], ◌∷◌, none, some, Bool, true, false, not, ◌&&◌,
  arith, str_eq, eq_iff, All, Bool-cases, Option-cases, inl, inr,
}
use agent_pod.Base.Dict
use agent_pod.Base.Dict.{Dict}
use agent_pod.Base.Dict.Unique
use agent_pod.Sandbox.Sticky.Held.{
  holds, HoldsFor, AllHeld, AllHeld-delete, AllHeld-set, AllHeld-evict, AllHeld-same,
}
use agent_pod.Sandbox.Sticky.{
  Parked, Entry, Entries, Claim, key_of, held_by, is_taken, is_expired, placeholder, claim, keep,
  drop, forget,
}

-- A call on the table, with the time where it reads the clock.
pub data Call : Type 0 where
  on_claim : ℕ → String → String → String → Call
  on_keep : String → String → String → Parked → ℕ → Call
  on_drop : String → String → String → Call
  on_forget : String → String → String → Call

-- Whether a claim was answered with the lease.
abbrev pub hands : String → Claim → Bool
hands lease c = elim c.claimed [ none ↦ false | some e ↦ holds lease e ]

abbrev pub nothing_claimed : Claim
nothing_claimed = record { owner = false; claimed = none }

unfoldable pub step : ℕ → Call → Entries → Entries × Claim
step limit (on_claim at user session run) m = claim limit at user session run m
step limit (on_keep user session run handle expires_at) m =
    ((keep limit user session run handle expires_at m).0, nothing_claimed)
step limit (on_drop user session run) m = ((drop user session run m).0, nothing_claimed)
step limit (on_forget user session run) m = ((forget user session run m).0, nothing_claimed)

unfoldable pub answers : ℕ → List Call → Entries → List Claim
unfolding step
answers limit [] m = []
answers limit (c ∷ cs) m = let r = step limit c m in r.1 ∷ answers limit cs r.0

-- The call is of another run, and does not park the lease anew.
abbrev pub is_foreign : String → String → Call → Bool
is_foreign run lease (on_claim at user session r) = not (str_eq r run)
is_foreign run lease (on_keep user session r handle expires_at) =
    not (str_eq r run) && not (str_eq handle.lease_id lease)
is_foreign run lease (on_drop user session r) = not (str_eq r run)
is_foreign run lease (on_forget user session r) = not (str_eq r run)

module _ (run lease : String) where
  module _ (limit : ℕ) (named : str_eq run "" ≡ false) where
    -- An answer without the lease, in a table where it is held as before.
    IsApart : Entries × Claim → Type 0
    IsApart r = (hands lease r.1 ≡ false) × AllHeld run lease r.0

    -- Who is not the run does not pass the test on an entry that points at the lease.
    not_held :
        (e : Entry) (r : String)
        → HoldsFor run lease e
        → str_eq r run ≡ false
        → is_taken r e.busy_run ≡ false
        → holds lease e ≡ false
    not_held e r h f t = elim (Bool-cases (holds lease e)) [
      | inl q ↦
          let held : e.busy_run ≡ some run = h q in
          let free : is_taken r (some run) ≡ false = ap (is_taken r) (sym held) ∙ t in
          absurd (ground (arith, free, named, f, eq_iff r run, eq_iff run r))
      | inr q ↦ q
    ]

    claim-IsApart :
        (at : ℕ) (user session r : String) (m : Entries)
        → str_eq r run ≡ false
        → AllHeld run lease m
        → IsApart (claim limit at user session r m)
    unfolding IsApart claim
    claim-IsApart at user session r m f a = elim (Option-cases (Dict.get (key_of user session) m)) [
      | inl g ↦
          rw (claim, g)
            (
              refl,
              AllHeld-evict run lease limit _
                  (AllHeld-same run lease (key_of user session) (placeholder r) m a (λ h. cc)),
            )
      | inr (e, g) ↦ elim (Bool-cases (is_taken r e.busy_run)) [
        | inl t ↦ rw (claim, g, t) (refl, a)
        | inr t ↦ elim (Bool-cases (is_expired at e.expires_at)) [
          | inl x ↦ rw (claim, g, t, x) (refl, AllHeld-delete run lease (key_of user session) m a)
          | inr x ↦
              let n = not_held e r (a (key_of user session) e g) f t in
              rw (claim, g, t, x)
                (
                  n,
                  AllHeld-same run lease (key_of user session) (record e { busy_run = some r }) m a
                      (λ h. cc),
                )
        ]
      ]
    ]

    keep-AllHeld :
        (user session r : String) (handle : Parked) (expires_at : ℕ) (m : Entries)
        → str_eq handle.lease_id lease ≡ false
        → AllHeld run lease m
        → AllHeld run lease (keep limit user session r handle expires_at m).0
    unfolding keep
    keep-AllHeld user session r handle expires_at m f a =
        elim (Option-cases (Dict.get (key_of user session) m)) [
          | inl g ↦ rw (keep, g) a
          | inr (e, g) ↦ elim (Bool-cases (held_by r e.busy_run)) [
            | inl t ↦
                rw (keep, g, t)
                  (AllHeld-evict run lease limit _ (
                    AllHeld-same run lease (key_of user session)
                      (record { handle = some handle; expires_at = expires_at; busy_run = none }) m
                      a (λ h. absurd (ground (arith, h, f)))))
            | inr t ↦ rw (keep, g, t) a
          ]
        ]

    drop-AllHeld :
        (user session r : String) (m : Entries)
        → AllHeld run lease m
        → AllHeld run lease (drop user session r m).0
    unfolding drop
    drop-AllHeld user session r m a = elim (Option-cases (Dict.get (key_of user session) m)) [
      | inl g ↦ rw (drop, g) a
      | inr (e, g) ↦ elim (Bool-cases (held_by r e.busy_run)) [
        | inl t ↦ rw (drop, g, t) (AllHeld-delete run lease (key_of user session) m a)
        | inr t ↦ rw (drop, g, t) a
      ]
    ]

    forget-AllHeld :
        (user session r : String) (m : Entries)
        → AllHeld run lease m
        → AllHeld run lease (forget user session r m).0
    unfolding forget
    forget-AllHeld user session r m a = elim (Option-cases (Dict.get (key_of user session) m)) [
      | inl g ↦ rw (forget, g) a
      | inr (e, g) ↦ elim (Bool-cases (held_by r e.busy_run)) [
        | inl t ↦
            rw (forget, g, t)
              (AllHeld-same run lease (key_of user session) (placeholder r) m a (λ h. cc))
        | inr t ↦ rw (forget, g, t) a
      ]
    ]

    step-IsApart :
        (c : Call) (m : Entries)
        → is_foreign run lease c ≡ true
        → AllHeld run lease m
        → IsApart (step limit c m)
    unfolding step IsApart
    step-IsApart (on_claim at user session r) m f a =
        claim-IsApart at user session r m (ground (arith, f)) a
    step-IsApart (on_keep user session r handle expires_at) m f a =
        (refl, keep-AllHeld user session r handle expires_at m (ground (arith, f)) a)
    step-IsApart (on_drop user session r) m f a = (refl, drop-AllHeld user session r m a)
    step-IsApart (on_forget user session r) m f a = (refl, forget-AllHeld user session r m a)

    answers-apart :
        (cs : List Call) (m : Entries)
        → All (λ c. is_foreign run lease c ≡ true) cs
        → AllHeld run lease m
        → All (λ c. hands lease c ≡ false) (answers limit cs m)
    unfolding answers IsApart
    answers-apart [] m f a = tt
    answers-apart (c ∷ cs) m f a =
        let v : IsApart (step limit c m) = step-IsApart c m f.0 a in
        (v.0, answers-apart cs (step limit c m).0 f.1 v.1)

  -- The entry that a successful claim hands out is busy by the claiming run.
  claim-AllHeld :
      (limit at : ℕ) (user session : String) (m : Entries) (e : Entry)
      → All (λ p. holds lease p.1 ≡ true → p.0 ≡ key_of user session) m
      → (claim limit at user session run m).1.claimed ≡ some e
      → AllHeld run lease (claim limit at user session run m).0
  unfolding claim
  claim-AllHeld limit at user session m e u h =
      elim (Option-cases (Dict.get (key_of user session) m)) [
        | inl g ↦ let bad : none ≡ some e = rw (claim, g) at h in absurd (cc)
        | inr (old, g) ↦ elim (Bool-cases (is_taken run old.busy_run)) [
          | inl t ↦ let bad : none ≡ some e = rw (claim, g, t) at h in absurd (cc)
          | inr t ↦ elim (Bool-cases (is_expired at old.expires_at)) [
            | inl x ↦ let bad : none ≡ some e = rw (claim, g, t, x) at h in absurd (cc)
            | inr x ↦
                rw (claim, g, t, x)
                  (AllHeld-set run lease (key_of user session) _ m (λ q. refl) others)
          ]
        ]
      ]
    where
      others :
          (j : String) (v : Entry)
          → str_eq (key_of user session) j ≡ false
          → Dict.get j m ≡ some v
          → HoldsFor run lease v
      others j v q g b =
          absurd
            (ground (arith, q, eq_iff (key_of user session) j, Dict.Unique.get-All _ j m u g b))

-- Once a claim has handed a run, whose id is not empty, what it claimed, and a lease is pointed at
-- under no other key, no later claim of another run, under whichever key, is answered with that
-- lease, whatever calls of other runs come in between and whatever is evicted, as long as those do
-- not park the same lease themselves.
pub claim-exclusive :
    (run lease : String) (limit at : ℕ) (user session : String) (m : Entries) (e : Entry)
    (cs : List Call)
    → str_eq run "" ≡ false
    → All (λ p. holds lease p.1 ≡ true → p.0 ≡ key_of user session) m
    → (claim limit at user session run m).1.claimed ≡ some e
    → All (λ c. is_foreign run lease c ≡ true) cs
    → All (λ c. hands lease c ≡ false) (answers limit cs (claim limit at user session run m).0)
claim-exclusive run lease limit at user session m e cs named u h f =
    answers-apart run lease limit named cs (claim limit at user session run m).0 f
      (claim-AllHeld run lease limit at user session m e u h)
