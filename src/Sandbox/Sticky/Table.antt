-- ===== src/Sandbox/Sticky/Table.antt =====
-- src/sandbox/sticky.js: the size of the table, and what one call finds of another.
use agent_pod.Base.{
  ℕ, ◌+◌, ◌≤◌, ◌<◌, ◌≡◌, refl, ap, ◌∙◌, String, [], ◌∷◌, none, some, true, false, if◌then◌else◌,
  arith, length, eq_refl, Bool-cases, Option-cases, inl, inr,
}
use agent_pod.Base.Dict
use agent_pod.Base.Dict.{Dict}
use agent_pod.Sandbox.Sticky.{
  Parked, Entry, Entries, key_of, held_by, is_taken, is_expired, placeholder, evict_if_needed,
  claim, keep, drop, forget,
}

module _ (limit : ℕ) where
  length-evict : (m : Entries) → length m ≤ limit + 1 → length (evict_if_needed limit m) ≤ limit
  unfolding evict_if_needed Dict.delete
  length-evict [] h = ground arith
  length-evict ((k, e) ∷ m) h = ground (arith, eq_refl k, Dict.length-delete k m)

  module _ (user session run : String) (m : Entries) (h : length m ≤ limit) where
    length-claim : (at : ℕ) → length (claim limit at user session run m).0 ≤ limit
    unfolding claim
    length-claim at = elim (Option-cases (Dict.get (key_of user session) m)) [
      | inl g ↦
          rw (claim, g)
            (length-evict _
              (omega (arith, Dict.length-set (key_of user session) (placeholder run) m)))
      | inr (e, g) ↦
          rw (claim, g)
            (ground (
              arith,
              Dict.length-delete (key_of user session) m,
              Dict.length-set_old (key_of user session) (record e { busy_run = some run }) m g,
            ))
    ]

    length-keep :
        (handle : Parked) (expires_at : ℕ)
        → length (keep limit user session run handle expires_at m).0 ≤ limit
    unfolding keep
    length-keep handle expires_at = elim (Option-cases (Dict.get (key_of user session) m)) [
      | inl g ↦ rw (keep, g) h
      | inr (e, g) ↦
          let e' : Entry = record {
            handle = some handle;
            expires_at = expires_at;
            busy_run = none;
          } in
          rw (keep, g)
            (ground (
              arith,
              length-evict (Dict.set (key_of user session) e' m)
                  (omega (arith, Dict.length-set (key_of user session) e' m)),
            ))
    ]

    length-drop : length (drop user session run m).0 ≤ limit
    unfolding drop
    length-drop = elim (Option-cases (Dict.get (key_of user session) m)) [
      | inl g ↦ rw (drop, g) h
      | inr (e, g) ↦ rw (drop, g) (ground (arith, Dict.length-delete (key_of user session) m))
    ]

    length-forget : length (forget user session run m).0 ≤ limit
    unfolding forget
    length-forget = elim (Option-cases (Dict.get (key_of user session) m)) [
      | inl g ↦ rw (forget, g) h
      | inr (e, g) ↦
          rw (forget, g)
            (ground (arith, Dict.length-set_old (key_of user session) (placeholder run) m g))
    ]

    -- A table within its limit stays within it, whichever call comes.
    pub length-calls :
        (at : ℕ) (handle : Parked) (expires_at : ℕ)
        → (length (claim limit at user session run m).0 ≤ limit)
          × (length (keep limit user session run handle expires_at m).0 ≤ limit)
          × (length (drop user session run m).0 ≤ limit)
          × (length (forget user session run m).0 ≤ limit)
    length-calls at handle expires_at =
        (length-claim at, length-keep handle expires_at, length-drop, length-forget)

    evict_none : (n : Entries) → length n ≡ length m → evict_if_needed limit n ≡ n
    unfolding evict_if_needed
    evict_none n e = ground arith

    abbrev parked : Parked → ℕ → Entry
    parked handle expires_at = record {
      handle = some handle;
      expires_at = expires_at;
      busy_run = none;
    }

    keep_held :
        (e : Entry) (handle : Parked) (expires_at : ℕ)
        → Dict.get (key_of user session) m ≡ some e
        → held_by run e.busy_run ≡ true
        → keep limit user session run handle expires_at m
          ≡ (Dict.set (key_of user session) (parked handle expires_at) m, true)
    unfolding keep
    keep_held e handle expires_at g t =
        let kept = Dict.set (key_of user session) (parked handle expires_at) m in
        rw (keep, g, t)
          (ap (λ n. (n, true))
            (evict_none kept
              (Dict.length-set_old (key_of user session) (parked handle expires_at) m g)))

    refused :
        (e : Entry) (handle : Parked) (expires_at : ℕ)
        → Dict.get (key_of user session) m ≡ some e
        → held_by run e.busy_run ≡ false
        → keep limit user session run handle expires_at m ≡ (m, false)
    unfolding keep
    refused e handle expires_at g t = rw (keep, g, t) refl

    claim_parked :
        (handle : Parked) (expires_at at : ℕ) (next : String)
        → at < expires_at
        → (claim limit at user session next
            (Dict.set (key_of user session) (parked handle expires_at) m)).1
          ≡ record {
            owner = true;
            claimed =
                some
                  (record { handle = some handle; expires_at = expires_at; busy_run = some next });
          }
    unfolding claim
    claim_parked handle expires_at at next l =
        let lasts : is_expired at expires_at ≡ false = ground arith in
        let found = Dict.get-set_self (key_of user session) (parked handle expires_at) m in
        rw (claim, found, lasts) refl

    -- In a table within its limit, what a run parks under its claim is what the next claim of that
    -- user and session is given, if it comes before the parking window ends; a run that has no
    -- claim parks nothing.
    pub claim-keep :
        (e : Entry) (handle : Parked) (expires_at at : ℕ) (next : String)
        → Dict.get (key_of user session) m ≡ some e
        → at < expires_at
        → let kept = keep limit user session run handle expires_at m in
          if held_by run e.busy_run
          then (kept.1 ≡ true)
            × ((claim limit at user session next kept.0).1 ≡ record {
              owner = true;
              claimed =
                  some (record {
                    handle = some handle;
                    expires_at = expires_at;
                    busy_run = some next;
                  });
            })
          else (kept ≡ (m, false))
    claim-keep e handle expires_at at next g l = elim (Bool-cases (held_by run e.busy_run)) [
      | inl t ↦
          let k = keep_held e handle expires_at g t in
          rw t (
            ap (λ r. r.1) k,
            ap (λ r. (claim limit at user session next r.0).1) k
                ∙ claim_parked handle expires_at at next l,
          )
      | inr t ↦ rw t (refused e handle expires_at g t)
    ]

  -- A claim that finds the entry run out, and not taken by another run, is told that it owns the
  -- place, but holds none in the table: what its run parks next is refused, and the next run to
  -- claim is told that it owns the place as well.
  pub keep-claim_expired :
      (at : ℕ) (user session run next : String) (m : Entries) (e : Entry) (handle : Parked)
      (expires_at : ℕ)
      → Dict.get (key_of user session) m ≡ some e
      → is_taken run e.busy_run ≡ false
      → is_expired at e.expires_at ≡ true
      → let r = claim limit at user session run m in
        (r.1.owner ≡ true)
        × (keep limit user session run handle expires_at r.0 ≡ (r.0, false))
        × ((claim limit at user session next r.0).1.owner ≡ true)
  unfolding claim keep
  keep-claim_expired at user session run next m e handle expires_at g t x =
      let key = key_of user session in
      let gone : Dict.get key (Dict.delete key m) ≡ none =
        Dict.get-delete key key m ∙ (rw eq_refl refl) in
      rw (claim, g, t, x) (rw (keep, gone) (refl, refl, refl))
