-- ===== src/RateLimit/Keys.antt =====
-- src/http/rate-limit.js: what `consume`, `peek` and `reset` do to the keys of the table.
use agent_pod.Base.{
  ℕ, ◌+◌, ◌-◌, ◌≤◌, ◌<◌, ◌≡◌, refl, String, ◌∷◌, [], ltb, ltb→lt, not_ltb→le, sym, ap, ◌∙◌, eq_refl,
  false, some, none, arith, if◌then◌else◌, str_eq, eq_iff, length, Option-cases, inl, inr,
  Bool-cases,
}
use agent_pod.Base.Dict
use agent_pod.RateLimit.Limiter.{
  Options, Entry, Table, make_room, consume, peek, reset, admit, entry_for, refused, allowed,
  in_window, verdict_of,
}
use agent_pod.RateLimit.Window.{block_of, admit_blocked, admit_over, admit_under}

module _ (o : Options) where
  room_enough : (at : ℕ) (m : Table) → length m < o.max_keys → make_room o at m ≡ m
  unfolding make_room
  room_enough at m h = ground arith

  -- A call touches its own key and, past the sweep, no other.
  pub get-consume :
      (at : ℕ) (key j : String) (m : Table)
      → Dict.get j (consume o at key m).0 ≡ (
          if str_eq key j
          then some (admit o at (entry_for o (Dict.get key (make_room o at m)))).0
          else Dict.get j (make_room o at m))
  unfolding consume
  get-consume at key j m = Dict.get-set key j _ (make_room o at m)

  -- While the table has room, a key that `peek` reports as blocked is refused by `consume` with the
  -- same waiting time, and the call leaves what the table holds for every key as it was.
  pub peek-consume :
      (at : ℕ) (key : String) (m : Table)
      → length m < o.max_keys
      → (peek o at key m).is_ok ≡ false
      → ((consume o at key m).1 ≡ peek o at key m)
        × ((j : String) → Dict.get j (consume o at key m).0 ≡ Dict.get j m)
  unfolding peek consume
  peek-consume at key m h b = elim (Option-cases (Dict.get key m)) [
    | inl e ↦ let bad : allowed.is_ok ≡ false = rw e at b in cc
    | inr (e, p) ↦
        let until : at < e.blocked_until =
          let c : (verdict_of o at (some e)).is_ok ≡ false = rw p at b in ground arith in
        (
          rw (room_enough at m h, p) (rw (admit_blocked o at e until) (ground arith)),
          λ j.
              rw (room_enough at m h, p)
                (rw (admit_blocked o at e until, Dict.get-set)
                  (elim (Bool-cases (str_eq key j)) [
                    | inl q ↦ rw q (sym p ∙ ap (λ k. Dict.get k m) ((eq_iff key j).0 q))
                    | inr q ↦ rw q
                  ])),
        )
  ]

  admit_first :
      (at strikes until : ℕ)
      → until ≤ at
      → 0 < o.limit
      → admit o at (record { stamps = []; strikes = strikes; blocked_until = until })
        ≡ (record { stamps = at ∷ []; strikes = strikes; blocked_until = until }, allowed)
  unfolding in_window
  admit_first at strikes until h k = admit_under o at _ h k

  -- After a reset the key starts afresh, whatever its history: the next call is let through if
  -- `max` is not 0 and there is room, and the entry it leaves holds that one stamp and no strike.
  pub reset-consume :
      (at : ℕ) (key : String) (m : Table)
      → length m < o.max_keys
      → 0 < o.limit
      → ((consume o at key (reset o key m)).1 ≡ allowed)
        × (Dict.get key (consume o at key (reset o key m)).0
            ≡ some (record { stamps = at ∷ []; strikes = 0; blocked_until = 0 }))
  unfolding consume reset
  reset-consume at key m h k =
      let gone : Dict.get key (Dict.delete key m) ≡ none = rw (Dict.get-delete, eq_refl) in
      rw (room_enough at (Dict.delete key m) (omega (arith, Dict.length-delete key m)), gone)
        (rw (admit_first at 0 0 (omega arith) k) (refl, Dict.get-set_self key _ _))

  -- One call too many starts a block of `min(base * 2^strikes, max)` milliseconds and counts a
  -- strike. At any later time, until the block is over, a call is refused with the time that is
  -- left and changes nothing; from its end on, where `max` is not 0, it is let through.
  pub strike_blocks :
      (at later : ℕ) (e : Entry)
      → e.blocked_until ≤ at
      → o.limit ≤ length (in_window o at e.stamps)
      → 0 < o.limit
      → let block = block_of o e.strikes in
        let e' = (admit o at e).0 in
        ((admit o at e).1 ≡ refused block)
        × (e'.strikes ≡ e.strikes + 1)
        × (admit o later e' ≡ (
            if ltb later (at + block)
            then (e', refused (at + block - later))
            else (record e' { stamps = later ∷ [] }, allowed)))
  strike_blocks at later e h k l =
      let struck : Entry = record {
        stamps = [];
        strikes = e.strikes + 1;
        blocked_until = at + block_of o e.strikes;
      } in
      rw (admit_over o at e h k) (
        refl,
        refl,
        elim (Bool-cases (ltb later (at + block_of o e.strikes))) [
          | inl q ↦ rw q (admit_blocked o later struck (ltb→lt _ _ q))
          | inr q ↦
              rw q
                (admit_first later (e.strikes + 1) (at + block_of o e.strikes) (not_ltb→le _ _ q) l)
        ],
      )
