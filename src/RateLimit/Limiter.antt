-- ===== src/RateLimit/Limiter.antt =====
-- src/http/rate-limit.js, `createRateLimiter`: the table of keys and its operations.
use agent_pod.Base.{
  ℕ, ◌+◌, ◌-◌, ◌*◌, ◌^◌, min, max, String, List, [], ◌∷◌, ◌++◌, Option, none, some, Bool, true,
  false, ltb, leb, if◌then◌else◌, length, last?, keep, take, map, not,
}
use agent_pod.Base.Dict
use agent_pod.Base.Dict.{Dict}
use agent_pod.Base.Sort

pub record Options : Type 0 where
  pub window_ms : ℕ
  pub limit : ℕ  -- `max`
  pub base_block_ms : ℕ
  pub max_block_ms : ℕ
  pub max_keys : ℕ

pub record Entry : Type 0 where
  pub stamps : List ℕ
  pub strikes : ℕ
  pub blocked_until : ℕ

abbrev pub fresh : Entry
fresh = record { stamps = []; strikes = 0; blocked_until = 0 }

pub record Verdict : Type 0 where
  pub is_ok : Bool
  pub retry_after_ms : ℕ

abbrev pub allowed : Verdict
allowed = record { is_ok = true; retry_after_ms = 0 }

abbrev pub refused : ℕ → Verdict
refused ms = record { is_ok = false; retry_after_ms = ms }

-- `entries`, the `Map` of the closure, in the order of insertion.
abbrev pub Table : Type 0
Table = Dict Entry

abbrev pub or_zero : Option ℕ → ℕ
or_zero none = 0
or_zero (some t) = t

module _ (o : Options) where
  -- When a key may be forgotten.
  unfoldable pub expiry_of : Entry → ℕ
  expiry_of e = max e.blocked_until (or_zero (last? e.stamps) + o.window_ms)

  -- The first loop of `sweep`: what has run out goes.
  unfoldable pub drop_expired : ℕ → Table → Table
  unfolding expiry_of
  drop_expired at m = keep (λ p. not (leb (expiry_of p.1) at)) m

  -- Its second half: the excess goes, the earliest expiry first.
  unfoldable pub victims : Table → List (String × Entry)
  unfolding Sort.sort
  victims m = take (length m - o.max_keys) (Sort.sort (λ p. expiry_of p.1) m)

  unfoldable pub sweep : ℕ → Table → Table
  unfolding drop_expired victims Dict.delete_all
  sweep at m =
      let live = drop_expired at m in
      if leb (length live) o.max_keys
      then live
      else Dict.delete_all (map (λ p. p.0) (victims live)) live

  -- `at - windowMs < stamp`, with the subtraction moved to the other side.
  unfoldable pub in_window : ℕ → List ℕ → List ℕ
  in_window at = keep (λ stamp. ltb at (stamp + o.window_ms))

  -- `consume` on the entry of its key: the entry as it leaves it, and the answer.
  unfoldable pub admit : ℕ → Entry → Entry × Verdict
  unfolding in_window
  admit at e =
      if ltb at e.blocked_until
      then (e, refused (e.blocked_until - at))
      else let stamps = in_window at e.stamps ++ at ∷ [] in
        let block = min (o.base_block_ms * 2 ^ e.strikes) o.max_block_ms in
        if ltb o.limit (length stamps)
        then (
          record { stamps = []; strikes = e.strikes + 1; blocked_until = at + block },
          refused block,
        )
        else (record e { stamps = stamps }, allowed)

  abbrev pub entry_for : Option Entry → Entry
  entry_for none = fresh
  entry_for (some e) = e

  unfoldable pub make_room : ℕ → Table → Table
  unfolding sweep
  make_room at m = if leb o.max_keys (length m) then sweep at m else m

  unfoldable pub consume : ℕ → String → Table → Table × Verdict
  consume at key m =
      let room = make_room at m in
      let (e, v) = admit at (entry_for (Dict.get key room)) in (Dict.set key e room, v)

  abbrev pub verdict_of : ℕ → Option Entry → Verdict
  verdict_of at none = allowed
  verdict_of at (some e) =
      if leb e.blocked_until at then allowed else refused (e.blocked_until - at)

  unfoldable pub peek : ℕ → String → Table → Verdict
  unfolding Dict.get
  peek at key m = verdict_of at (Dict.get key m)

  unfoldable pub reset : String → Table → Table
  unfolding Dict.delete
  reset key m = Dict.delete key m

  unfoldable pub size : Table → ℕ
  size m = length m
