-- ===== src/Worker/Leases.antt =====
-- sandbox-worker/src/leases.js, `createLeaseManager`: the leases of a worker and the slots that
-- they hold. An operation here runs without another in between; Interleaving.antt splits the
-- operations at their waits. `boot` is what the kernel answers when a slot is built anew.
pub mod Expiry
pub mod Invariant
pub mod Interleaving
pub mod Calls
pub mod Removal
pub mod Acquire
pub mod Park
mod Tests
use agent_pod.Base.{
  ℕ, ◌+◌, ◌-◌, min, String, List, [], ◌∷◌, Option, none, some, Bool, true, false, if◌then◌else◌,
  ltb, leb, map, length, str_eq, keep, take, not, ◌&&◌, suc,
}
use agent_pod.Base.Dict
use agent_pod.Base.Dict.{Dict}
use agent_pod.Base.Sort
use agent_pod.Worker.Slots
use agent_pod.Worker.Slots.{Slot, Boot}
use agent_pod.Worker.Lease
use agent_pod.Worker.Lease.{Config, Lease}

pub record Manager : Type 0 where
  pub leases : Dict Lease
  pub slots : List Slot

-- `releaseLease`. The object that the map drops is marked `released`, which nobody reads in a
-- lease that is gone.
unfoldable pub release : String → Option Boot → Manager → Manager × Bool
release id boot m = elim (Dict.get id m.leases) [
  | none ↦ (m, false)
  | some l ↦
      (record { leases = Dict.delete id m.leases; slots = Slots.release l.slot boot m.slots }, true)
]

-- `for (const id of ids) await releaseLease(id)`
unfoldable pub release_each : List String → (String → Option Boot) → Manager → Manager
release_each [] boots m = m
release_each (id ∷ ids) boots m = release_each ids boots (release id (boots id) m).0

unfoldable pub release_all : (String → Option Boot) → Manager → Manager × ℕ
release_all boots m = (release_each (Dict.keys m.leases) boots m, length (Dict.keys m.leases))

-- `acquire` once a slot may be free: the lease or, where every slot is busy, null.
unfoldable pub grant : Lease → Manager → Manager × Option Lease
grant fresh m = elim (Slots.first_free m.slots) [
  | none ↦ (m, none)
  | some s ↦
      let l = record fresh { slot = s.index } in
      (
        record { leases = Dict.set l.lease_id l m.leases; slots = Slots.mark l.lease_id m.slots },
        some l,
      )
]

-- The ids that `sweep` finds to have run out, with the reason.
unfoldable pub dead : ℕ → Dict Lease → List (String × Lease.Reason)
unfolding Lease.reason_of
dead now [] = []
dead now ((id, l) ∷ ls) =
    if ltb now l.expires_at then dead now ls else (id, Lease.reason_of l) ∷ dead now ls

unfoldable pub parked_of : String → Manager → List Lease
unfolding Sort.sort Dict.values
parked_of username m =
    Sort.sort (λ l. l.parked_at)
      (keep (λ l. l.parked && str_eq l.username username) (Dict.values m.leases))

-- The parked leases of the same user, without this one.
unfoldable pub mine : Lease → Manager → List Lease
unfolding parked_of
mine l m = keep (λ x. not (str_eq x.lease_id l.lease_id)) (parked_of l.username m)

-- The answer of `park`.
pub data Parked : Type 0 where
  park_disabled max_lifetime_near : Parked
  parked : ℕ → Parked

-- What `park` is about to do when it first waits: it gives up these leases, or answers at once.
pub data Begun : Type 0 where
  gives_up : List String → Begun
  refuses : Parked → Begun

abbrev pub older : Option Lease → Lease → Option Lease
older none l = some l
older (some v) l = if ltb l.parked_at v.parked_at then some l else some v

module _ (c : Config) where
  -- Parked, and past the time in which it may not be taken away.
  abbrev pub is_eligible : ℕ → Lease → Bool
  is_eligible now l = l.parked && not (ltb now (l.parked_at + c.park_grace_ms))

  -- The loop of `oldestParked`, with its `victim` so far.
  unfoldable pub oldest_from : ℕ → Option Lease → List Lease → Option Lease
  oldest_from now victim [] = victim
  oldest_from now victim (l ∷ ls) =
      oldest_from now (if is_eligible now l then older victim l else victim) ls

  unfoldable pub oldest_parked : ℕ → Manager → Option Lease
  unfolding oldest_from Dict.values
  oldest_parked now m = oldest_from now none (Dict.values m.leases)

  -- Room for one more: where no slot is free, the oldest parked lease is released.
  unfoldable pub preempt : ℕ → Option Boot → Manager → Manager
  preempt at boot m = elim (Slots.first_free m.slots) [
    | some _ ↦ m
    | none ↦ elim (oldest_parked at m) [
      | none ↦ m
      | some victim ↦ (release victim.lease_id boot m).0
    ]
  ]

  -- `acquire`; `at` is the time of the search for a victim, `now` that of the grant.
  unfoldable pub acquire :
      String
      → String
      → String
      → String
      → Option ℕ
      → ℕ
      → ℕ
      → Option Boot
      → Manager
      → Manager × Option Lease
  unfolding preempt grant
  acquire id token run_id username ttl at now boot m =
      grant (Lease.new_lease c id token run_id username 0 ttl now) (preempt at boot m)

  -- `get`: none for a lease that is gone or has run out.
  unfoldable pub get : String → ℕ → Manager → Manager × Option Lease
  get id now m = elim (Dict.get id m.leases) [
    | none ↦ (m, none)
    | some l ↦ if leb l.expires_at now then (m, none) else (
      record m { leases = Dict.modify id (λ x. Lease.touch c x now) m.leases },
      some (Lease.touch c l now),
    )
  ]

  -- `renew` and `attach`, for the lease that the map holds under its id.
  unfoldable pub renew : Lease → Option ℕ → ℕ → Manager → Manager × Lease.View
  unfolding Lease.renew Lease.describe
  renew l wish now m = (
    record m { leases = Dict.modify l.lease_id (λ x. Lease.renew c x wish now) m.leases },
    Lease.describe (Lease.renew c l wish now) now,
  )

  unfoldable pub attach : Lease → String → String → ℕ → Manager → Manager × Lease.View × String
  unfolding Lease.attach Lease.describe
  attach l run_id token now m = (
    record m { leases = Dict.modify l.lease_id (λ x. Lease.attach c x run_id token now) m.leases },
    Lease.describe (Lease.attach c l run_id token now) now,
    token,
  )

  -- The ids of those that `park` gives up, the oldest first.
  unfoldable pub overflow : Lease → Manager → List String
  unfolding mine
  overflow l m =
      map (λ x. x.lease_id) (take (length (mine l m) - (c.max_parked_per_user - 1)) (mine l m))

  -- `park(lease)` up to its first wait.
  abbrev pub begin_park : Lease → ℕ → Manager → Begun
  begin_park l now m =
      if leb c.max_parked_per_user 0
      then refuses park_disabled
      else if leb l.hard_expires_at (now + c.park_grace_ms)
      then refuses max_lifetime_near
      else gives_up (overflow l m)

  -- `park(lease)` after its last wait, for the lease that the map holds under its id.
  abbrev pub end_park : Lease → ℕ → Manager → Manager
  end_park l now m = record m {
    leases = Dict.modify l.lease_id (λ x. Lease.parked_lease c x now) m.leases;
  }

  -- `park(lease)`, where no other call runs while it waits for the leases that it gives up.
  unfoldable pub park : Lease → ℕ → (String → Option Boot) → Manager → Manager × Parked
  unfolding overflow release_each
  park l now boots m = elim (begin_park l now m) [
    | refuses r ↦ (m, r)
    | gives_up ids ↦
        let l' = Lease.parked_lease c l now in
        (end_park l now (release_each ids boots m), parked l'.expires_at)
  ]

  unfoldable pub sweep : ℕ → (String → Option Boot) → Manager → Manager × ℕ
  unfolding Lease.swept dead release_each Dict.update_all
  sweep now boots m =
      let slid = Dict.update_all (λ l. Lease.swept c l now) m.leases in
      (
        release_each (map (λ d. d.0) (dead now slid)) boots (record m { leases = slid }),
        length (dead now slid),
      )

abbrev count_of : Option ℕ → ℕ
count_of none = 0
count_of (some n) = n

-- `countByUser`, the map that goes out with a heartbeat; a lease with no user is left out.
unfoldable pub count_by_user : List Lease → Dict ℕ → Dict ℕ
unfolding Dict.get Dict.set
count_by_user [] counts = counts
count_by_user (l ∷ ls) counts = count_by_user ls (
    if str_eq l.username ""
    then counts
    else Dict.set l.username (count_of (Dict.get l.username counts) + 1) counts)

unfoldable pub parked_count : List Lease → ℕ
parked_count [] = 0
parked_count (l ∷ ls) = if l.parked then suc (parked_count ls) else parked_count ls
