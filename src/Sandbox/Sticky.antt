-- ===== src/Sandbox/Sticky.antt =====
-- src/sandbox/sticky.js: the table of parked sandboxes, by user and session, with the run that is
-- entitled to each.
pub mod Held
pub mod Exclusive
pub mod Table
mod Tests
use Prim.Native.String.{◌++◌ as str_append}
use agent_pod.Base.{
  ℕ, String, List, [], ◌∷◌, Option, none, some, Bool, true, false, if◌then◌else◌, ltb, leb, not,
  ◌&&◌, length, str_eq,
}
use agent_pod.Base.Dict
use agent_pod.Base.Dict.{Dict}

-- The lease that an entry points at: what a run attaches to.
pub record Parked : Type 0 where
  pub lease_id : String
  pub lease_token : String
  pub worker_base : String
  pub node_id : String
  pub browser : Bool

-- `handle` is `none` in an entry that only holds the place; `busy_run` is `none` for `null`.
pub record Entry : Type 0 where
  pub handle : Option Parked
  pub expires_at : ℕ
  pub busy_run : Option String

abbrev pub Entries : Type 0
Entries = Dict Entry

pub record Claim : Type 0 where
  pub owner : Bool
  pub claimed : Option Entry  -- `handle`

abbrev pub key_of : String → String → String
key_of username session_key = str_append username (str_append "\0" session_key)

-- `entry.busyRun !== runId`, negated.
abbrev pub held_by : String → Option String → Bool
held_by run_id none = false
held_by run_id (some run) = str_eq run run_id

-- `entry?.busyRun && entry.busyRun !== runId`
abbrev pub is_taken : String → Option String → Bool
is_taken run_id none = false
is_taken run_id (some run) = not (str_eq run "") && not (str_eq run run_id)

-- `entry.expiresAt && entry.expiresAt <= Date.now()`
abbrev pub is_expired : ℕ → ℕ → Bool
is_expired at expires_at = ltb 0 expires_at && leb expires_at at

abbrev pub placeholder : String → Entry
placeholder run_id = record { handle = none; expires_at = 0; busy_run = some run_id }

abbrev pub drop_oldest : Entries → Entries
drop_oldest [] = []
drop_oldest ((key, e) ∷ m) = Dict.delete key ((key, e) ∷ m)

unfoldable pub evict_if_needed : ℕ → Entries → Entries
evict_if_needed max_entries m = if leb (length m) max_entries then m else drop_oldest m

module _ (max_entries : ℕ) where
  unfoldable pub claim : ℕ → String → String → String → Entries → Entries × Claim
  claim at username session_key run_id m =
      let key = key_of username session_key in
      elim (Dict.get key m) [
        | none ↦ (
          evict_if_needed max_entries (Dict.set key (placeholder run_id) m),
          record { owner = true; claimed = none },
        )
        | some e ↦
            if is_taken run_id e.busy_run
            then (m, record { owner = false; claimed = none })
            else if is_expired at e.expires_at
            then (Dict.delete key m, record { owner = true; claimed = none })
            else let e' = record e { busy_run = some run_id } in
              (Dict.set key e' m, record { owner = true; claimed = some e' })
      ]

  unfoldable pub keep : String → String → String → Parked → ℕ → Entries → Entries × Bool
  keep username session_key run_id handle expires_at m =
      let key = key_of username session_key in
      elim (Dict.get key m) [
        | none ↦ (m, false)
        | some e ↦
            if held_by run_id e.busy_run
            then (
              evict_if_needed max_entries (
                  Dict.set key
                    (record { handle = some handle; expires_at = expires_at; busy_run = none }) m),
              true,
            )
            else (m, false)
      ]

unfoldable pub drop : String → String → String → Entries → Entries × Bool
drop username session_key run_id m =
    let key = key_of username session_key in
    elim (Dict.get key m) [
      | none ↦ (m, false)
      | some e ↦ if held_by run_id e.busy_run then (Dict.delete key m, true) else (m, false)
    ]

unfoldable pub forget : String → String → String → Entries → Entries × Bool
forget username session_key run_id m =
    let key = key_of username session_key in
    elim (Dict.get key m) [
      | none ↦ (m, false)
      | some e ↦
          if held_by run_id e.busy_run
          then (Dict.set key (placeholder run_id) m, true)
          else (m, false)
    ]
