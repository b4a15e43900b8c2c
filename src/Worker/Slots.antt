-- ===== src/Worker/Slots.antt =====
-- sandbox-worker/src/namespace/slot-pool.js: the fixed pool of slots.
-- What a boot makes (namespaces, network, cgroup) is the kernel's: a slot keeps the process id of
-- its sentinel and the signature of the egress policy that it was set up under.
pub mod Holders
use agent_pod.Base.{
  ℕ, suc, ◌+◌, ◌≡◌, String, List, [], ◌∷◌, ◌++◌, Option, none, some, Bool, true, false,
  if◌then◌else◌, ◌==◌, not, length, find, str_eq,
}

pub record Slot : Type 0 where
  pub index : ℕ
  pub sentinel : ℕ
  pub signature : String
  pub busy : Bool
  pub lease_id : Option String

-- What `bootSlot` answers: the sentinel's process id.
pub record Boot : Type 0 where
  pub pid : ℕ
  pub policy : String

abbrev pub booted : ℕ → Boot → Slot
booted i b = record {
  index = i;
  sentinel = b.pid;
  signature = b.policy;
  busy = false;
  lease_id = none;
}

-- `init`: one slot for each boot, numbered from `i`.
unfoldable pub init : ℕ → List Boot → List Slot
init i [] = []
init i (b ∷ bs) = booted i b ∷ init (suc i) bs

-- `slots.find((s) => !s.busy)`
unfoldable pub first_free : List Slot → Option Slot
first_free = find (λ s. not s.busy)

abbrev pub taken : String → Slot → Slot
taken id s = record s { busy = true; lease_id = some id }

-- The slot that `first_free` finds is marked.
unfoldable pub mark : String → List Slot → List Slot
mark id [] = []
mark id (s ∷ ss) = if s.busy then s ∷ mark id ss else taken id s ∷ ss

abbrev pub slot_at : ℕ → List Slot → Option Slot
slot_at i = find (λ s. s.index == i)

-- `release`: the slot is destroyed and built anew. Where the boot throws, the destroyed slot stays
-- in the pool as it was, busy.
unfoldable pub release : ℕ → Option Boot → List Slot → List Slot
release i b [] = []
release i none (s ∷ ss) = s ∷ ss
release i (some b) (s ∷ ss) = if s.index == i then booted i b ∷ ss else s ∷ release i (some b) ss

-- `applyPolicy` on one slot: only an idle slot under another policy is set up again. `programs`
-- says whether the rules of the slot could be written.
pub record Applied : Type 0 where
  pub slots : List Slot
  pub reprogrammed : ℕ
  pub pending : ℕ
  pub failed : ℕ

unfoldable pub apply_policy : String → (Slot → Bool) → List Slot → Applied
apply_policy policy programs [] = record { slots = []; reprogrammed = 0; pending = 0; failed = 0 }
apply_policy policy programs (s ∷ ss) =
    let r = apply_policy policy programs ss in
    if str_eq s.signature policy
    then record r { slots = s ∷ r.slots }
    else if s.busy
    then record r { slots = s ∷ r.slots; pending = suc r.pending }
    else if programs s
    then record r {
      slots = record s { signature = policy } ∷ r.slots;
      reprogrammed = suc r.reprogrammed;
    }
    else record r { slots = s ∷ r.slots; failed = suc r.failed }

-- `egressState().pendingSlots`
unfoldable pub pending_slots : String → List Slot → ℕ
pending_slots policy [] = 0
pending_slots policy (s ∷ ss) =
    if str_eq s.signature policy then pending_slots policy ss else suc (pending_slots policy ss)
