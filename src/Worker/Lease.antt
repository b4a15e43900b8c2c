-- ===== src/Worker/Lease.antt =====
-- sandbox-worker/src/leases.js: one lease, and the operations that change only the lease.
-- `Date.now()` is the argument `now`, random identifiers and tokens are arguments.
use agent_pod.Base.{
  ℕ, ◌+◌, ◌-◌, min, String, List, Option, none, some, Bool, true, false, if◌then◌else◌, ltb, leb,
  map, length, str_eq,
}

pub record Config : Type 0 where
  pub ttl_ms : ℕ
  pub idle_timeout_ms : ℕ
  pub park_ttl_ms : ℕ
  pub park_grace_ms : ℕ
  pub max_lifetime_ms : ℕ
  pub max_parked_per_user : ℕ

-- An `AbortController` in `lease.running`.
pub record Controller : Type 0 where
  pub job : ℕ
  pub aborted : Bool

pub record Lease : Type 0 where
  pub lease_id : String
  pub lease_token : String
  pub run_id : String
  pub username : String
  pub slot : ℕ
  pub created_at : ℕ
  pub last_used_at : ℕ
  pub expires_at : ℕ
  pub hard_expires_at : ℕ
  pub running : List Controller
  pub exec_count : ℕ
  pub browser : Bool
  pub released : Bool
  pub parked : Bool
  pub parked_at : ℕ

-- `lease.running.size > 0`
abbrev pub is_running : Lease → Bool
is_running l = ltb 0 (length l.running)

unfoldable pub extend : Lease → ℕ → ℕ → Lease
extend l window now =
    let wanted = min (now + window) l.hard_expires_at in
    if ltb l.expires_at wanted then record l { expires_at = wanted } else l

-- `Number.isFinite(requested) && requested > 0 ? Math.min(requested, cap) : cap`; `none` is what
-- is no finite number.
unfoldable pub window_of : Option ℕ → ℕ → ℕ
window_of none cap = cap
window_of (some r) cap = if ltb 0 r then min r cap else cap

abbrev pub abort_all : List Controller → List Controller
abort_all = map {A = Controller} (λ c. record c { aborted = true })

module _ (c : Config) where
  -- The lease that `acquire` puts on a slot.
  unfoldable pub new_lease : String → String → String → String → ℕ → Option ℕ → ℕ → Lease
  unfolding window_of
  new_lease id token run_id username slot ttl now =
      let hard = now + c.max_lifetime_ms in
      record {
        lease_id = id;
        lease_token = token;
        run_id = run_id;
        username = username;
        slot = slot;
        created_at = now;
        last_used_at = now;
        expires_at = min (now + window_of ttl c.ttl_ms) hard;
        hard_expires_at = hard;
        running = List.[];
        exec_count = 0;
        browser = false;
        released = false;
        parked = false;
        parked_at = 0;
      }

  -- `get` on a lease that has not run out.
  unfoldable pub touch : Lease → ℕ → Lease
  unfolding extend
  touch l now =
      extend (record l { last_used_at = now })
        (if l.parked then c.park_ttl_ms else c.idle_timeout_ms) now

  unfoldable pub renew : Lease → Option ℕ → ℕ → Lease
  unfolding extend window_of
  renew l wish now =
      record (extend l (window_of wish (if l.parked then c.park_ttl_ms else c.ttl_ms)) now) {
        last_used_at = now;
      }

  -- What `park` writes into the lease once it goes through.
  unfoldable pub parked_lease : Lease → ℕ → Lease
  parked_lease l now = record l {
    running = abort_all l.running;
    parked = true;
    parked_at = now;
    last_used_at = now;
    expires_at = min (now + c.park_ttl_ms) l.hard_expires_at;
  }

  unfoldable pub attach : Lease → String → String → ℕ → Lease
  unfolding extend
  attach l run_id token now =
      extend
        (record l {
          parked = false;
          parked_at = 0;
          run_id = if str_eq run_id "" then l.run_id else run_id;
          last_used_at = now;
          lease_token = token;
        })
        c.idle_timeout_ms now

  -- `sweep` on one lease: a command that runs counts as activity, unless the lease is parked.
  unfoldable pub swept : Lease → ℕ → Lease
  unfolding extend
  swept l now = if is_running l then if l.parked then l else extend l c.idle_timeout_ms now else l

pub data Reason : Type 0 where
  max_lifetime parked_idle idle : Reason

-- Why `sweep` takes a lease.
unfoldable pub reason_of : Lease → Reason
reason_of l =
    if leb l.hard_expires_at l.expires_at
    then max_lifetime
    else if l.parked
    then parked_idle
    else idle

-- `describe`, the numbers and marks of it; the token is not among them.
pub record View : Type 0 where
  pub lease_id : String
  pub run_id : String
  pub username : String
  pub created_at : ℕ
  pub expires_at : ℕ
  pub hard_expires_at : ℕ
  pub remaining_ms : ℕ
  pub max_remaining_ms : ℕ
  pub exec_count : ℕ
  pub running : ℕ
  pub browser : Bool
  pub parked : Bool
  pub parked_at : ℕ

unfoldable pub describe : Lease → ℕ → View
describe l now = record {
  lease_id = l.lease_id;
  run_id = l.run_id;
  username = l.username;
  created_at = l.created_at;
  expires_at = l.expires_at;
  hard_expires_at = l.hard_expires_at;
  remaining_ms = l.expires_at - now;
  max_remaining_ms = l.hard_expires_at - now;
  exec_count = l.exec_count;
  running = length l.running;
  browser = l.browser;
  parked = l.parked;
  parked_at = l.parked_at;
}
