-- ===== src/Worker/Leases/Expiry.antt =====
-- sandbox-worker/src/leases.js: how long a lease lives, through any history of its operations.
use agent_pod.Base.{
  ℕ, ◌+◌, ◌≤◌, ◌<◌, ◌≡◌, min, max, refl, String, List, [], ◌∷◌, Option, true, false, arith, length,
  ◌↔◌, ◌∙◌,
}
use agent_pod.Worker.Lease.{
  Config, Lease, extend, window_of, new_lease, touch, renew, parked_lease, attach, swept, reason_of,
  max_lifetime,
}

-- What is done to a lease that the map holds.
pub data Op : Type 0 where
  touches parks sweeps : Op
  renews : Option ℕ → Op
  attaches : String → String → Op

pub step : Config → Lease → ℕ → Op → Lease
step c l now touches = touch c l now
step c l now parks = parked_lease c l now
step c l now sweeps = swept c l now
step c l now (renews wish) = renew c l wish now
step c l now (attaches run_id token) = attach c l run_id token now

pub run : Config → Lease → List (ℕ × Op) → Lease
run c l [] = l
run c l ((now, op) ∷ ops) = run c (step c l now op) ops

abbrev pub Rising : ℕ → List (ℕ × Op) → Type 0
Rising t [] = Unit {0}
Rising t ((now, op) ∷ ops) = (t ≤ now) × Rising now ops

-- A lease at a time no earlier than its last use.
pub record IsLive (c : Config) (t : ℕ) (l : Lease) : Type 0 where
  pub cap : l.hard_expires_at ≡ l.created_at + c.max_lifetime_ms
  pub capped : l.expires_at ≤ l.hard_expires_at
  pub used : l.last_used_at ≤ t
  pub window : l.parked ≡ true → l.expires_at ≤ l.last_used_at + c.park_ttl_ms

-- `extend` moves the expiry to the later of what it was and the end of the window, and the window
-- ends at the hard limit at the latest.
pub extend-expires_at :
    (l : Lease) (window now : ℕ)
    → l.expires_at ≤ l.hard_expires_at
    → (extend l window now).expires_at ≡ max l.expires_at (min (now + window) l.hard_expires_at)
unfolding extend
extend-expires_at l window now h = ground arith

module _ (c : Config) where
  pub new_lease-IsLive :
      (id token run_id username : String) (slot : ℕ) (ttl : Option ℕ) (now : ℕ)
      → IsLive c now (new_lease c id token run_id username slot ttl now)
  unfolding new_lease
  new_lease-IsLive id token run_id username slot ttl now = ground arith

  window_of-le : (wish : Option ℕ) (cap : ℕ) → window_of wish cap ≤ cap
  unfolding window_of
  window_of-le wish cap = ground arith

  pub step-IsLive :
      (t now : ℕ) (l : Lease) (op : Op) → t ≤ now → IsLive c t l → IsLive c now (step c l now op)
  unfolding step touch parked_lease swept attach extend renew
  step-IsLive t now l touches h v = ground arith
  step-IsLive t now l parks h v = ground arith
  step-IsLive t now l sweeps h v = ground arith
  step-IsLive t now l (renews wish) h v =
      ground (arith, window_of-le wish c.park_ttl_ms, window_of-le wish c.ttl_ms)
  step-IsLive t now l (attaches run_id token) h v = ground arith

  step-created_at : (now : ℕ) (l : Lease) (op : Op) → (step c l now op).created_at ≡ l.created_at
  unfolding step touch parked_lease swept attach extend renew
  step-created_at now l touches = ground arith
  step-created_at now l parks = refl
  step-created_at now l sweeps = ground arith
  step-created_at now l (renews wish) = ground arith
  step-created_at now l (attaches run_id token) = ground arith

  abbrev pub last_of : ℕ → List (ℕ × Op) → ℕ
  last_of t [] = t
  last_of t ((now, op) ∷ ops) = last_of now ops

  run-IsLive :
      (t : ℕ) (l : Lease) (ops : List (ℕ × Op))
      → Rising t ops
      → IsLive c t l
      → IsLive c (last_of t ops) (run c l ops)
  unfolding run
  run-IsLive t l [] r v = v
  run-IsLive t l ((now, op) ∷ ops) r v =
      run-IsLive now (step c l now op) ops r.1 (step-IsLive t now l op r.0 v)

  run-created_at : (l : Lease) (ops : List (ℕ × Op)) → (run c l ops).created_at ≡ l.created_at
  unfolding run
  run-created_at l [] = refl
  run-created_at l ((now, op) ∷ ops) =
      run-created_at (step c l now op) ops ∙ step-created_at now l op

  -- Whatever is done to a new lease and however often (requests, renewals, parking, taking over,
  -- sweeps), at times that never go back, its expiry never passes the hard limit, which stays
  -- `maxLifetimeMs` after its creation.
  pub run-hard_limit :
      (id token run_id username : String) (slot : ℕ) (ttl : Option ℕ) (now : ℕ)
      (ops : List (ℕ × Op))
      → Rising now ops
      → let l = run c (new_lease c id token run_id username slot ttl now) ops in
        (l.hard_expires_at ≡ now + c.max_lifetime_ms) × (l.expires_at ≤ now + c.max_lifetime_ms)
  run-hard_limit id token run_id username slot ttl now ops r =
      let fresh = new_lease c id token run_id username slot ttl now in
      omega (
        arith,
        run-IsLive now fresh ops r (new_lease-IsLive id token run_id username slot ttl now),
        run-created_at fresh ops,
        created,
      )
    where
      created : (new_lease c id token run_id username slot ttl now).created_at ≡ now
      created = unfold new_lease in refl

  abbrev pub IsNoAttach : List (ℕ × Op) → Type 0
  IsNoAttach [] = Unit {0}
  IsNoAttach ((now, attaches run_id token) ∷ ops) = ⊥
  IsNoAttach ((now, op) ∷ ops) = IsNoAttach ops

  step-parked :
      (now : ℕ) (l : Lease) (op : Op) (ops : List (ℕ × Op))
      → IsNoAttach ((now, op) ∷ ops)
      → l.parked ≡ true
      → ((step c l now op).parked ≡ true) × IsNoAttach ops
  unfolding step touch parked_lease swept extend renew
  step-parked now l touches ops n p = (ground arith, n)
  step-parked now l parks ops n p = (refl, n)
  step-parked now l sweeps ops n p = (ground arith, n)
  step-parked now l (renews wish) ops n p = (ground arith, n)
  step-parked now l (attaches run_id token) ops n p = absurd n

  run-parked :
      (l : Lease) (ops : List (ℕ × Op))
      → IsNoAttach ops
      → l.parked ≡ true
      → (run c l ops).parked ≡ true
  unfolding run
  run-parked l [] n p = p
  run-parked l ((now, op) ∷ ops) n p =
      let q = step-parked now l op ops n p in run-parked (step c l now op) ops q.1 q.0

  -- A parked lease that nobody takes over lives at most `parkTtlMs` past the last thing that was
  -- done to it: stray requests, renewals of any length and commands left running do not get it the
  -- longer windows of a lease in use.
  pub run-park_window :
      (t : ℕ) (l : Lease) (ops : List (ℕ × Op))
      → Rising t ops
      → IsNoAttach ops
      → IsLive c t l
      → l.parked ≡ true
      → ((run c l ops).parked ≡ true) × ((run c l ops).expires_at ≤ last_of t ops + c.park_ttl_ms)
  run-park_window t l ops r n v p =
      let q = run-parked l ops n p in
      let w = run-IsLive t l ops r v in (q, omega (arith, w.used, w.window q))

  -- A lease that runs a command and is not parked outlives a sweep unless it has reached its hard
  -- limit: then, and only then, the sweep finds it dead, and gives that as the reason.
  pub swept_running :
      (t now : ℕ) (l : Lease)
      → IsLive c t l
      → 0 < length l.running
      → l.parked ≡ false
      → 0 < c.idle_timeout_ms
      → ((swept c l now).expires_at ≤ now)
        ↔ ((l.hard_expires_at ≤ now) × (reason_of (swept c l now) ≡ max_lifetime))
  unfolding swept extend reason_of
  swept_running t now l v r p i = ((λ h. (ground arith, ground arith)), (λ h. ground arith))
