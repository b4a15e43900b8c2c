-- ===== src/Agent/Budget/Counts.antt =====
-- src/agent/run-service.js: whatever the order of the calls, the counts are those of the active runs.
use agent_pod.Base.{
  ℕ, ◌+◌, ◌-◌, ◌≤◌, ◌<◌, ◌≡◌, ◌⊎◌, refl, subst, not_leb→lt, eq_refl, ap, ◌∙◌, String, [], ◌∷◌,
  Option, none, some, Bool, false, if◌then◌else◌, arith, leb, ltb, length, keep, str_eq, eq_iff,
  Bool-cases, inl, inr,
}
use agent_pod.Base.Dict
use agent_pod.Base.Dict.{Dict}
use agent_pod.Base.Dict.Unique.{IsMap, set-IsMap, delete-IsMap, modify-IsMap}
use agent_pod.Agent.Budget.{
  Limits, Entry, Service, Busy, replica_full, user_full, used_by, held_by, acquire, release, enter,
  on_start,
}

pub data Step (o : Limits) : Service → Service → Type 0 where
  -- A run or a compaction begins under an id that is not in use.
  entered :
      (username run_id source : String) (at : ℕ) (s : Service)
      → Dict.get run_id s.active ≡ none
      → Step o s (enter o username run_id source at s).0
  started : (run_id : String) (callback : ℕ) (s : Service) → Step o s (on_start run_id callback s)
  -- The `finally` of a run that was let in.
  left :
      (run_id : String) (e : Entry) (s : Service)
      → Dict.get run_id s.active ≡ some e
      → Step o s (release e.username run_id s)

pub data Reach (o : Limits) : Service → Type 0 where
  begun : Reach o (record { active = []; per_user = [] })
  next : (s t : Service) → Reach o s → Step o s t → Reach o t

-- How many of the active runs are a user's.
abbrev pub runs_of : String → Dict Entry → ℕ
runs_of u m = length (keep (λ p. str_eq p.1.username u) m)

-- What the table of the counts says of so many runs: nothing of none.
abbrev pub counted : ℕ → Option ℕ
counted n = if ltb 0 n then some n else none

abbrev one_if : Bool → ℕ
one_if b = if b then 1 else 0

runs_of-set :
    (u k : String) (e : Entry) (m : Dict Entry)
    → Dict.get k m ≡ none
    → runs_of u (Dict.set k e m) ≡ runs_of u m + one_if (str_eq e.username u)
unfolding Dict.get Dict.set
runs_of-set u k e [] h = ground arith
runs_of-set u k e ((j, w) ∷ m) h = ground (arith, runs_of-set u k e m)

length-set_new :
    (k : String) (e : Entry) (m : Dict Entry)
    → Dict.get k m ≡ none
    → length (Dict.set k e m) ≡ length m + 1
unfolding Dict.get Dict.set
length-set_new k e [] h = refl
length-set_new k e ((j, w) ∷ m) h = ground (arith, length-set_new k e m)

delete_absent : (k : String) (m : Dict Entry) → Dict.get k m ≡ none → Dict.delete k m ≡ m
unfolding Dict.get Dict.delete
delete_absent k [] h = refl
delete_absent k ((j, w) ∷ m) h = ground (arith, delete_absent k m)

runs_of-delete :
    (u k : String) (e : Entry) (m : Dict Entry)
    → IsMap m
    → Dict.get k m ≡ some e
    → runs_of u (Dict.delete k m) + one_if (str_eq e.username u) ≡ runs_of u m
unfolding Dict.get Dict.delete
runs_of-delete u k e [] v h = absurd (cc)
runs_of-delete u k e ((j, w) ∷ m) v h = elim (Bool-cases (str_eq j k)) [
  | inl q ↦
      let same : some w ≡ some e = rw q at h in
      let gone : Dict.get k m ≡ none = ground (arith, v.0, (eq_iff j k).0 q) in
      rw (q, delete_absent k m gone) (ground (arith, same))
  | inr q ↦
      let later : Dict.get k m ≡ some e = rw q at h in
      rw q (ground (arith, runs_of-delete u k e m v.1 later))
]

runs_of-modify :
    (u k : String) (c : ℕ) (m : Dict Entry)
    → runs_of u (Dict.modify k (λ e. record e { abort = some c }) m) ≡ runs_of u m
unfolding Dict.modify
runs_of-modify u k c [] = refl
runs_of-modify u k c ((j, w) ∷ m) = ground (arith, runs_of-modify u k c m)

length-modify :
    (k : String) (c : ℕ) (m : Dict Entry)
    → length (Dict.modify k (λ e. record e { abort = some c }) m) ≡ length m
unfolding Dict.modify
length-modify k c [] = refl
length-modify k c ((j, w) ∷ m) = ground (arith, length-modify k c m)

length-delete-le : (k : String) (m : Dict Entry) → length (Dict.delete k m) ≤ length m
length-delete-le k m = Dict.length-delete k m

-- A count of nothing is no entry.
pub settled :
    (k u : String) (n : ℕ) (m : Dict ℕ)
    → Dict.get u (if leb n 0 then Dict.delete k m else Dict.set k n m)
      ≡ (if str_eq k u then counted n else Dict.get u m)
settled k u n m = elim (Bool-cases (leb n 0)) [
  | inl e ↦ rw (e, Dict.get-delete) (ground arith)
  | inr e ↦ rw (e, Dict.get-set) (ground arith)
]

module _ (o : Limits) where
  pub record IsCounted (s : Service) : Type 0 where
    pub is_map : IsMap s.active
    pub counts : (u : String) → Dict.get u s.per_user ≡ counted (runs_of u s.active)
    pub budget : length s.active ≤ o.max_concurrent_runs
    pub per_user : (u : String) → runs_of u s.active ≤ o.max_runs_per_user

  pub used-runs_of : (u : String) (s : Service) → IsCounted s → used_by u s ≡ runs_of u s.active
  used-runs_of u s v = rw (used_by, v.counts u) (ground arith)

  -- The state with one run more.
  admitted : String → Entry → Service → Service
  admitted run_id e s = record {
    active = Dict.set run_id e s.active;
    per_user = Dict.set e.username (used_by e.username s + 1) s.per_user;
  }

  admitted-IsCounted :
      (run_id : String) (e : Entry) (s : Service)
      → Dict.get run_id s.active ≡ none
      → length s.active < o.max_concurrent_runs
      → used_by e.username s < o.max_runs_per_user
      → IsCounted s
      → IsCounted (admitted run_id e s)
  unfolding admitted
  admitted-IsCounted run_id e s fresh few mine v =
      let used = used-runs_of e.username s v in
      record {
        is_map = set-IsMap run_id e s.active v.is_map;
        counts = λ u. elim (Bool-cases (str_eq e.username u)) [
          | inl q ↦
              let same : e.username ≡ u = (eq_iff e.username u).0 q in
              rw (Dict.get-set, q, runs_of-set u run_id e s.active fresh, q, used, same)
                (ground arith)
          | inr q ↦
              rw (Dict.get-set, q, runs_of-set u run_id e s.active fresh, q)
                (ground (arith, v.counts u))
        ];
        budget = omega (arith, length-set_new run_id e s.active fresh);
        per_user = λ u. elim (Bool-cases (str_eq e.username u)) [
          | inl q ↦
              let same : e.username ≡ u = (eq_iff e.username u).0 q in
              let mine' : runs_of u s.active < o.max_runs_per_user =
                subst (λ x. runs_of x s.active < o.max_runs_per_user) same (omega (arith, used)) in
              rw (runs_of-set u run_id e s.active fresh, q) (omega arith)
          | inr q ↦ rw (runs_of-set u run_id e s.active fresh, q) (omega (arith, v.per_user u))
        ];
      }

  abbrev pub with_one_more : String → Service → Service
  with_one_more username s = record s {
    per_user = Dict.set username (used_by username s + 1) s.per_user;
  }

  -- `acquire` refuses and changes nothing, or there is room and it counts one more.
  pub acquire-cases :
      (username : String) (s : Service)
      → ((busy : Busy) × (acquire o username s ≡ (s, some busy)))
        ⊎ ((acquire o username s ≡ (with_one_more username s, none))
            × (length s.active < o.max_concurrent_runs)
            × (used_by username s < o.max_runs_per_user))
  unfolding acquire
  acquire-cases username s = elim (Bool-cases (leb o.max_concurrent_runs (length s.active))) [
    | inl p ↦ inl (replica_full (length s.active) o.max_concurrent_runs, rw (acquire, p) refl)
    | inr p ↦ elim (Bool-cases (leb o.max_runs_per_user (used_by username s))) [
      | inl q ↦ inl (user_full (used_by username s), rw (acquire, p, q) refl)
      | inr q ↦ inr (rw (acquire, p, q) refl, not_leb→lt _ _ p, not_leb→lt _ _ q)
    ]
  ]

  pub acquire-room :
      (username : String) (s : Service)
      → length s.active < o.max_concurrent_runs
      → used_by username s < o.max_runs_per_user
      → acquire o username s ≡ (with_one_more username s, none)
  unfolding acquire
  acquire-room username s few mine =
      let p : leb o.max_concurrent_runs (length s.active) ≡ false = ground arith in
      let q : leb o.max_runs_per_user (used_by username s) ≡ false = ground arith in
      rw (acquire, p, q) refl

  enter-IsCounted :
      (username run_id source : String) (at : ℕ) (s : Service)
      → Dict.get run_id s.active ≡ none
      → IsCounted s
      → IsCounted (enter o username run_id source at s).0
  unfolding enter admitted
  enter-IsCounted username run_id source at s fresh v =
      let entry : Entry = record {
        username = username;
        abort = none;
        started_at = at;
        source = source;
      } in
      elim (acquire-cases username s) [
        | inl (busy, e) ↦ rw (enter, e) v
        | inr (e, few, mine) ↦ rw (enter, e) (admitted-IsCounted run_id entry s fresh few mine v)
      ]

  on_start-IsCounted :
      (run_id : String) (callback : ℕ) (s : Service)
      → IsCounted s
      → IsCounted (on_start run_id callback s)
  unfolding on_start
  on_start-IsCounted run_id c s v = record {
    is_map = modify-IsMap run_id _ s.active v.is_map;
    counts = λ u. rw (runs_of-modify u run_id c s.active) (v.counts u);
    budget = rw (length-modify run_id c s.active) v.budget;
    per_user = λ u. rw (runs_of-modify u run_id c s.active) (v.per_user u);
  }

  held-runs_of :
      (run_id : String) (e : Entry) (s : Service)
      → Dict.get run_id s.active ≡ some e
      → IsCounted s
      → held_by e.username s ≡ runs_of e.username (Dict.delete run_id s.active) + 1
  held-runs_of run_id e s h v =
      let more = runs_of-delete e.username run_id e s.active v.is_map h in
      rw (held_by, v.counts e.username) (ground (arith, more, eq_refl e.username))

  runs_of-delete_other :
      (run_id : String) (e : Entry) (s : Service) (u : String)
      → Dict.get run_id s.active ≡ some e
      → str_eq e.username u ≡ false
      → IsCounted s
      → runs_of u s.active ≡ runs_of u (Dict.delete run_id s.active)
  runs_of-delete_other run_id e s u h q v =
      ground (arith, runs_of-delete u run_id e s.active v.is_map h)

  release-counts :
      (run_id : String) (e : Entry) (s : Service) (u : String)
      → Dict.get run_id s.active ≡ some e
      → IsCounted s
      → Dict.get u (release e.username run_id s).per_user
        ≡ counted (runs_of u (Dict.delete run_id s.active))
  unfolding release
  release-counts run_id e s u h v =
      let held = held-runs_of run_id e s h v in
      let kept = runs_of e.username (Dict.delete run_id s.active) in
      let minus : kept + 1 - 1 ≡ kept = omega arith in
      elim (Bool-cases (str_eq e.username u)) [
        | inl q ↦
            let same : e.username ≡ u = (eq_iff e.username u).0 q in
            rw (held, minus, settled, q)
              (ap (λ x. counted (runs_of x (Dict.delete run_id s.active))) same)
        | inr q ↦
            rw (held, minus, settled, q)
              (v.counts u ∙ ap counted (omega (arith, runs_of-delete_other run_id e s u h q v)))
      ]

  release-IsCounted :
      (run_id : String) (e : Entry) (s : Service)
      → Dict.get run_id s.active ≡ some e
      → IsCounted s
      → IsCounted (release e.username run_id s)
  unfolding release
  release-IsCounted run_id e s h v = record {
    is_map = delete-IsMap run_id s.active v.is_map;
    counts = λ u. release-counts run_id e s u h v;
    budget = omega (arith, v.budget, Dict.length-delete run_id s.active);
    per_user = λ u. omega (arith, v.per_user u, runs_of-delete u run_id e s.active v.is_map h);
  }

  step-IsCounted : (s t : Service) → Step o s t → IsCounted s → IsCounted t
  step-IsCounted s t (entered u i source at _ fresh) v = enter-IsCounted u i source at s fresh v
  step-IsCounted s t (started i c _) v = on_start-IsCounted i c s v
  step-IsCounted s t (left i e _ h) v = release-IsCounted i e s h v

  pub Reach-IsCounted : (s : Service) → Reach o s → IsCounted s
  unfolding Dict.get
  Reach-IsCounted _ begun = record {
    is_map = tt;
    counts = λ u. refl;
    budget = omega arith;
    per_user = λ u. omega arith;
  }
  Reach-IsCounted t (next s _ r p) = step-IsCounted s t p (Reach-IsCounted s r)

  -- In every state that the beginnings, the callbacks and the ends of runs and compactions reach, in
  -- whatever order they come, no more runs are active than the replica's budget, no more of a user
  -- than the user's limit, and the table of the counts says for each user how many of the active
  -- runs are theirs, with no entry where there is none.
  pub Reach-counts :
      (s : Service) (u : String)
      → Reach o s
      → (length s.active ≤ o.max_concurrent_runs)
        × (runs_of u s.active ≤ o.max_runs_per_user)
        × (Dict.get u s.per_user ≡ counted (runs_of u s.active))
  Reach-counts s u r = let v = Reach-IsCounted s r in (v.budget, v.per_user u, v.counts u)
