-- ===== src/Telemetry/Quota/Gate.antt =====
-- src/telemetry/quota.js: when the gate shuts.
use agent_pod.Base.{
  ℕ, ◌≡◌, ◌↔◌, ◌⊎◌, refl, ap, ◌∙◌, String, Option, none, some, Bool, true, false, if◌then◌else◌,
  arith, ltb, leb, not, ◌&&◌, ◌||◌, str_eq, Bool-cases, inl, inr,
}
use agent_pod.Cron.Schedule.{Wall}
use agent_pod.Telemetry.Quota.{
  Read, threw, value, Group, Used, Verdict, Asserted, passed, thrown, start_of_day, judge,
  check_group, check, answer, assert_quota,
}

-- Whether a limit is set and reached.
abbrev pub is_spent : ℕ → ℕ → Bool
is_spent limit used = ltb 0 limit && leb limit used

abbrev pub is_open : Asserted → Bool
is_open (passed v) = true
is_open (thrown f) = false

module _ (wall_clock : ℕ → Wall) (enabled : Bool) (users : String → Read String)
    (groups : String → Read (Option Group)) (usage : String → Option ℕ → Read Used) where
  -- From when on the usage is asked.
  abbrev pub day_of : ℕ → Group → Option ℕ
  day_of at g = if ltb 0 g.daily_token_quota then some (start_of_day wall_clock at) else none

  -- Everything that is asked was read, and a limit of the group is set and reached.
  pub record IsShut (username : String) (at : ℕ) : Type 0 where
    pub on : (not enabled || str_eq username "") ≡ false
    pub group_id : String
    pub member : users username ≡ value group_id
    pub grouped : str_eq group_id "" ≡ false
    pub group : Group
    pub found : groups group_id ≡ value (some group)
    pub used : Used
    pub counted : usage username (day_of at group) ≡ value used
    pub spent :
        (is_spent group.token_quota used.total || is_spent group.daily_token_quota used.today)
        ≡ true

  Read-cases : {A : Type 0} (r : Read A) → (r ≡ threw) ⊎ ((a : A) × (r ≡ value a))
  Read-cases threw = inl refl
  Read-cases (value a) = inr (a, refl)

  is_open-judge :
      (at : ℕ) (g : Group) (u : Used)
      → is_open (answer wall_clock enabled users groups usage at (judge wall_clock at g u))
        ≡ not (is_spent g.token_quota u.total || is_spent g.daily_token_quota u.today)
  unfolding judge
  is_open-judge at g u = elim (Bool-cases (is_spent g.token_quota u.total)) [
    | inl a ↦ rw (judge, a) refl
    | inr a ↦ elim (Bool-cases (is_spent g.daily_token_quota u.today)) [
      | inl b ↦ rw (judge, a, b) refl
      | inr b ↦ rw (judge, a, b) refl
    ]
  ]

  abbrev gate : Verdict → ℕ → Bool
  gate v at = is_open (answer wall_clock enabled users groups usage at v)

  spent_group :
      (username : String) (at : ℕ) (g : Group)
      → gate (check_group wall_clock enabled users groups usage username at g) at ≡ false
      → (u : Used) × (usage username (day_of at g) ≡ value u)
        × ((is_spent g.token_quota u.total || is_spent g.daily_token_quota u.today) ≡ true)
  unfolding check_group
  spent_group username at g h =
      elim (Bool-cases (ltb 0 g.token_quota || ltb 0 g.daily_token_quota)) [
        | inr a ↦ let bad : true ≡ false = rw (check_group, a) at h in absurd (cc)
        | inl a ↦ elim (Read-cases (usage username (day_of at g))) [
          | inl b ↦ let bad : true ≡ false = rw (check_group, a, b) at h in absurd (cc)
          | inr (u, b) ↦
              let shut : gate (judge wall_clock at g u) at ≡ false = rw (check_group, a, b) at h in
              (u, b, ground (arith, is_open-judge at g u, shut))
        ]
      ]

  gate-IsShut :
      (username : String) (at : ℕ)
      → is_open (assert_quota wall_clock enabled users groups usage username at) ≡ false
      → IsShut username at
  unfolding assert_quota check
  gate-IsShut username at h = elim (Bool-cases (not enabled || str_eq username "")) [
    | inl a ↦ let bad : true ≡ false = rw (check, a) at h in absurd (cc)
    | inr a ↦ elim (Read-cases (users username)) [
      | inl b ↦ let bad : true ≡ false = rw (check, a, b) at h in absurd (cc)
      | inr (id, b) ↦ elim (Bool-cases (str_eq id "")) [
        | inl c ↦ let bad : true ≡ false = rw (check, a, b, c) at h in absurd (cc)
        | inr c ↦ elim (Read-cases (groups id)) [
          | inl d ↦ let bad : true ≡ false = rw (check, a, b, c, d) at h in absurd (cc)
          | inr (none, d) ↦ let bad : true ≡ false = rw (check, a, b, c, d) at h in absurd (cc)
          | inr (some g, d) ↦
              let (u, counted, spent) = spent_group username at g (rw (check, a, b, c, d) at h) in
              record {
                on = a;
                group_id = id;
                member = b;
                grouped = c;
                group = g;
                found = d;
                used = u;
                counted = counted;
                spent = spent;
              }
        ]
      ]
    ]
  ]

  IsShut-gate :
      (username : String) (at : ℕ)
      → IsShut username at
      → is_open (assert_quota wall_clock enabled users groups usage username at) ≡ false
  unfolding assert_quota check check_group
  IsShut-gate username at v =
      let limited : (ltb 0 v.group.token_quota || ltb 0 v.group.daily_token_quota) ≡ true =
        ground (arith, v.spent) in
      rw (check, v.on, v.member, v.grouped, v.found, limited, v.counted)
        (is_open-judge at v.group v.used ∙ ap not v.spent)

  -- A run is refused exactly if the gate is on, the user's group and what was used could be read,
  -- and a limit that is set is reached by what was used, in all or on the day: whatever cannot be
  -- read lets it pass.
  pub assert_quota-IsShut :
      (username : String) (at : ℕ)
      → (is_open (assert_quota wall_clock enabled users groups usage username at) ≡ false)
        ↔ IsShut username at
  assert_quota-IsShut username at = (gate-IsShut username at, IsShut-gate username at)
