-- ===== src/Agent/Service/Attach.antt =====
-- src/agent/run-service.js: who is let into the stream of a run by `attach`.
use mathlib.Core.List.{reverse_aux}
use agent_pod.Base.{
  ℕ, ◌≡◌, refl, sym, ap, ◌∙◌, subst, String, List, [], ◌∷◌, none, some, Bool, true, false, arith,
  ◌||◌, str_eq, eq_iff, Bool-cases, Option-cases, inl, inr, All, All-keep, All-keep_of, All-map₂,
  keep, map, reverse, some_of,
}
use agent_pod.Base.Dict
use agent_pod.Base.Dict.{Dict}
use agent_pod.Base.Dict.Unique.{IsMap, get-none-All}
use agent_pod.Base.Dict.Keep.{get_unique, keep-IsMap}
use agent_pod.Base.Sort
use agent_pod.Agent.Runs
use agent_pod.Agent.Runs.{Run, Resumed}
use agent_pod.Agent.Runs.Views.{list_for, listed}
use agent_pod.Agent.Runs.Retention.{sweep-keep}
use agent_pod.Agent.Service.{attach}

-- Each run stands under its own id, and no id stands twice.
pub record IsKeyed (m : Runs.Runs) : Type 0 where
  pub is_map : IsMap m
  pub keyed : All (λ p. p.1.run_id ≡ p.0) m

All-reverse_aux :
    (P : Run → Type 0) (xs ys : List Run) → All P xs → All P ys → All P (reverse_aux xs ys)
All-reverse_aux P [] ys h k = k
All-reverse_aux P (x ∷ xs) ys h k = All-reverse_aux P xs (x ∷ ys) h.1 (h.0, k)

All-reverse : (P : Run → Type 0) (xs : List Run) → All P xs → All P (reverse xs)
All-reverse P xs h = All-reverse_aux P xs [] h tt

All-values : (P : Run → Type 0) (m : Runs.Runs) → All (λ p. P p.1) m → All P (Dict.values m)
unfolding Dict.values
All-values P [] h = tt
All-values P ((k, r) ∷ m) h = (h.0, All-values P m h.1)

module _ (run_id username : String) where
  -- The run is not the one asked for.
  abbrev IsOther : Run → Type 0
  IsOther r = str_eq r.run_id run_id ≡ false

  -- The user's runs are all other ones.
  abbrev IsAside : Run → Type 0
  IsAside r = str_eq r.username username ≡ true → IsOther r

  some_of-listed :
      (rs : List Run)
      → All IsOther rs
      → some_of (λ r. str_eq r.run_id run_id) (map listed rs) ≡ false
  some_of-listed [] h = refl
  some_of-listed (r ∷ rs) h = ground (arith, h.0, some_of-listed rs h.1)

  list_for-aside :
      (o : Runs.Limits) (at : ℕ) (m : Runs.Runs)
      → All (λ p. IsAside p.1) (Runs.sweep o at m)
      → some_of (λ r. str_eq r.run_id run_id) (list_for o at username "" m).1 ≡ false
  unfolding list_for
  list_for-aside o at m h = some_of-listed _ (
      All-reverse IsOther _ (
        Sort.sort-All (λ r. r.started_at) IsOther _
          (All-reverse IsOther _ (
            All-keep IsOther (λ r. str_eq "" "" || str_eq r.session_key "") _
              (All-keep_of IsOther (λ r. str_eq r.username username) _
                (All-values IsAside (Runs.sweep o at m) h))))))

  IsAside-none : (m : Runs.Runs) → IsKeyed m → Dict.get run_id m ≡ none → All (λ p. IsAside p.1) m
  IsAside-none m v e =
      All-map₂ _ (λ p. p.1.run_id ≡ p.0) (λ p. IsAside p.1) m
        (λ p h k _. ap (λ i. str_eq i run_id) k ∙ h) (get-none-All run_id m e) v.keyed

  IsAside-some :
      (m : Runs.Runs) (r : Run)
      → IsKeyed m
      → Dict.get run_id m ≡ some r
      → str_eq r.username username ≡ false
      → All (λ p. IsAside p.1) m
  IsAside-some m r v e q =
      All-map₂ _ (λ p. p.1.run_id ≡ p.0) (λ p. IsAside p.1) m
        (λ p h k mine. elim h [
          | inl d ↦ ap (λ i. str_eq i run_id) k ∙ d
          | inr same ↦
              let bad : true ≡ false = sym mine ∙ ap (λ x. str_eq x.username username) same ∙ q in
              absurd (cc)
        ])
        (get_unique run_id r m v.is_map e) v.keyed

keep-IsKeyed : (q : String × Run → Bool) (m : Runs.Runs) → IsKeyed m → IsKeyed (keep q m)
keep-IsKeyed q m v = record {
  is_map = keep-IsMap q m v.is_map;
  keyed = All-keep (λ p. p.1.run_id ≡ p.0) q m v.keyed;
}

sweep-IsKeyed : (o : Runs.Limits) (at : ℕ) (m : Runs.Runs) → IsKeyed m → IsKeyed (Runs.sweep o at m)
sweep-IsKeyed o at m v =
    let (q, e) = sweep-keep o at m in subst IsKeyed (sym e) (keep-IsKeyed q m v)

-- What a filter leaves was there before.
get_of_keep :
    (q : String × Run → Bool) (k : String) (r : Run) (m : Runs.Runs)
    → IsMap m
    → Dict.get k (keep q m) ≡ some r
    → Dict.get k m ≡ some r
unfolding Dict.get
get_of_keep q k r [] v e = e
get_of_keep q k r ((j, w) ∷ m) v e = elim (Bool-cases (q (j, w))) [
  | inl p ↦ elim (Bool-cases (str_eq j k)) [
    | inl h ↦ let same : some w ≡ some r = rw (p, h) at e in rw h same
    | inr h ↦
        let later : Dict.get k (keep q m) ≡ some r = rw (p, h) at e in
        rw h (get_of_keep q k r m v.1 later)
  ]
  | inr p ↦
      let later : Dict.get k (keep q m) ≡ some r = rw p at e in
      let found = get_of_keep q k r m v.1 later in
      elim (Bool-cases (str_eq j k)) [
        | inl h ↦
            let gone : Dict.get k m ≡ none =
              subst (λ i. Dict.get i m ≡ none) ((eq_iff j k).0 h) v.0 in
            absurd (cc)
        | inr h ↦ rw h found
      ]
]

attach_aside :
    (o : Runs.Limits) (run_id username : String) (from listener at : ℕ) (m : Runs.Runs)
    → All (λ p. IsAside run_id username p.1) (Runs.sweep o at m)
    → (attach o run_id username from listener at (some m)).1 ≡ none
unfolding attach
attach_aside o run_id username from listener at m h =
    rw (attach, list_for-aside run_id username o at m h) refl

-- In a table where each run stands under its own id and no id stands twice: who is given the
-- stream of a run by `attach` is the user whose run it is.
pub attach-owner :
    (o : Runs.Limits) (run_id username : String) (from listener at : ℕ) (m : Runs.Runs)
    (x : Resumed)
    → IsKeyed m
    → (attach o run_id username from listener at (some m)).1 ≡ some x
    → (r : Run) × (Dict.get run_id m ≡ some r) × (r.username ≡ username)
attach-owner o run_id username from listener at m x v given =
    let swept = Runs.sweep o at m in
    let w = sweep-IsKeyed o at m v in
    elim (Option-cases (Dict.get run_id swept)) [
      | inl e ↦
          let refused =
            attach_aside o run_id username from listener at m
              (IsAside-none run_id username swept w e) in
          absurd (cc)
      | inr (r, e) ↦ elim (Bool-cases (str_eq r.username username)) [
        | inl p ↦
            let (q, same) = sweep-keep o at m in
            (
              r,
              get_of_keep q run_id r m v.is_map (ap (Dict.get run_id) (sym same) ∙ e),
              (eq_iff r.username username).0 p,
            )
        | inr p ↦
            let refused =
              attach_aside o run_id username from listener at m
                (IsAside-some run_id username swept r w e p) in
            absurd (cc)
      ]
    ]
