-- ===== src/Sessions/Listing/Tests.antt =====
-- The theorem on reading the list of sessions at a concrete table.
use agent_pod.Base.{
  ℕ, ◌≡◌, refl, String, List, [], ◌∷◌, none, some, Bool, true, false, arith, keep, str_eq, eq_iff,
  Bool-cases, inl, inr, ap, ◌∙◌, if◌then◌else◌,
}
use agent_pod.Sessions.Page.{finish_page, normalize_limit}
use agent_pod.Sessions.Listing.{Row, Query, is_listed, list_sessions}
use agent_pod.Sessions.Listing.Reading.{IsKeyOrder, read_all, read_all-listed}

-- "a" is below "b".
abbrev key_lt : String → String → Bool
key_lt a b = if str_eq a "a" then str_eq b "b" else false

key_lt-IsKeyOrder : IsKeyOrder key_lt
key_lt-IsKeyOrder = record {
  irrefl = λ a. elim (Bool-cases (str_eq a "a")) [
    | inl e ↦ ap (λ x. key_lt x x) ((eq_iff a "a").0 e)
    | inr e ↦ rw e refl
  ];
  asym = λ a b h. elim (Bool-cases (str_eq a "a")) [
    | inr e ↦ let bad : false ≡ true = rw e at h in absurd (cc)
    | inl e ↦
        let other : str_eq b "b" ≡ true = rw e at h in
        ap (λ x. key_lt x a) ((eq_iff b "b").0 other) ∙ ap (λ x. key_lt "b" x) ((eq_iff a "a").0 e)
  ];
}

abbrev row : String → Bool → ℕ → Row
row key pinned updated_at = record {
  username = "ann";
  session_key = key;
  title = "";
  entry_count = 0;
  project_id = "";
  pinned = pinned;
  archived = false;
  updated_at = updated_at;
}

-- The last two were updated at the same time.
abbrev table : List Row
table = row "c" true 3 ∷ row "d" false 9 ∷ row "b" false 5 ∷ row "a" false 5 ∷ []

abbrev query : Query
query = record { username = "ann"; project_id = none; include_archived = false; limit = some 1 }

read_all-listed_example : read_all key_lt 5 query none table ≡ keep (is_listed query) table
unfolding normalize_limit
read_all-listed_example =
    read_all-listed key_lt key_lt-IsKeyOrder 5 query table
      ((refl, (refl, (refl, tt))), ((refl, (refl, tt)), ((refl, tt), (tt, tt)))) (omega arith)
      (omega arith)

-- The session that was updated at the same time is on the next page.
fourth_page :
    (list_sessions key_lt query
      (some (record { pinned = 0; updated_at = 5; session_key = "b" }))
      table).page
    ≡ row "a" false 5 ∷ []
unfolding list_sessions finish_page normalize_limit
fourth_page = refl
