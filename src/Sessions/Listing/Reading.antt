-- ===== src/Sessions/Listing/Reading.antt =====
-- src/sessions/: a client that reads the list of sessions to its end.
use agent_pod.Base.{
  ◌==◌, ltb, ℕ, zero, suc, ◌≤◌, ◌<◌, ◌≡◌, refl, ap, ◌∙◌, String, List, [], ◌∷◌, ◌++◌, Option, none,
  some, Bool, true, false, if◌then◌else◌, arith, length, keep, All, All-keep, All-map, Bool-cases,
  inl, inr,
}
use agent_pod.Sessions.Page.{normalize_limit, page_default}
use agent_pod.Sessions.Page.Walk.{IsOrdered, walk, walk-source}
use agent_pod.Sessions.Listing.{
  Row, bit, Cursor, Query, cursor_of, is_listed, cursor_clause, list_sessions,
}

-- What the database says of keys: no key is below itself, and of two not each below the other.
pub record IsKeyOrder (key_lt : String → String → Bool) : Type 0 where
  pub irrefl : (a : String) → key_lt a a ≡ false
  pub asym : (a b : String) → key_lt a b ≡ true → key_lt b a ≡ false

-- ORDER BY pinned DESC, updated_at DESC, session_key DESC: the first column that differs decides.
abbrev pub is_before : (String → String → Bool) → Row → Row → Bool
is_before key_lt r s =
    if bit r.pinned == bit s.pinned
    then if r.updated_at == s.updated_at
      then key_lt s.session_key r.session_key
      else ltb s.updated_at r.updated_at
    else ltb (bit s.pinned) (bit r.pinned)

abbrev pub IsSorted : (String → String → Bool) → List Row → Type 0
IsSorted key_lt [] = Unit
IsSorted key_lt (r ∷ rs) = All (λ s. is_before key_lt r s ≡ true) rs × IsSorted key_lt rs

module _ (key_lt : String → String → Bool) where
  -- All the pages of a list, for at most so many of them.
  unfoldable pub read_all : ℕ → Query → Option Cursor → List Row → List Row
  read_all zero q cursor rows = []
  read_all (suc pages) q cursor rows =
      let p = list_sessions key_lt q cursor rows in
      let rest = read_all pages q p.next_cursor rows in p.page ++ (if p.has_more then rest else [])

  IsSorted-keep :
      (p : Row → Bool) (rs : List Row) → IsSorted key_lt rs → IsSorted key_lt (keep p rs)
  IsSorted-keep p [] v = tt
  IsSorted-keep p (r ∷ rs) v = elim (Bool-cases (p r)) [
    | inl e ↦ rw e (All-keep _ p rs v.0, IsSorted-keep p rs v.1)
    | inr e ↦ rw e (IsSorted-keep p rs v.1)
  ]

  read_all-walk :
      (pages : ℕ) (q : Query) (cursor : Option Cursor) (rows : List Row)
      → read_all pages q cursor rows
        ≡ walk cursor_of
            (cursor_clause key_lt)
            pages
            (keep (is_listed q) rows)
            (normalize_limit q.limit page_default)
            cursor
  unfolding read_all walk list_sessions
  read_all-walk zero q cursor rows = refl
  read_all-walk (suc pages) q none rows =
      let p = list_sessions key_lt q none rows in
      ap (λ ys. p.page ++ (if p.has_more then ys else []))
        (read_all-walk pages q p.next_cursor rows)
  read_all-walk (suc pages) q (some c) rows =
      let p = list_sessions key_lt q (some c) rows in
      ap (λ ys. p.page ++ (if p.has_more then ys else []))
        (read_all-walk pages q p.next_cursor rows)

  module _ (order : IsKeyOrder key_lt) where
    itself : (r : Row) → cursor_clause key_lt (cursor_of r) r ≡ false
    itself r = ground (arith, order.irrefl r.session_key)

    -- The cursor clause, spelt out as alternatives, is the order of the columns.
    cursor_clause-before : (r s : Row) → cursor_clause key_lt (cursor_of r) s ≡ is_before key_lt r s
    cursor_clause-before r s = ground arith

    back :
        (r s : Row)
        → is_before key_lt r s ≡ true
        → (cursor_clause key_lt (cursor_of r) s ≡ true)
          × (cursor_clause key_lt (cursor_of s) r ≡ false)
    back r s h =
        let before = cursor_clause-before r s ∙ h in
        (
          before,
          elim (Bool-cases (key_lt s.session_key r.session_key)) [
            | inl e ↦
                let f = order.asym s.session_key r.session_key e in ground (arith, before, e, f)
            | inr e ↦ ground (arith, before, e)
          ],
        )

    sorted-IsOrdered :
        (rs : List Row) → IsSorted key_lt rs → IsOrdered cursor_of (cursor_clause key_lt) rs
    sorted-IsOrdered [] v = tt
    sorted-IsOrdered (r ∷ rs) v = (itself r, All-map _ _ rs (back r) v.0, sorted-IsOrdered rs v.1)

    -- Where the rows are in the order of the query's columns and no two keys are each below the
    -- other, a client that reads page by page, each from the cursor of the last, with a positive
    -- limit, gets every session that the query lists exactly once and in order; one page more than
    -- there are sessions is enough.
    pub read_all-listed :
        (pages : ℕ) (q : Query) (rows : List Row)
        → IsSorted key_lt rows
        → 1 ≤ normalize_limit q.limit page_default
        → length (keep (is_listed q) rows) < pages
        → read_all pages q none rows ≡ keep (is_listed q) rows
    read_all-listed pages q rows v l p =
        read_all-walk pages q none rows
        ∙ walk-source cursor_of (cursor_clause key_lt) pages (normalize_limit q.limit page_default)
            0 (keep (is_listed q) rows) none l
            (sorted-IsOrdered (keep (is_listed q) rows) (IsSorted-keep (is_listed q) rows v)) refl p
