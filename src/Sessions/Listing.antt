-- ===== src/Sessions/Listing.antt =====
-- src/sessions/store.js and src/sessions/cursor.js: the list of a user's sessions.
-- The rows of the table are given in the order of the query's ORDER BY, and `key_lt` is how the
-- database compares keys. A cursor is what its text was decoded to.
pub mod Reading
mod Tests
use agent_pod.Base.{
  ℕ, ◌+◌, String, List, Option, none, some, Bool, true, false, if◌then◌else◌, ◌==◌, ltb, not, ◌&&◌,
  ◌||◌, keep, take, str_eq,
}
use agent_pod.Sessions.Page.{Page, finish_page, normalize_limit, page_default}

pub record Row : Type 0 where
  pub username : String
  pub session_key : String
  pub title : String
  pub entry_count : ℕ
  pub project_id : String
  pub pinned : Bool
  pub archived : Bool
  pub updated_at : ℕ

pub record Cursor : Type 0 where
  pub pinned : ℕ
  pub updated_at : ℕ
  pub session_key : String

-- `limit` as in `normalize_limit`.
pub record Query : Type 0 where
  pub username : String
  pub project_id : Option String
  pub include_archived : Bool
  pub limit : Option ℕ

-- The column, which holds 1 or 0.
abbrev pub bit : Bool → ℕ
bit true = 1
bit false = 0

-- What `encodeCursor` puts into the text.
abbrev pub cursor_of : Row → Cursor
cursor_of r = record {
  pinned = bit r.pinned;
  updated_at = r.updated_at;
  session_key = r.session_key;
}

-- The conditions without the cursor.
abbrev pub is_listed : Query → Row → Bool
is_listed q r =
    str_eq r.username q.username
    && (elim q.project_id [ none ↦ true | some id ↦ str_eq r.project_id id ])
    && (q.include_archived || not r.archived)

module _ (key_lt : String → String → Bool) where
  -- `cursorClause`
  abbrev pub cursor_clause : Cursor → Row → Bool
  cursor_clause c r =
      ltb (bit r.pinned) c.pinned
      || ((bit r.pinned == c.pinned) && ltb r.updated_at c.updated_at)
      || (((bit r.pinned == c.pinned) && (r.updated_at == c.updated_at))
          && key_lt r.session_key c.session_key)

  -- The rows of the query.
  abbrev pub selected : Query → Option Cursor → List Row → List Row
  selected q none rows = keep (is_listed q) rows
  selected q (some c) rows = keep (cursor_clause c) (keep (is_listed q) rows)

  unfoldable pub list_sessions : Query → Option Cursor → List Row → Page Row Cursor
  unfolding finish_page normalize_limit
  list_sessions q cursor rows =
      let limit = normalize_limit q.limit page_default in
      finish_page (take (limit + 1) (selected q cursor rows)) limit cursor_of
