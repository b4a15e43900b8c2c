-- ===== src/Sessions/Page.antt =====
-- src/persistence/page.js: the size of a page, and where the next one starts.
pub mod Walk
use agent_pod.Base.{
  ℕ, ◌+◌, min, List, [], ◌∷◌, Option, none, some, Bool, true, false, if◌then◌else◌, ltb, length,
  last?, take,
}
use mathlib.Core.Option

abbrev pub page_max : ℕ
page_max = 200

abbrev pub page_default : ℕ
page_default = 50

-- `raw` is the whole part of a number that is finite and above 0, and `none` for anything else.
unfoldable pub normalize_limit : Option ℕ → ℕ → ℕ
normalize_limit none fallback = fallback
normalize_limit (some whole) fallback = min whole page_max

pub record Page {ℓ κ} (A : Type ℓ) (K : Type κ) : Type (ℓ ⊔ κ) where
  pub page : List A
  pub has_more : Bool
  pub next_cursor : Option K  -- `none` is the empty text

unfoldable pub finish_page {ℓ κ} : {A : Type ℓ} {K : Type κ} → List A → ℕ → (A → K) → Page A K
finish_page rows limit to_cursor =
    let more = ltb limit (length rows) in
    let page = if more then take limit rows else rows in
    record {
      page = page;
      has_more = more;
      next_cursor = if more then Option.map to_cursor (last? page) else none;
    }
