-- ===== src/Cron/Fields.antt =====
-- src/cron/schedule.js: the fields of a cron expression.
-- The text is already cut at its spaces, commas, slashes and dashes, with the names of months and
-- weekdays put as numbers; `none` for a number is a text that is no integer.
pub mod Steps
mod Tests
use agent_pod.Base.{
  ℕ, zero, suc, ◌+◌, ◌-◌, String, List, [], ◌∷◌, ◌++◌, Option, none, some, Bool, true, false,
  if◌then◌else◌, ◌==◌, ltb, leb, not, ◌&&◌, ◌||◌, keep, some_of, ◌>>=◌,
}

-- What stands before the slash of a piece: `*`, `a`, or `a-b`.
pub data Range : Type 0 where
  star : Range
  single : (a : Option ℕ) → Range
  between : (a b : Option ℕ) → Range

-- `step` is `none` where there is no slash.
pub record Piece : Type 0 where
  pub range : Range
  pub step : Option (Option ℕ)

-- An entry of `FIELD_RANGES`.
pub record Limits : Type 0 where
  pub min : ℕ
  pub max : ℕ
  pub is_weekday : Bool  -- `index === 4`

abbrev pub minute_limits : Limits
minute_limits = record { min = 0; max = 59; is_weekday = false }

abbrev pub hour_limits : Limits
hour_limits = record { min = 0; max = 23; is_weekday = false }

abbrev pub dom_limits : Limits
dom_limits = record { min = 1; max = 31; is_weekday = false }

abbrev pub month_limits : Limits
month_limits = record { min = 1; max = 12; is_weekday = false }

abbrev pub dow_limits : Limits
dow_limits = record { min = 0; max = 7; is_weekday = true }

-- `for (let value = from; value <= to; value += step) allowed.add(value)`, for so many rounds.
unfoldable pub stepped : ℕ → ℕ → ℕ → ℕ → List ℕ
stepped zero value last step = []
stepped (suc rounds) value last step =
    let rest = stepped rounds (value + step) last step in
    if leb value last then value ∷ rest else []

-- `from` and `to`; none where the code throws.
abbrev pub ends_of : Limits → Piece → Option (ℕ × ℕ)
ends_of limits p = elim p.range [
  | star ↦ some (limits.min, limits.max)
  | single none ↦ none
  | single (some a) ↦ some (a, elim p.step [ none ↦ a | some step ↦ limits.max ])
  | between none b ↦ none
  | between (some a) none ↦ none
  | between (some a) (some b) ↦ some (a, b)
]

abbrev pub step_of : Piece → Option ℕ
step_of p = elim p.step [
  | none ↦ some 1
  | some none ↦ none
  | some (some n) ↦ if ltb 0 n then some n else none
]

unfoldable pub values_of : Limits → Piece → Option (List ℕ)
values_of limits p = elim (step_of p) [
  | none ↦ none
  | some step ↦ elim (ends_of limits p) [
    | none ↦ none
    | some ends ↦
        if ltb ends.0 limits.min || ltb limits.max ends.1 || ltb ends.1 ends.0
        then none
        else some (stepped (suc (ends.1 - ends.0)) ends.0 ends.1 step)
  ]
]

abbrev pub has : ℕ → List ℕ → Bool
has x = some_of (λ y. y == x)

unfoldable pub all_values : Limits → List Piece → Option (List ℕ)
unfolding values_of
all_values limits [] = some []
all_values limits (p ∷ ps) =
    let rest = all_values limits ps in
    elim (values_of limits p) [
      | none ↦ none
      | some vs ↦ elim rest [ none ↦ none | some ws ↦ some (vs ++ ws) ]
    ]

-- On weekdays 7 becomes 0.
abbrev pub sunday : Bool → List ℕ → List ℕ
sunday is_weekday vs = if is_weekday && has 7 vs then 0 ∷ keep (λ v. not (v == 7)) vs else vs

unfoldable pub parse_field : Limits → List Piece → Option (List ℕ)
unfolding all_values
parse_field limits ps = elim (all_values limits ps) [
  | none ↦ none
  | some vs ↦ some (sunday limits.is_weekday vs)
]

pub record Fields : Type 0 where
  pub minute : List ℕ
  pub hour : List ℕ
  pub dom : List ℕ
  pub month : List ℕ
  pub dow : List ℕ
  pub dom_restricted : Bool
  pub dow_restricted : Bool

abbrev pub is_star : Piece → Bool
is_star p = elim p.range [
  | star ↦ elim p.step [ none ↦ true | some step ↦ false ]
  | single a ↦ false
  | between a b ↦ false
]

-- The field is not the text `*`.
abbrev pub is_restricted : List Piece → Bool
is_restricted [] = true
is_restricted (p ∷ []) = not (is_star p)
is_restricted (p ∷ q ∷ ps) = true

-- `parseCron` on the fields of the expression.
unfoldable pub parse_cron : List (List Piece) → Option Fields
unfolding parse_field
parse_cron (a ∷ b ∷ c ∷ d ∷ e ∷ []) = do
  minute ← parse_field minute_limits a
  hour ← parse_field hour_limits b
  dom ← parse_field dom_limits c
  month ← parse_field month_limits d
  dow ← parse_field dow_limits e
  some (record {
    minute = minute;
    hour = hour;
    dom = dom;
    month = month;
    dow = dow;
    dom_restricted = is_restricted c;
    dow_restricted = is_restricted e;
  })
parse_cron fields = none
