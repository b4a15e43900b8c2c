-- ===== src/Cron/Fields/Tests.antt =====
-- The theorem on the fields at concrete pieces.
use agent_pod.Base.{◌≡◌, refl, [], ◌∷◌, none, some}
use agent_pod.Cron.Fields.{
  single, between, Piece, minute_limits, dow_limits, values_of, all_values, stepped, parse_field,
}

-- `5-30/10`
abbrev tens : Piece
tens = record { range = between (some 5) (some 30); step = some (some 10) }

tens_values : values_of minute_limits tens ≡ some (5 ∷ 15 ∷ 25 ∷ [])
unfolding values_of stepped
tens_values = refl

-- `5-7` on weekdays.
weekend :
    parse_field dow_limits (record { range = between (some 5) (some 7); step = none } ∷ [])
    ≡ some (0 ∷ 5 ∷ 6 ∷ [])
unfolding parse_field all_values values_of stepped
weekend = refl

-- `60` is no minute.
out_of_range :
    parse_field minute_limits (record { range = single (some 60); step = none } ∷ []) ≡ none
unfolding parse_field all_values values_of
out_of_range = refl
