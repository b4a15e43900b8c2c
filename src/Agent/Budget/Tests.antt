-- ===== src/Agent/Budget/Tests.antt =====
-- The theorem on the budgets at a concrete state.
use agent_pod.Base.{◌≤◌, ◌≡◌, refl, [], some, length}
use agent_pod.Base.Dict
use agent_pod.Agent.Budget.{Limits, Service, user_full, forbidden, acquire, enter, release, abort}
use agent_pod.Agent.Budget.Counts.{Reach, begun, next, entered, runs_of, counted, Reach-counts}

abbrev limits : Limits
limits = record { max_concurrent_runs = 3; max_runs_per_user = 2 }

abbrev empty : Service
empty = record { active = []; per_user = [] }

abbrev one : Service
one = (enter limits "ann" "r1" "api" 5 empty).0

abbrev two : Service
two = (enter limits "ann" "r2" "cron" 6 one).0

two-Reach : Reach limits two
unfolding enter acquire Dict.get Dict.set
two-Reach =
    next one two (next empty one begun (entered "ann" "r1" "api" 5 empty refl))
      (entered "ann" "r2" "cron" 6 one refl)

Reach-counts_example :
    (length two.active ≤ 3)
    × (runs_of "ann" two.active ≤ 2)
    × (Dict.get "ann" two.per_user ≡ counted (runs_of "ann" two.active))
Reach-counts_example = Reach-counts limits two "ann" two-Reach

-- A third run of the same user is refused.
third_refused : (acquire limits "ann" two).1 ≡ some (user_full 2)
unfolding acquire enter Dict.get Dict.set
third_refused = refl

count_gone : (release "ann" "r1" (release "ann" "r2" two)).per_user ≡ []
unfolding release acquire enter Dict.get Dict.set Dict.delete
count_gone = refl

not_yours : abort "r1" "bob" two ≡ forbidden
unfolding abort acquire enter Dict.get Dict.set
not_yours = refl
