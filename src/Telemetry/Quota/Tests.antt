-- ===== src/Telemetry/Quota/Tests.antt =====
-- The theorem on the quota gate at a concrete user.
use agent_pod.Base.{ℕ, ◌≡◌, ◌↔◌, refl, String, Option, some, true, false, if◌then◌else◌, str_eq}
use agent_pod.Cron.Schedule.{Wall}
use agent_pod.Telemetry.Quota.{
  Read, threw, value, Group, Used, thrown, forbidden, judge, check_group, check, assert_quota,
}
use agent_pod.Telemetry.Quota.Gate.{is_open, IsShut, assert_quota-IsShut}

abbrev noon : ℕ → Wall
noon ts = record { year = 1970; month = 1; day = 1; hour = 12; minute = 0; second = 0; dow = 4 }

abbrev users : String → Read String
users name = if str_eq name "ann" then value "g1" else threw

abbrev groups : String → Read (Option Group)
groups id =
    value (some (record { id = id; name = "team"; token_quota = 100; daily_token_quota = 0 }))

abbrev usage : String → Option ℕ → Read Used
usage name day = value (record { total = 100; today = 3 })

assert_quota-IsShut_example :
    (is_open (assert_quota noon true users groups usage "ann" 9) ≡ false)
    ↔ IsShut noon true users groups usage "ann" 9
assert_quota-IsShut_example = assert_quota-IsShut noon true users groups usage "ann" 9

all_used : assert_quota noon true users groups usage "ann" 9 ≡ thrown (forbidden 100 100)
unfolding assert_quota check check_group judge
all_used = refl
