-- ===== src/Worker/Ticket/Tests.antt =====
-- The theorems on tickets at concrete tokens.
use Prim.Native.String.{◌++◌ as str_append}
use agent_pod.Base.{
  ◌≡◌, ◌↔◌, refl, String, [], ◌∷◌, Option, none, some, false, if◌then◌else◌, arith, str_eq,
}
use agent_pod.Base.Dict
use agent_pod.Worker.Ticket.{Payload, accepted, claim, verify_ticket}
use agent_pod.Worker.Ticket.Guard.{claim_all, claim_once}
use agent_pod.Worker.Ticket.Verify.{IsGenuine, verify_ticket-accepted}

-- The ticket `j1` is taken at 10, others follow, and it comes again at 50.
claim_once_example :
    (claim
      (some "j1")
      90
      50
      (claim_all ((some "j2", 95, 20) ∷ (some "j1", 70, 30) ∷ []) (claim (some "j1") 60 10 []).0)).1
    ≡ false
unfolding claim Dict.get
claim_once_example =
    claim_once "j1" 60 10 90 50 ((some "j2", 95, 20) ∷ (some "j1", 70, 30) ∷ []) [] refl
      (omega arith, (omega arith, tt))

abbrev sign : String → String → String
sign secret body = str_append secret body

-- The one token of the right shape has the body "b".
abbrev shape : String → Option (String × String)
shape token = if str_eq token "b.kb" then some ("b", "kb") else none

abbrev payload : Payload
payload = record {
  exp = some 60;
  nid = some "n1";
  username = some "ann";
  scp = none;
  jti = some "j1";
}

abbrev decode : String → Option Payload
decode body = if str_eq body "b" then some payload else none

verify_ticket-accepted_example :
    (verify_ticket sign shape decode 10 "k" "n1" (some "b.kb") ≡ accepted payload)
    ↔ IsGenuine sign shape decode 10 "k" "n1" "b.kb" payload
verify_ticket-accepted_example = verify_ticket-accepted sign shape decode 10 "k" "n1" "b.kb" payload

-- The token is taken.
token_accepted : verify_ticket sign shape decode 10 "k" "n1" (some "b.kb") ≡ accepted payload
unfolding verify_ticket
token_accepted = refl
