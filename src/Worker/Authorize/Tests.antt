-- ===== src/Worker/Authorize/Tests.antt =====
-- The theorem on tickets and scopes at a concrete token.
use Prim.Native.String.{◌++◌ as str_append}
use agent_pod.Base.{◌≡◌, refl, String, [], Option, none, some, true, false, if◌then◌else◌, str_eq}
use agent_pod.Base.Dict
use agent_pod.Worker.Ticket.{Payload, claim, verify_ticket, ticket_scope}
use agent_pod.Worker.Authorize.{Config, redeem, authorize_lease_create, authorize_admin}
use agent_pod.Worker.Authorize.Scopes.{ticket_of, authorize-exclusive}

abbrev sign : String → String → String
sign secret body = str_append secret body

-- The one token of the right shape has the body "b".
abbrev shape : String → Option (String × String)
shape token = if str_eq token "b.kb" then some ("b", "kb") else none

abbrev payload : Payload
payload = record {
  exp = some 60;
  nid = some "n1";
  username = some "ann";
  scp = none;
  jti = some "j1";
}

abbrev decode : String → Option Payload
decode body = if str_eq body "b" then some payload else none

abbrev config : Config
config = record {
  enabled = true;
  ticket_secret = "k";
  node_id = "n1";
  allow_anonymous = false;
  token = "";
}

authorize-exclusive_example :
    ((claim (some "j1") 60 10 []).1 ≡ true)
    × (ticket_of (authorize_admin sign shape decode str_eq config 11 "b.kb" []).1 ≡ none)
unfolding authorize_lease_create verify_ticket redeem ticket_scope claim Dict.get
authorize-exclusive_example =
    authorize-exclusive sign shape decode str_eq config 10 11 "b.kb" false [] [] payload refl
