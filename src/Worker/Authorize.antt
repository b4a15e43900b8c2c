-- ===== src/Worker/Authorize.antt =====
-- sandbox-worker/src/server.js: who may take a lease, and who may run the operators' calls.
pub mod Scopes
mod Tests
use agent_pod.Base.{
  ℕ, String, Option, none, some, Bool, true, false, if◌then◌else◌, not, ◌&&◌, str_eq,
}
use agent_pod.Worker.Ticket.{
  Payload, Reason, Verdict, accepted, rejected, Scope, admin, lease, ticket_scope, Seen, claim,
  verify_ticket,
}

-- The fields of `config` that the two functions read.
pub record Config : Type 0 where
  pub enabled : Bool  -- `manager.enabled`
  pub ticket_secret : String
  pub node_id : String
  pub allow_anonymous : Bool
  pub token : String

pub data Refusal : Type 0 where
  ticket : Reason → Refusal
  wrong_scope : Refusal
  ticket_replayed : Refusal
  no_valid_ticket : Refusal
  bad_token : Refusal
  no_credential : Refusal

pub data Via : Type 0 where
  anonymous : Via
  static_token : Via
  by_ticket : Payload → Via

pub data Answer : Type 0 where
  granted : Via → Answer
  refused : Refusal → Answer

abbrev pub exp_of : Payload → ℕ
exp_of p = elim p.exp [ none ↦ 0 | some exp ↦ exp ]

abbrev pub is_lease : Scope → Bool
is_lease lease = true
is_lease admin = false

-- The tests on a ticket that was verified.
unfoldable pub redeem : ℕ → Bool → Payload → Seen → Seen × Answer
redeem at for_lease p seen =
    let scoped =
      if for_lease
      then is_lease (ticket_scope (some p))
      else not (is_lease (ticket_scope (some p))) in
    if not scoped
    then (seen, refused wrong_scope)
    else let r = claim p.jti (exp_of p) at seen in
      if r.1 then (r.0, granted (by_ticket p)) else (r.0, refused ticket_replayed)

module _ (sign : String → String → String) (shape : String → Option (String × String))
    (decode : String → Option Payload) (token_matches : String → String → Bool) where
  -- A request without a bearer token has the empty one.
  unfoldable pub authorize_lease_create : Config → ℕ → String → Bool → Seen → Seen × Answer
  authorize_lease_create c at bearer static_ok seen =
      if c.enabled && not (str_eq bearer "")
      then elim (verify_ticket sign shape decode at c.ticket_secret c.node_id (some bearer)) [
        | accepted p ↦ redeem at true p seen
        | rejected reason ↦
            if static_ok then (seen, granted static_token) else (seen, refused (ticket reason))
      ]
      else if static_ok
      then (seen, granted static_token)
      else if c.enabled
      then (seen, refused no_valid_ticket)
      else (seen, refused bad_token)

  unfoldable pub authorize_admin : Config → ℕ → String → Seen → Seen × Answer
  authorize_admin c at bearer seen =
      if c.allow_anonymous
      then (seen, granted anonymous)
      else if not (str_eq bearer "") && (not (str_eq c.token "") && token_matches bearer c.token)
      then (seen, granted static_token)
      else if c.enabled && not (str_eq bearer "")
      then elim (verify_ticket sign shape decode at c.ticket_secret c.node_id (some bearer)) [
        | accepted p ↦ redeem at false p seen
        | rejected reason ↦ (seen, refused (ticket reason))
      ]
      else (seen, refused no_credential)
