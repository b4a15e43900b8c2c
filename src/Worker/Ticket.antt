-- ===== src/Worker/Ticket.antt =====
-- sandbox-worker/src/manager/ticket.js: the tickets that the manager signs, and their single use.
-- `now`, the keyed digest, the shape of a token and the decoding of its body are arguments: the
-- first is the clock, the others are the language's crypto, pattern and JSON libraries.
pub mod Guard
pub mod Verify
mod Tests
use agent_pod.Base.{
  ℕ, String, List, [], ◌∷◌, Option, none, some, Bool, true, false, if◌then◌else◌, ltb, leb, not,
  ◌&&◌, ◌||◌, length, keep, str_eq,
}
use agent_pod.Base.Dict
use agent_pod.Base.Dict.{Dict}

-- The fields of a decoded payload that is an object; `none` where the type is not the one looked for.
pub record Payload : Type 0 where
  pub exp : Option ℕ
  pub nid : Option String
  pub username : Option String
  pub scp : Option String
  pub jti : Option String

pub data Reason : Type 0 where
  no_secret_configured : Reason
  malformed : Reason
  bad_signature : Reason
  bad_payload : Reason
  expired : Reason
  wrong_node : Reason
  missing_username : Reason

pub data Verdict : Type 0 where
  accepted : Payload → Verdict
  rejected : Reason → Verdict

-- `payload.nid !== nodeId`
abbrev pub is_other : String → Option String → Bool
is_other node none = true
is_other node (some nid) = not (str_eq nid node)

-- `typeof payload.exp !== 'number' || payload.exp <= now`
abbrev pub is_over : ℕ → Option ℕ → Bool
is_over at none = true
is_over at (some exp) = leb exp at

-- `typeof x !== 'string' || !x`
abbrev pub is_blank : Option String → Bool
is_blank none = true
is_blank (some x) = str_eq x ""

-- The tests on a payload whose signature holds.
unfoldable pub check_payload : ℕ → String → Payload → Verdict
check_payload at node_id p =
    if is_over at p.exp
    then rejected expired
    else if not (str_eq node_id "") && is_other node_id p.nid
    then rejected wrong_node
    else if is_blank p.username
    then rejected missing_username
    else accepted p

-- A token that is not a text is `none`. `sign secret body` is the digest in base64url, `shape` the
-- body and the signature of a token of the right shape, `decode` the object that a body stands for.
module _ (sign : String → String → String) (shape : String → Option (String × String))
    (decode : String → Option Payload) where
  unfoldable pub verify_ticket : ℕ → String → String → Option String → Verdict
  unfolding check_payload
  verify_ticket at secret node_id none =
      if str_eq secret "" then rejected no_secret_configured else rejected malformed
  verify_ticket at secret node_id (some token) =
      if str_eq secret "" then rejected no_secret_configured else elim (shape token) [
        | none ↦ rejected malformed
        | some parts ↦
            if not (str_eq parts.1 (sign secret parts.0))
            then rejected bad_signature
            else elim (decode parts.0) [
              | none ↦ rejected bad_payload
              | some p ↦ check_payload at node_id p
            ]
      ]

pub data Scope : Type 0 where
  admin : Scope
  lease : Scope

unfoldable pub ticket_scope : Option Payload → Scope
ticket_scope none = lease
ticket_scope (some p) = elim p.scp [
  | none ↦ lease
  | some raw ↦ if str_eq raw "admin" then admin else lease
]

-- `seen`: the tickets that were used, with the time at which each runs out.
abbrev pub Seen : Type 0
Seen = Dict ℕ

-- `createTicketGuard.claim`
unfoldable pub claim : Option String → ℕ → ℕ → Seen → Seen × Bool
claim none exp at seen = (seen, false)
claim (some jti) exp at seen = if str_eq jti "" then (seen, false) else elim (Dict.get jti seen) [
  | some used ↦ (seen, false)
  | none ↦
      let left = if ltb 64 (length seen) then keep (λ p. not (leb p.1 at)) seen else seen in
      (Dict.set jti exp left, true)
]
