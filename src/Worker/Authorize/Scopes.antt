-- ===== src/Worker/Authorize/Scopes.antt =====
-- sandbox-worker/src/server.js: what a ticket is good for.
use agent_pod.Base.{
  ℕ, ◌≡◌, ◌≢◌, ◌⊎◌, refl, sym, ap, ◌∙◌, subst, String, Option, none, some, Bool, true, false, not,
  ◌&&◌, if◌then◌else◌, str_eq, Bool-cases, Option-cases, inl, inr,
}
use agent_pod.Worker.Ticket.{
  Payload, Reason, Verdict, accepted, rejected, ticket_scope, Seen, claim, verify_ticket,
}
use agent_pod.Worker.Ticket.Verify.{verify_ticket-accepted}
use agent_pod.Worker.Authorize.{
  Config, Refusal, anonymous, static_token, by_ticket, Answer, granted, refused, is_lease, exp_of,
  redeem, authorize_lease_create, authorize_admin,
}

-- The ticket that an answer rests on.
abbrev pub ticket_of : Answer → Option Payload
ticket_of (granted (by_ticket p)) = some p
ticket_of (granted anonymous) = none
ticket_of (granted static_token) = none
ticket_of (refused reason) = none

Verdict-cases :
    (v : Verdict) → ((p : Payload) × (v ≡ accepted p)) ⊎ ((r : Reason) × (v ≡ rejected r))
Verdict-cases (accepted p) = inl (p, refl)
Verdict-cases (rejected r) = inr (r, refl)

redeemed :
    (at : ℕ) (for_lease : Bool) (p q : Payload) (seen : Seen)
    → ticket_of (redeem at for_lease p seen).1 ≡ some q
    → (p ≡ q)
      × (is_lease (ticket_scope (some p)) ≡ for_lease)
      × ((claim p.jti (exp_of p) at seen).1 ≡ true)
unfolding redeem
redeemed at true p q seen h = elim (Bool-cases (is_lease (ticket_scope (some p)))) [
  | inr a ↦ let bad : none ≡ some q = rw (redeem, a) at h in absurd (cc)
  | inl a ↦ elim (Bool-cases (claim p.jti (exp_of p) at seen).1) [
    | inr b ↦ let bad : none ≡ some q = rw (redeem, a, b) at h in absurd (cc)
    | inl b ↦ let same : some p ≡ some q = rw (redeem, a, b) at h in (cc, a, b)
  ]
]
redeemed at false p q seen h = elim (Bool-cases (is_lease (ticket_scope (some p)))) [
  | inl a ↦ let bad : none ≡ some q = rw (redeem, a) at h in absurd (cc)
  | inr a ↦ elim (Bool-cases (claim p.jti (exp_of p) at seen).1) [
    | inr b ↦ let bad : none ≡ some q = rw (redeem, a, b) at h in absurd (cc)
    | inl b ↦ let same : some p ≡ some q = rw (redeem, a, b) at h in (cc, a, b)
  ]
]

module _ (sign : String → String → String) (shape : String → Option (String × String))
    (decode : String → Option Payload) (token_matches : String → String → Bool) (c : Config) where
  abbrev verdict : ℕ → String → Verdict
  verdict at bearer = verify_ticket sign shape decode at c.ticket_secret c.node_id (some bearer)

  abbrev Redeems : ℕ → String → Bool → Payload → Seen → Type 0
  Redeems at bearer for_lease p seen =
      (verdict at bearer ≡ accepted p)
      × (is_lease (ticket_scope (some p)) ≡ for_lease)
      × ((claim p.jti (exp_of p) at seen).1 ≡ true)

  redeem-Redeems :
      (at : ℕ) (bearer : String) (for_lease : Bool) (seen : Seen) (p q : Payload)
      → verdict at bearer ≡ accepted q
      → ticket_of (redeem at for_lease q seen).1 ≡ some p
      → Redeems at bearer for_lease p seen
  redeem-Redeems at bearer for_lease seen p q v h =
      let taken = redeemed at for_lease q p seen h in
      (
        v ∙ ap accepted taken.0,
        subst (λ r. is_lease (ticket_scope (some r)) ≡ for_lease) taken.0 taken.1,
        subst (λ r. (claim r.jti (exp_of r) at seen).1 ≡ true) taken.0 taken.2,
      )

  -- `authorize_lease_create` where no ticket is looked at.
  abbrev unticketed : Bool → Seen → Refusal → Refusal → Seen × Answer
  unticketed static_ok seen r s =
      if static_ok
      then (seen, granted static_token)
      else if c.enabled
      then (seen, refused r)
      else (seen, refused s)

  static_only :
      (static_ok : Bool) (seen : Seen) (r s : Refusal) (p : Payload)
      → ticket_of (unticketed static_ok seen r s).1 ≢ some p
  static_only static_ok seen r s p h = elim (Bool-cases static_ok) [
    | inl a ↦ let bad : none ≡ some p = rw a at h in cc
    | inr a ↦ elim (Bool-cases c.enabled) [
      | inl b ↦ let bad : none ≡ some p = rw (a, b) at h in cc
      | inr b ↦ let bad : none ≡ some p = rw (a, b) at h in cc
    ]
  ]

  lease_by_ticket :
      (at : ℕ) (bearer : String) (static_ok : Bool) (seen : Seen) (p : Payload)
      → ticket_of
          (authorize_lease_create sign shape decode token_matches c at bearer static_ok seen).1
        ≡ some p
      → Redeems at bearer true p seen
  unfolding authorize_lease_create
  lease_by_ticket at bearer static_ok seen p h =
      elim (Bool-cases (c.enabled && not (str_eq bearer ""))) [
        | inr a ↦ absurd (static_only static_ok seen _ _ p (rw (authorize_lease_create, a) at h))
        | inl a ↦ elim (Verdict-cases (verdict at bearer)) [
          | inl (q, v) ↦
              redeem-Redeems at bearer true seen p q v (rw (authorize_lease_create, a, v) at h)
          | inr (r, v) ↦ elim (Bool-cases static_ok) [
            | inl b ↦
                let bad : none ≡ some p = rw (authorize_lease_create, a, v, b) at h in absurd (cc)
            | inr b ↦
                let bad : none ≡ some p = rw (authorize_lease_create, a, v, b) at h in absurd (cc)
          ]
        ]
      ]

  admin_by_ticket :
      (at : ℕ) (bearer : String) (seen : Seen) (p : Payload)
      → ticket_of (authorize_admin sign shape decode token_matches c at bearer seen).1 ≡ some p
      → Redeems at bearer false p seen
  unfolding authorize_admin
  admin_by_ticket at bearer seen p h = elim (Bool-cases c.allow_anonymous) [
    | inl x ↦ let bad : none ≡ some p = rw (authorize_admin, x) at h in absurd (cc)
    | inr x ↦
        elim (Bool-cases
          (not (str_eq bearer "") && (not (str_eq c.token "") && token_matches bearer c.token))) [
            | inl y ↦ let bad : none ≡ some p = rw (authorize_admin, x, y) at h in absurd (cc)
            | inr y ↦ elim (Bool-cases (c.enabled && not (str_eq bearer ""))) [
              | inr a ↦ let bad : none ≡ some p = rw (authorize_admin, x, y, a) at h in absurd (cc)
              | inl a ↦ elim (Verdict-cases (verdict at bearer)) [
                | inl (q, v) ↦
                    redeem-Redeems at bearer false seen p q v
                      (rw (authorize_admin, x, y, a, v) at h)
                | inr (r, v) ↦
                    let bad : none ≡ some p = rw (authorize_admin, x, y, a, v) at h in absurd (cc)
              ]
            ]
          ]
  ]

  -- What a token says does not depend on the time.
  same_payload :
      (at at' : ℕ) (bearer : String) (p q : Payload)
      → verdict at bearer ≡ accepted p
      → verdict at' bearer ≡ accepted q
      → p ≡ q
  same_payload at at' bearer p q v w =
      let g =
        (verify_ticket-accepted sign shape decode at c.ticket_secret c.node_id bearer p).0 v in
      let h =
        (verify_ticket-accepted sign shape decode at' c.ticket_secret c.node_id bearer q).0 w in
      let parts : ◌≡◌ {A = Option (String × String)} (some (g.body, sign c.ticket_secret g.body))
          (some (h.body, sign c.ticket_secret h.body)) =
        sym g.parted ∙ h.parted in
      let body : g.body ≡ h.body = cc in
      let same : some p ≡ some q = sym g.says ∙ ap decode body ∙ h.says in cc

  -- No bearer token is good for both as a ticket: where one takes a lease by its ticket, which the
  -- table of used tickets then takes, no answer of the operators' calls to the same token rests on
  -- its ticket, at any time and whatever tickets were used.
  pub authorize-exclusive :
      (at at' : ℕ) (bearer : String) (static_ok : Bool) (seen seen' : Seen) (p : Payload)
      → ticket_of
          (authorize_lease_create sign shape decode token_matches c at bearer static_ok seen).1
        ≡ some p
      → ((claim p.jti (exp_of p) at seen).1 ≡ true)
        × (ticket_of (authorize_admin sign shape decode token_matches c at' bearer seen').1 ≡ none)
  authorize-exclusive at at' bearer static_ok seen seen' p h =
      let l = lease_by_ticket at bearer static_ok seen p h in
      (
        l.2,
        elim (Option-cases
            (ticket_of (authorize_admin sign shape decode token_matches c at' bearer seen').1)) [
              | inl e ↦ e
              | inr (q, e) ↦
                  let a = admin_by_ticket at' bearer seen' q e in
                  let same = same_payload at at' bearer p q l.0 a.0 in
                  let other : is_lease (ticket_scope (some p)) ≡ false =
                    ap (λ r. is_lease (ticket_scope (some r))) same ∙ a.1 in
                  absurd (cc)
            ],
      )
