-- ===== src/Worker/Ticket/Verify.antt =====
-- sandbox-worker/src/manager/ticket.js: which tokens are accepted.
use agent_pod.Base.{
  ℕ, ◌≡◌, ◌↔◌, refl, ap, subst, ◌∙◌, String, Option, some, true, false, not, ◌&&◌, str_eq, eq_iff,
  Bool-cases, Option-cases, inl, inr,
}
use agent_pod.Worker.Ticket.{
  Payload, Verdict, accepted, rejected, is_over, is_other, is_blank, check_payload, verify_ticket,
}

-- What a payload has to say at this time on this node.
abbrev pub IsGood : ℕ → String → Payload → Type 0
IsGood at node_id p =
    (is_over at p.exp ≡ false)
    × ((not (str_eq node_id "") && is_other node_id p.nid) ≡ false)
    × (is_blank p.username ≡ false)

check_payload_good :
    (at : ℕ) (node_id : String) (p : Payload)
    → IsGood at node_id p
    → check_payload at node_id p ≡ accepted p
unfolding check_payload
check_payload_good at node_id p g = rw (check_payload, g.0, g.1, g.2) refl

check_payload-IsGood :
    (at : ℕ) (node_id : String) (p q : Payload)
    → check_payload at node_id p ≡ accepted q
    → (p ≡ q) × IsGood at node_id p
unfolding check_payload
check_payload-IsGood at node_id p q h = elim (Bool-cases (is_over at p.exp)) [
  | inl a ↦ let bad : rejected _ ≡ accepted q = rw (check_payload, a) at h in absurd (cc)
  | inr a ↦ elim (Bool-cases (not (str_eq node_id "") && is_other node_id p.nid)) [
    | inl b ↦ let bad : rejected _ ≡ accepted q = rw (check_payload, a, b) at h in absurd (cc)
    | inr b ↦ elim (Bool-cases (is_blank p.username)) [
      | inl c ↦ let bad : rejected _ ≡ accepted q = rw (check_payload, a, b, c) at h in absurd (cc)
      | inr c ↦
          let same : accepted p ≡ accepted q = rw (check_payload, a, b, c) at h in (cc, (a, b, c))
    ]
  ]
]

module _ (sign : String → String → String) (shape : String → Option (String × String))
    (decode : String → Option Payload) where
  -- The token has the digest of its body under the secret, and the body says `p`.
  pub record IsGenuine (at : ℕ) (secret node_id token : String) (p : Payload) : Type 0 where
    pub has_secret : str_eq secret "" ≡ false
    pub body : String
    pub parted : shape token ≡ some (body, sign secret body)
    pub says : decode body ≡ some p
    pub good : IsGood at node_id p

  abbrev verify : ℕ → String → String → String → Verdict
  verify at secret node_id token = verify_ticket sign shape decode at secret node_id (some token)

  accepts_genuine :
      (at : ℕ) (secret node_id token : String) (p : Payload)
      → IsGenuine at secret node_id token p
      → verify at secret node_id token ≡ accepted p
  unfolding verify_ticket
  accepts_genuine at secret node_id token p v =
      let signed : str_eq (sign secret v.body) (sign secret v.body) ≡ true = (eq_iff _ _).1 refl in
      rw (verify_ticket, v.has_secret, v.parted, signed, v.says)
        (check_payload_good at node_id p v.good)

  accepted-IsGenuine :
      (at : ℕ) (secret node_id token : String) (p : Payload)
      → verify at secret node_id token ≡ accepted p
      → IsGenuine at secret node_id token p
  unfolding verify_ticket
  accepted-IsGenuine at secret node_id token p h = elim (Bool-cases (str_eq secret "")) [
    | inl a ↦ let bad : rejected _ ≡ accepted p = rw (verify_ticket, a) at h in absurd (cc)
    | inr a ↦ elim (Option-cases (shape token)) [
      | inl b ↦ let bad : rejected _ ≡ accepted p = rw (verify_ticket, a, b) at h in absurd (cc)
      | inr (parts, b) ↦ elim (Bool-cases (str_eq parts.1 (sign secret parts.0))) [
        | inr c ↦
            let bad : rejected _ ≡ accepted p = rw (verify_ticket, a, b, c) at h in absurd (cc)
        | inl c ↦ elim (Option-cases (decode parts.0)) [
          | inl d ↦
              let bad : rejected _ ≡ accepted p = rw (verify_ticket, a, b, c, d) at h in absurd (cc)
          | inr (q, d) ↦
              let checked : check_payload at node_id q ≡ accepted p =
                rw (verify_ticket, a, b, c, d) at h in
              let g = check_payload-IsGood at node_id q p checked in
              record {
                has_secret = a;
                body = parts.0;
                parted = b ∙ ap (λ s. some (parts.0, s)) ((eq_iff _ _).0 c);
                says = d ∙ ap some g.0;
                good = subst (IsGood at node_id) g.0 g.1;
              }
        ]
      ]
    ]
  ]

  -- A token is accepted, with what its body says, exactly if a secret is configured, the second part
  -- is the digest of the first under it, and the first part stands for an object that has not run
  -- out, names this node where the node has a name, and has a user name.
  pub verify_ticket-accepted :
      (at : ℕ) (secret node_id token : String) (p : Payload)
      → (verify_ticket sign shape decode at secret node_id (some token) ≡ accepted p)
        ↔ IsGenuine at secret node_id token p
  verify_ticket-accepted at secret node_id token p =
      (accepted-IsGenuine at secret node_id token p, accepts_genuine at secret node_id token p)
