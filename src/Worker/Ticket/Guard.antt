-- ===== src/Worker/Ticket/Guard.antt =====
-- sandbox-worker/src/manager/ticket.js: a ticket is good for one lease.
use agent_pod.Base.{
  ℕ, ◌<◌, ◌≡◌, refl, sym, ap, ◌∙◌, String, List, [], ◌∷◌, Option, none, some, true, false, not,
  if◌then◌else◌, arith, leb, ltb, length, keep, str_eq, eq_iff, All, Bool-cases, Option-cases, inl,
  inr,
}
use agent_pod.Base.Dict
use agent_pod.Base.Dict.Keep.{get-keep}
use agent_pod.Worker.Ticket.{Seen, claim}

-- A call of `claim`: the ticket, the time at which it runs out, and the time of the call.
abbrev pub Use : Type 0
Use = Option String × ℕ × ℕ

unfoldable pub claim_all : List Use → Seen → Seen
claim_all [] seen = seen
claim_all (u ∷ us) seen = claim_all us (claim u.0 u.1 u.2 seen).0

module _ (jti : String) (exp : ℕ) where
  get-keep_live :
      (at : ℕ) (seen : Seen)
      → at < exp
      → Dict.get jti seen ≡ some exp
      → Dict.get jti (if ltb 64 (length seen) then keep (λ p. not (leb p.1 at)) seen else seen)
        ≡ some exp
  get-keep_live at seen l g = elim (Bool-cases (ltb 64 (length seen))) [
    | inl e ↦ rw e (get-keep (λ p. not (leb p.1 at)) jti exp seen g (λ j h. ground arith))
    | inr e ↦ rw e g
  ]

  get-claim :
      (other : Option String) (until at : ℕ) (seen : Seen)
      → at < exp
      → Dict.get jti seen ≡ some exp
      → Dict.get jti (claim other until at seen).0 ≡ some exp
  unfolding claim
  get-claim none until at seen l g = g
  get-claim (some j) until at seen l g = elim (Bool-cases (str_eq j "")) [
    | inl e ↦ rw (claim, e) g
    | inr e ↦ elim (Option-cases (Dict.get j seen)) [
      | inr (v, h) ↦ rw (claim, e, h) g
      | inl h ↦
          let left = if ltb 64 (length seen) then keep (λ p. not (leb p.1 at)) seen else seen in
          elim (Bool-cases (str_eq j jti)) [
            | inl q ↦
                let same : none ≡ some exp =
                  sym h ∙ ap (λ k. Dict.get k seen) ((eq_iff j jti).0 q) ∙ g in
                absurd (cc)
            | inr q ↦
                rw (claim, e, h)
                  (Dict.get-set j jti until left ∙ (rw q (get-keep_live at seen l g)))
          ]
    ]
  ]

  get-claim_all :
      (us : List Use) (seen : Seen)
      → All (λ u. u.2 < exp) us
      → Dict.get jti seen ≡ some exp
      → Dict.get jti (claim_all us seen) ≡ some exp
  unfolding claim_all
  get-claim_all [] seen a g = g
  get-claim_all (u ∷ us) seen a g =
      get-claim_all us (claim u.0 u.1 u.2 seen).0 a.1 (get-claim u.0 u.1 u.2 seen a.0 g)

  claim_used :
      (until at : ℕ) (seen : Seen)
      → Dict.get jti seen ≡ some exp
      → (claim (some jti) until at seen).1 ≡ false
  unfolding claim
  claim_used until at seen g = elim (Bool-cases (str_eq jti "")) [
    | inl e ↦ rw (claim, e) refl
    | inr e ↦ rw (claim, e, g) refl
  ]

  claim_new :
      (at : ℕ) (seen : Seen)
      → (claim (some jti) exp at seen).1 ≡ true
      → Dict.get jti (claim (some jti) exp at seen).0 ≡ some exp
  unfolding claim
  claim_new at seen h = elim (Bool-cases (str_eq jti "")) [
    | inl e ↦ let bad : false ≡ true = rw (claim, e) at h in absurd (cc)
    | inr e ↦ elim (Option-cases (Dict.get jti seen)) [
      | inr (v, g) ↦ let bad : false ≡ true = rw (claim, e, g) at h in absurd (cc)
      | inl g ↦ rw (claim, e, g) (Dict.get-set_self jti exp _)
    ]
  ]

  -- A ticket that was taken once is refused afterwards, however many others are used in between
  -- and however often the table is cleared of those that ran out, as long as all of that comes
  -- before it runs out.
  pub claim_once :
      (at until again : ℕ) (us : List Use) (seen : Seen)
      → (claim (some jti) exp at seen).1 ≡ true
      → All (λ u. u.2 < exp) us
      → (claim (some jti) until again (claim_all us (claim (some jti) exp at seen).0)).1 ≡ false
  claim_once at until again us seen h a =
      claim_used until again (claim_all us (claim (some jti) exp at seen).0)
        (get-claim_all us (claim (some jti) exp at seen).0 a (claim_new at seen h))
