-- ===== src/Worker/Egress/Opened.antt =====
-- sandbox-worker/src/namespace/netns.js: what the chain of a slot lets out, while it is built and once
-- it stands.
use mathlib.Core.List.{append_assoc, append-nil}
use agent_pod.Base.{
  ℕ, zero, suc, ◌≤◌, ◌≡◌, refl, sym, ap, ◌∙◌, subst, ◌⊎◌, String, List, [], ◌∷◌, ◌++◌, true, ◌||◌,
  arith, take, map, All, inl, inr,
}
use agent_pod.Worker.Egress.Chain.{
  Rule, established, dport, reject, Verdict, drop, policy, flush, append, insert, Target,
  build_egress_plan, lease_plan, Packet, hits, lets, Firewall, exec_all, passes,
}
use agent_pod.Worker.Egress.Rules.{
  is_open, is_target, let_out, IsAccept, if_true, lets-append, lets-take, target_list, opened,
  let_out-opened, let_out-targets, opened-IsAccept, targets-IsAccept, take-map, plan-map,
  target_rules-map,
}

module _ (f : Firewall) where
  exec_appends :
      (rs : List Rule) (c : f.Chain)
      → (f.policy_of (exec_all f (map append rs) c) ≡ f.policy_of c)
        × (f.rules_of (exec_all f (map append rs) c) ≡ f.rules_of c ++ rs)
  unfolding exec_all
  exec_appends [] c = (refl, sym (append-nil (f.rules_of c)))
  exec_appends (r ∷ rs) c =
      let h = exec_appends rs (f.exec (append r) c) in
      (
        h.0 ∙ f.exec-append r c,
        h.1 ∙ ap (λ x. x ++ rs) (f.exec-append_rules r c) ∙ append_assoc (f.rules_of c) (r ∷ []) rs,
      )

  -- A chain that was shut and emptied, and then given rules.
  passes-built :
      (rs : List Rule) (c : f.Chain) (k : Packet)
      → passes f (exec_all f (policy drop ∷ flush ∷ map append rs) c) k ≡ lets drop rs k
  unfolding exec_all
  passes-built rs c k =
      let shut = f.exec flush (f.exec (policy drop) c) in
      let h = exec_appends rs shut in
      let p : f.policy_of shut ≡ drop =
        f.exec-flush (f.exec (policy drop) c) ∙ f.exec-policy drop c in
      let e : f.rules_of shut ≡ [] = f.exec-flush_rules (f.exec (policy drop) c) in
      ap (λ v. lets v (f.rules_of (exec_all f (map append rs) shut)) k) (h.0 ∙ p)
      ∙ ap (λ x. lets drop x k) (h.1 ∙ ap (λ x. x ++ rs) e)

  -- Once the chain is built it lets out the replies, the questions to the name servers (to any host
  -- where none is known) and what goes over TCP to a target, and nothing else, whatever stood in it.
  pub plan-is_open :
      (ns : List String) (extra : List Target) (c : f.Chain) (k : Packet)
      → passes f (exec_all f (build_egress_plan true ns extra) c) k ≡ is_open ns extra k
  plan-is_open ns extra c k =
      ap (λ cs. passes f (exec_all f cs c) k) (plan-map ns extra)
      ∙ passes-built (opened ns extra ++ reject ∷ []) c k
      ∙ lets-append drop (opened ns extra) (reject ∷ []) k (opened-IsAccept ns extra)
      ∙ (rw (let_out-opened ns extra k) (ground arith))

  take-passes :
      (j : ℕ) (rs : List Rule) (c : f.Chain) (k : Packet)
      → passes f (exec_all f (take (suc (suc j)) (policy drop ∷ flush ∷ map append rs)) c) k
        ≡ lets drop (take j rs) k
  take-passes j rs c k =
      ap (λ cs. passes f (exec_all f (policy drop ∷ flush ∷ cs) c) k) (take-map append j rs)
      ∙ passes-built (take j rs) c k

  lets-drop :
      (v : Verdict) (rs : List Rule) (k : Packet) → lets drop rs k ≡ true → lets v rs k ≡ true
  lets-drop v [] k h = absurd (cc)
  lets-drop v (established ∷ rs) k h = if_true (hits established k) _ _ h (lets-drop v rs k)
  lets-drop v (dport proto ip port ∷ rs) k h =
      if_true (hits (dport proto ip port) k) _ _ h (lets-drop v rs k)
  lets-drop v (reject ∷ rs) k h = absurd (cc)

  shut :
      (c : f.Chain) (k : Packet)
      → passes f (exec_all f (policy drop ∷ []) c) k ≡ true
      → lets drop (f.rules_of c) k ≡ true
  unfolding exec_all
  shut c k e =
      ap (λ v. lets v (f.rules_of c) k) (sym (f.exec-policy drop c))
      ∙ ap (λ x. lets (f.policy_of (f.exec (policy drop) c)) x k) (sym (f.exec-policy_rules drop c))
      ∙ e

  -- While the chain is built anew, after each of the commands: a packet that gets out is one of those
  -- that the new chain is to let out, or, before the old rules are flushed, one that got out before.
  pub plan-never_open :
      (ns : List String) (extra : List Target) (c : f.Chain) (k : Packet) (n : ℕ)
      → passes f (exec_all f (take n (build_egress_plan true ns extra)) c) k ≡ true
      → (is_open ns extra k ≡ true) ⊎ ((n ≤ 1) × (passes f c k ≡ true))
  unfolding exec_all
  plan-never_open ns extra c k n h =
      never n (subst (λ cs. passes f (exec_all f (take n cs) c) k ≡ true) (plan-map ns extra) h)
    where
      never :
          (n : ℕ)
          → passes f
              (exec_all f
                (take n (policy drop ∷ flush ∷ map append (opened ns extra ++ reject ∷ [])))
                c)
              k
            ≡ true
          → (is_open ns extra k ≡ true) ⊎ ((n ≤ 1) × (passes f c k ≡ true))
      never zero e = inr (omega arith, e)
      never (suc zero) e =
          inr (omega arith, lets-drop (f.policy_of c) (f.rules_of c) k (shut c k e))
      never (suc (suc j)) e = inl (
          sym (let_out-opened ns extra k)
          ∙ lets-take j (opened ns extra) k (opened-IsAccept ns extra)
              (sym (take-passes j (opened ns extra ++ reject ∷ []) c k) ∙ e))

  lets_front :
      (v : Verdict) (r : Rule) (rs : List Rule) (k : Packet)
      → IsAccept r
      → lets v (r ∷ rs) k ≡ (hits r k || lets v rs k)
  lets_front v r rs k h = lets-append v (r ∷ []) rs k (h, tt) ∙ (ground arith)

  exec_inserts :
      (rs : List Rule) (c : f.Chain) (k : Packet)
      → All IsAccept rs
      → passes f (exec_all f (map insert rs) c) k ≡ (let_out rs k || passes f c k)
  unfolding exec_all
  exec_inserts [] c k h = refl
  exec_inserts (r ∷ rs) c k h =
      let c' = f.exec (insert r) c in
      let front : passes f c' k ≡ (hits r k || passes f c k) =
        ap (λ v. lets v (f.rules_of c') k) (f.exec-insert r c)
        ∙ ap (λ x. lets (f.policy_of c) x k) (f.exec-insert_rules r c)
        ∙ lets_front (f.policy_of c) r (f.rules_of c) k h.0 in
      exec_inserts rs c' k h.1 ∙ (rw front (ground arith))

  -- What a lease adds opens its targets over TCP on top of what got out before, and takes nothing away.
  pub lease_plan-opens :
      (ts : List Target) (c : f.Chain) (k : Packet)
      → passes f (exec_all f (lease_plan ts) c) k ≡ (is_target ts k || passes f c k)
  lease_plan-opens ts c k =
      ap (λ cs. passes f (exec_all f cs c) k) (target_rules-map insert ts)
      ∙ exec_inserts (target_list ts) c k (targets-IsAccept ts)
      ∙ (rw (let_out-targets ts k) refl)
