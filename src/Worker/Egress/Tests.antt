-- ===== src/Worker/Egress/Tests.antt =====
-- The theorems on what a slot may connect to, at concrete lists and with a concrete firewall.
use agent_pod.Base.{
  ℕ, ◌≤◌, ◌≡◌, refl, List, [], ◌∷◌, ◌++◌, none, some, true, false, ◌&&◌, ◌||◌, ◌⊎◌, take,
}
use agent_pod.Base.Text
use agent_pod.Base.Text.{Text}
use agent_pod.Worker.Egress.{Entry, opens, screen, normalize_entries}
use agent_pod.Worker.Egress.Screen.{screen-opens}
use agent_pod.Worker.Egress.Chain.{
  tcp, Rule, Verdict, accept, policy, flush, append, insert, Command, Target, Packet, Firewall,
  build_egress_plan, lease_plan, exec_all, passes, dns_rules, target_rules, ip_rules, port_rules,
}
use agent_pod.Worker.Egress.Rules.{is_open, is_target}
use agent_pod.Worker.Egress.Opened.{plan-is_open, plan-never_open, lease_plan-opens}
use agent_pod.Worker.Egress.Policy.{Policy, Incoming, signature, env}

-- Host `a`.
abbrev entry : List ℕ → Entry
entry ports = record { host = 97 ∷ []; ports = ports }

screen-opens_example :
    opens (screen (entry (80 ∷ 443 ∷ []) ∷ []) (entry (443 ∷ []) ∷ [])).0 (97 ∷ []) 443 ≡ (
      opens (entry (80 ∷ 443 ∷ []) ∷ []) (97 ∷ []) 443
      && opens (entry (443 ∷ []) ∷ []) (97 ∷ []) 443)
screen-opens_example =
    screen-opens (entry (80 ∷ 443 ∷ []) ∷ []) (entry (443 ∷ []) ∷ []) (97 ∷ []) 443

one_port : (screen (entry (80 ∷ 443 ∷ []) ∷ []) (entry (443 ∷ []) ∷ [])).0 ≡ entry (443 ∷ []) ∷ []
unfolding screen Text.same
one_port = refl

-- A port out of range and a port that stands twice.
normalized :
    normalize_entries (
      record {
        host = some (32 ∷ 97 ∷ []);
        ports = some 443 ∷ some 0 ∷ some 80 ∷ some 443 ∷ none ∷ [];
      }
      ∷ [])
    ≡ entry (80 ∷ 443 ∷ []) ∷ []
unfolding normalize_entries Text.trim_start Text.trim_end
normalized = refl

-- A chain as its policy and its rules.
abbrev run : Command → Verdict × List Rule → Verdict × List Rule
run (policy v) (p, rs) = (v, rs)
run flush (p, rs) = (p, [])
run (append r) (p, rs) = (p, rs ++ r ∷ [])
run (insert r) (p, rs) = (p, r ∷ rs)

abbrev firewall : Firewall
firewall = record {
  Chain = Verdict × List Rule;
  policy_of = λ c. c.0;
  rules_of = λ c. c.1;
  exec = run;
  exec-policy = λ v c. refl;
  exec-policy_rules = λ v c. refl;
  exec-flush = λ c. refl;
  exec-flush_rules = λ c. refl;
  exec-append = λ r c. refl;
  exec-append_rules = λ r c. refl;
  exec-insert = λ r c. refl;
  exec-insert_rules = λ r c. refl;
}

abbrev target : Target
target = record { ips = "10.0.0.9" ∷ []; ports = 443 ∷ [] }

abbrev call : Packet
call = record { is_reply = false; proto = tcp; address = "10.0.0.9"; port = 443 }

plan-is_open_example :
    passes firewall
      (exec_all firewall (build_egress_plan true ("8.8.8.8" ∷ []) (target ∷ [])) (accept, []))
      call
    ≡ is_open ("8.8.8.8" ∷ []) (target ∷ []) call
plan-is_open_example = plan-is_open firewall ("8.8.8.8" ∷ []) (target ∷ []) (accept, []) call

got_out :
    passes firewall
      (exec_all firewall
        (take 6 (build_egress_plan true ("8.8.8.8" ∷ []) (target ∷ [])))
        (accept, []))
      call
    ≡ true
unfolding exec_all build_egress_plan dns_rules target_rules ip_rules port_rules
got_out = refl

plan-never_open_example :
    (is_open ("8.8.8.8" ∷ []) (target ∷ []) call ≡ true)
    ⊎ ((6 ≤ 1) × (passes firewall (accept, []) call ≡ true))
plan-never_open_example =
    plan-never_open firewall ("8.8.8.8" ∷ []) (target ∷ []) (accept, []) call 6 got_out

lease_plan-opens_example :
    passes firewall (exec_all firewall (lease_plan (target ∷ [])) (accept, [])) call
    ≡ (is_target (target ∷ []) call || passes firewall (accept, []) call)
lease_plan-opens_example = lease_plan-opens firewall (target ∷ []) (accept, []) call

abbrev shut : Policy
shut = record {
  enforce = true;
  allow = [];
  lease_allow = [];
  source = env;
  revision = [];
  signature = signature true [] [];
}

abbrev opening : Incoming
opening = record { is_open = true; allow = []; lease_allow = []; revision = none }
