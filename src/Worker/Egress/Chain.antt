-- ===== src/Worker/Egress/Chain.antt =====
-- sandbox-worker/src/namespace/netns.js: the commands that build the chain of a slot,
-- `buildEgressPlan` and the ones of a lease. What `iptables` does with a command is a parameter.
use agent_pod.Base.{
  ℕ, ◌≡◌, String, List, [], ◌∷◌, ◌++◌, Option, none, some, Bool, true, false, ◌&&◌, if◌then◌else◌,
  str_eq, ◌==◌,
}

pub data Proto : Type 0 where
  tcp : Proto
  udp : Proto

-- `-m conntrack --ctstate ESTABLISHED,RELATED -j ACCEPT`, `-p … [-d …] --dport … -j ACCEPT`, and
-- `-j REJECT`.
pub data Rule : Type 0 where
  established : Rule
  dport : Proto → Option String → ℕ → Rule
  reject : Rule

pub data Verdict : Type 0 where
  accept : Verdict
  drop : Verdict

-- `-P`, `-F`, `-A` and `-I … 1`, all on the chain `OUTPUT`.
pub data Command : Type 0 where
  policy : Verdict → Command
  flush : Command
  append : Rule → Command
  insert : Rule → Command

-- A target with the addresses that its name has.
pub record Target : Type 0 where
  pub ips : List String
  pub ports : List ℕ

unfoldable pub dns_rules : List String → List Command
dns_rules [] = []
dns_rules (ip ∷ ips) =
    append (dport udp (some ip) 53) ∷ append (dport tcp (some ip) 53) ∷ dns_rules ips

-- With no name server known, any host's port 53.
abbrev pub dns_plan : List String → List Command
dns_plan [] = append (dport udp none 53) ∷ append (dport tcp none 53) ∷ []
dns_plan (ip ∷ ips) = dns_rules (ip ∷ ips)

unfoldable pub port_rules : (Rule → Command) → String → List ℕ → List Command
port_rules how ip [] = []
port_rules how ip (p ∷ ps) = how (dport tcp (some ip) p) ∷ port_rules how ip ps

unfoldable pub ip_rules : (Rule → Command) → List String → List ℕ → List Command
ip_rules how [] ports = []
ip_rules how (ip ∷ ips) ports = port_rules how ip ports ++ ip_rules how ips ports

unfoldable pub target_rules : (Rule → Command) → List Target → List Command
target_rules how [] = []
target_rules how (t ∷ ts) = ip_rules how t.ips t.ports ++ target_rules how ts

-- `buildEgressPlan`
unfoldable pub build_egress_plan : Bool → List String → List Target → List Command
build_egress_plan false nameservers extra = flush ∷ policy accept ∷ []
build_egress_plan true nameservers extra =
    policy drop ∷ flush ∷ append established ∷ dns_plan nameservers
    ++ target_rules append extra
    ++ append reject ∷ []

-- The commands of `applyLeaseEgress`.
abbrev pub lease_plan : List Target → List Command
lease_plan = target_rules insert

-- A packet that a job sends.
pub record Packet : Type 0 where
  pub is_reply : Bool
  pub proto : Proto
  pub address : String
  pub port : ℕ

abbrev same_proto : Proto → Proto → Bool
same_proto tcp tcp = true
same_proto udp udp = true
same_proto _ _ = false

abbrev is_to : Option String → String → Bool
is_to none address = true
is_to (some ip) address = str_eq ip address

-- Whether a rule is about a packet.
abbrev pub hits : Rule → Packet → Bool
hits established k = k.is_reply
hits (dport proto ip port) k = same_proto proto k.proto && is_to ip k.address && port == k.port
hits reject k = true

-- What a chain does with a packet: the first rule about it decides, or the policy.
abbrev pub lets : Verdict → List Rule → Packet → Bool
lets accept [] k = true
lets drop [] k = false
lets v (reject ∷ rs) k = false
lets v (established ∷ rs) k = if hits established k then true else lets v rs k
lets v (dport proto ip port ∷ rs) k = if hits (dport proto ip port) k then true else lets v rs k

-- `iptables`: the chains that there can be, with their policy and their rules, and what each
-- command does to them, as its manual says.
pub record Firewall : Type 1 where
  pub Chain : Type 0
  pub policy_of : Chain → Verdict
  pub rules_of : Chain → List Rule
  pub exec : Command → Chain → Chain
  pub exec-policy : (v : Verdict) (c : Chain) → policy_of (exec (policy v) c) ≡ v
  pub exec-policy_rules : (v : Verdict) (c : Chain) → rules_of (exec (policy v) c) ≡ rules_of c
  pub exec-flush : (c : Chain) → policy_of (exec flush c) ≡ policy_of c
  pub exec-flush_rules : (c : Chain) → rules_of (exec flush c) ≡ []
  pub exec-append : (r : Rule) (c : Chain) → policy_of (exec (append r) c) ≡ policy_of c
  pub exec-append_rules :
      (r : Rule) (c : Chain) → rules_of (exec (append r) c) ≡ rules_of c ++ r ∷ []
  pub exec-insert : (r : Rule) (c : Chain) → policy_of (exec (insert r) c) ≡ policy_of c
  pub exec-insert_rules : (r : Rule) (c : Chain) → rules_of (exec (insert r) c) ≡ r ∷ rules_of c

module _ (f : Firewall) where
  unfoldable pub exec_all : List Command → f.Chain → f.Chain
  exec_all [] c = c
  exec_all (x ∷ xs) c = exec_all xs (f.exec x c)

  -- Whether a chain lets a packet out.
  abbrev pub passes : f.Chain → Packet → Bool
  passes c k = lets (f.policy_of c) (f.rules_of c) k
