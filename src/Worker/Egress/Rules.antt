-- ===== src/Worker/Egress/Rules.antt =====
-- sandbox-worker/src/namespace/netns.js: what the rules of a chain let out.
use agent_pod.Base.{
  ℕ, zero, suc, ◌≡◌, refl, sym, ap, ◌∙◌, ◌⊎◌, String, List, [], ◌∷◌, ◌++◌, none, some, Bool, true,
  false, ◌&&◌, ◌||◌, if◌then◌else◌, arith, str_eq, ◌==◌, some_of, take, map, All, All-append, inl,
  inr,
}
use agent_pod.Worker.Egress.Chain.{
  Proto, tcp, udp, Rule, established, dport, reject, Verdict, drop, Command, policy, flush, append,
  Target, dns_rules, dns_plan, port_rules, ip_rules, target_rules, build_egress_plan, Packet, hits,
  lets,
}

-- What a plan is to open, by its name servers and its targets.
abbrev pub is_dns : List String → Packet → Bool
is_dns [] k = 53 == k.port
is_dns (ip ∷ ips) k = 53 == k.port && some_of (λ a. str_eq a k.address) (ip ∷ ips)

abbrev pub is_tcp : Proto → Bool
is_tcp tcp = true
is_tcp udp = false

abbrev pub is_target : List Target → Packet → Bool
is_target ts k =
    is_tcp k.proto
    && some_of (λ t. some_of (λ a. str_eq a k.address) t.ips && some_of (λ p. p == k.port) t.ports)
        ts

abbrev pub is_open : List String → List Target → Packet → Bool
is_open nameservers extra k = k.is_reply || is_dns nameservers k || is_target extra k

-- Whether one of the rules lets the packet out, where all of them are such.
abbrev pub let_out : List Rule → Packet → Bool
let_out rs k = some_of (λ r. hits r k) rs

abbrev pub IsAccept : Rule → Type 0
IsAccept established = Unit {0}
IsAccept (dport proto ip port) = Unit {0}
IsAccept reject = ⊥

or_if : (b x y z : Bool) → x ≡ (y || z) → (if b then true else x) ≡ ((b || y) || z)
or_if true x y z h = refl
or_if false x y z h = h

or_true : (b x y : Bool) → (if b then true else x) ≡ true → (x ≡ true → y ≡ true) → (b || y) ≡ true
or_true true x y e h = refl
or_true false x y e h = h e

pub if_true :
    (b x y : Bool)
    → (if b then true else x) ≡ true
    → (x ≡ true → y ≡ true)
    → (if b then true else y) ≡ true
if_true true x y e h = refl
if_true false x y e h = h e

pub lets-append :
    (v : Verdict) (rs ss : List Rule) (k : Packet)
    → All IsAccept rs
    → lets v (rs ++ ss) k ≡ (let_out rs k || lets v ss k)
lets-append v [] ss k h = refl
lets-append v (established ∷ rs) ss k h =
    or_if (hits established k) _ _ _ (lets-append v rs ss k h.1)
lets-append v (dport proto ip port ∷ rs) ss k h =
    or_if (hits (dport proto ip port) k) _ _ _ (lets-append v rs ss k h.1)
lets-append v (reject ∷ rs) ss k h = absurd h.0

-- A part of a chain of such rules, with the one that rejects the rest behind them.
pub lets-take :
    (j : ℕ) (rs : List Rule) (k : Packet)
    → All IsAccept rs
    → lets drop (take j (rs ++ reject ∷ [])) k ≡ true
    → let_out rs k ≡ true
lets-take zero rs k h e = absurd (cc)
lets-take (suc zero) [] k h e = absurd (cc)
lets-take (suc (suc j)) [] k h e = absurd (cc)
lets-take (suc j) (established ∷ rs) k h e =
    or_true (hits established k) _ _ e (lets-take j rs k h.1)
lets-take (suc j) (dport proto ip port ∷ rs) k h e =
    or_true (hits (dport proto ip port) k) _ _ e (lets-take j rs k h.1)
lets-take (suc j) (reject ∷ rs) k h e = absurd h.0

-- The rules of a plan.
dns_list : List String → List Rule
dns_list [] = []
dns_list (ip ∷ ips) = dport udp (some ip) 53 ∷ dport tcp (some ip) 53 ∷ dns_list ips

dns_or_any : List String → List Rule
dns_or_any [] = dport udp none 53 ∷ dport tcp none 53 ∷ []
dns_or_any (ip ∷ ips) = dns_list (ip ∷ ips)

port_list : String → List ℕ → List Rule
port_list ip = map (λ p. dport tcp (some ip) p)

ip_list : List String → List ℕ → List Rule
ip_list [] ports = []
ip_list (ip ∷ ips) ports = port_list ip ports ++ ip_list ips ports

pub target_list : List Target → List Rule
target_list [] = []
target_list (t ∷ ts) = ip_list t.ips t.ports ++ target_list ts

pub opened : List String → List Target → List Rule
opened nameservers extra = established ∷ dns_or_any nameservers ++ target_list extra

let_out-append :
    (rs ss : List Rule) (k : Packet) → let_out (rs ++ ss) k ≡ (let_out rs k || let_out ss k)
let_out-append [] ss k = refl
let_out-append (r ∷ rs) ss k = ground (arith, let_out-append rs ss k)

Proto-cases : (p : Proto) → (p ≡ tcp) ⊎ (p ≡ udp)
Proto-cases tcp = inl refl
Proto-cases udp = inr refl

let_out-dns_list :
    (ips : List String) (k : Packet)
    → let_out (dns_list ips) k ≡ (53 == k.port && some_of (λ a. str_eq a k.address) ips)
unfolding dns_list
let_out-dns_list [] k = ground arith
let_out-dns_list (ip ∷ ips) k = elim (Proto-cases k.proto) [
  | inl e ↦ rw e (ground (arith, let_out-dns_list ips k))
  | inr e ↦ rw e (ground (arith, let_out-dns_list ips k))
]

let_out-dns :
    (nameservers : List String) (k : Packet)
    → let_out (dns_or_any nameservers) k ≡ is_dns nameservers k
unfolding dns_or_any
let_out-dns [] k = elim (Proto-cases k.proto) [
  | inl e ↦ rw e (ground arith)
  | inr e ↦ rw e (ground arith)
]
let_out-dns (ip ∷ ips) k = let_out-dns_list (ip ∷ ips) k

let_out-ports :
    (ip : String) (ps : List ℕ) (k : Packet)
    → let_out (port_list ip ps) k
      ≡ (is_tcp k.proto && str_eq ip k.address && some_of (λ p. p == k.port) ps)
unfolding port_list
let_out-ports ip [] k = ground arith
let_out-ports ip (p ∷ ps) k = elim (Proto-cases k.proto) [
  | inl e ↦ let ih = let_out-ports ip ps k in rw e (ground (arith, ih, e))
  | inr e ↦ let ih = let_out-ports ip ps k in rw e (ground (arith, ih, e))
]

let_out-ips :
    (ips : List String) (ps : List ℕ) (k : Packet)
    → let_out (ip_list ips ps) k
      ≡ (is_tcp k.proto && some_of (λ a. str_eq a k.address) ips && some_of (λ p. p == k.port) ps)
unfolding ip_list
let_out-ips [] ps k = ground arith
let_out-ips (ip ∷ ips) ps k =
    rw
      (
        let_out-append (port_list ip ps) (ip_list ips ps) k,
        let_out-ports ip ps k,
        let_out-ips ips ps k,
      )
      (ground arith)

pub let_out-targets : (ts : List Target) (k : Packet) → let_out (target_list ts) k ≡ is_target ts k
unfolding target_list
let_out-targets [] k = ground arith
let_out-targets (t ∷ ts) k =
    rw
      (
        let_out-append (ip_list t.ips t.ports) (target_list ts) k,
        let_out-ips t.ips t.ports k,
        let_out-targets ts k,
      )
      (ground arith)

pub let_out-opened :
    (nameservers : List String) (extra : List Target) (k : Packet)
    → let_out (opened nameservers extra) k ≡ is_open nameservers extra k
unfolding opened
let_out-opened ns extra k =
    rw
      (
        let_out-append (dns_or_any ns) (target_list extra) k,
        let_out-dns ns k,
        let_out-targets extra k,
      )
      (ground arith)

dns_list-IsAccept : (ips : List String) → All IsAccept (dns_list ips)
unfolding dns_list
dns_list-IsAccept [] = tt
dns_list-IsAccept (ip ∷ ips) = (tt, (tt, dns_list-IsAccept ips))

dns-IsAccept : (ns : List String) → All IsAccept (dns_or_any ns)
unfolding dns_or_any
dns-IsAccept [] = (tt, (tt, tt))
dns-IsAccept (ip ∷ ips) = dns_list-IsAccept (ip ∷ ips)

ports-IsAccept : (ip : String) (ps : List ℕ) → All IsAccept (port_list ip ps)
unfolding port_list
ports-IsAccept ip [] = tt
ports-IsAccept ip (p ∷ ps) = (tt, ports-IsAccept ip ps)

ips-IsAccept : (ips : List String) (ps : List ℕ) → All IsAccept (ip_list ips ps)
unfolding ip_list
ips-IsAccept [] ps = tt
ips-IsAccept (ip ∷ ips) ps = All-append IsAccept _ _ (ports-IsAccept ip ps) (ips-IsAccept ips ps)

pub targets-IsAccept : (ts : List Target) → All IsAccept (target_list ts)
unfolding target_list
targets-IsAccept [] = tt
targets-IsAccept (t ∷ ts) =
    All-append IsAccept _ _ (ips-IsAccept t.ips t.ports) (targets-IsAccept ts)

pub opened-IsAccept : (ns : List String) (extra : List Target) → All IsAccept (opened ns extra)
unfolding opened
opened-IsAccept ns extra = (tt, All-append IsAccept _ _ (dns-IsAccept ns) (targets-IsAccept extra))

map-append : {A B : Type 0} (f : A → B) (xs ys : List A) → map f (xs ++ ys) ≡ map f xs ++ map f ys
map-append f [] ys = refl
map-append f (x ∷ xs) ys = ap (◌∷◌ (f x)) (map-append f xs ys)

pub take-map :
    {A B : Type 0} (f : A → B) (j : ℕ) (xs : List A) → take j (map f xs) ≡ map f (take j xs)
take-map f zero xs = refl
take-map f (suc j) [] = refl
take-map f (suc j) (x ∷ xs) = ap (◌∷◌ (f x)) (take-map f j xs)

dns_rules-map : (ips : List String) → dns_rules ips ≡ map append (dns_list ips)
unfolding dns_rules dns_list
dns_rules-map [] = refl
dns_rules-map (ip ∷ ips) =
    ap (λ cs. append (dport udp (some ip) 53) ∷ append (dport tcp (some ip) 53) ∷ cs)
      (dns_rules-map ips)

dns_plan-map : (ns : List String) → dns_plan ns ≡ map append (dns_or_any ns)
unfolding dns_or_any
dns_plan-map [] = refl
dns_plan-map (ip ∷ ips) = dns_rules-map (ip ∷ ips)

module _ (how : Rule → Command) where
  port_rules-map : (ip : String) (ps : List ℕ) → port_rules how ip ps ≡ map how (port_list ip ps)
  unfolding port_rules port_list
  port_rules-map ip [] = refl
  port_rules-map ip (p ∷ ps) = ap (◌∷◌ (how (dport tcp (some ip) p))) (port_rules-map ip ps)

  ip_rules-map : (ips : List String) (ps : List ℕ) → ip_rules how ips ps ≡ map how (ip_list ips ps)
  unfolding ip_rules ip_list
  ip_rules-map [] ps = refl
  ip_rules-map (ip ∷ ips) ps =
      rw (port_rules-map ip ps, ip_rules-map ips ps)
        (sym (map-append how (port_list ip ps) (ip_list ips ps)))

  pub target_rules-map : (ts : List Target) → target_rules how ts ≡ map how (target_list ts)
  unfolding target_rules target_list
  target_rules-map [] = refl
  target_rules-map (t ∷ ts) =
      rw (ip_rules-map t.ips t.ports, target_rules-map ts)
        (sym (map-append how (ip_list t.ips t.ports) (target_list ts)))

pub plan-map :
    (ns : List String) (extra : List Target)
    → build_egress_plan true ns extra
      ≡ policy drop ∷ flush ∷ map append (opened ns extra ++ reject ∷ [])
unfolding build_egress_plan opened
plan-map ns extra =
    rw (dns_plan-map ns, target_rules-map append extra)
      (sym (
        ap (λ cs. policy drop ∷ flush ∷ append established ∷ cs)
          (map-append append (dns_or_any ns ++ target_list extra) (reject ∷ [])
            ∙ ap (λ cs. cs ++ append reject ∷ [])
                (map-append append (dns_or_any ns) (target_list extra)))))
