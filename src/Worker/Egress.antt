-- ===== src/Worker/Egress.antt =====
-- sandbox-worker/src/namespace/netns.js: what a slot may connect to. The list of targets as it is read
-- and as it is sent, the request of a lease, and the commands that build the chain of a slot.
pub mod Screen
pub mod Chain
pub mod Rules
pub mod Opened
pub mod Policy
mod Tests
use agent_pod.Base.{
  ℕ, ◌+◌, String, List, [], ◌∷◌, ◌++◌, Option, none, some, Bool, true, false, not, ◌&&◌, ◌||◌,
  if◌then◌else◌, leb, ltb, ◌==◌, length, keep, some_of, map,
}
use agent_pod.Base.Sort
use agent_pod.Base.Text
use agent_pod.Base.Text.{Text}

pub record Entry : Type 0 where
  pub host : Text
  pub ports : List ℕ

abbrev is_alnum : ℕ → Bool
is_alnum c = (leb 48 c && leb c 57) || (leb 65 c && leb c 90) || (leb 97 c && leb c 122)

-- A letter, a digit, or one of `.`, `_` and `-`.
abbrev is_host_char : ℕ → Bool
is_host_char c = is_alnum c || c == 46 || c == 95 || c == 45

-- From the second character on: all are of hosts, and the last one is a letter or a digit.
unfoldable pub host_rest : Text → Bool
host_rest [] = true
host_rest (c ∷ []) = is_alnum c
host_rest (c ∷ d ∷ s) = is_host_char c && host_rest (d ∷ s)

abbrev host_shape : Text → Bool
host_shape [] = false
host_shape (c ∷ s) = is_alnum c && host_rest s

-- `validHost`, with `HOST_RE`.
unfoldable pub valid_host : Text → Bool
unfolding host_rest
valid_host host = leb (length host) 253 && host_shape host

abbrev pub valid_port : ℕ → Bool
valid_port port = leb 1 port && leb port 65535

-- `new Set(ports)`
unfoldable pub distinct : List ℕ → List ℕ
distinct [] = []
distinct (p ∷ ps) = p ∷ keep (λ q. not (q == p)) (distinct ps)

-- `Number(port)` where that is a whole number, and none for all else.
unfoldable pub ports_of : List (Option ℕ) → List ℕ
ports_of [] = []
ports_of (none ∷ ps) = ports_of ps
ports_of (some p ∷ ps) = if valid_port p then p ∷ ports_of ps else ports_of ps

-- An entry as it is sent; the host is none where it is no text.
pub record Sent : Type 0 where
  pub host : Option Text
  pub ports : List (Option ℕ)

abbrev host_of : Option Text → Text
host_of none = []
host_of (some host) = Text.trim host

abbrev add_entry : Text → List ℕ → List Entry → List Entry
add_entry host [] rest = rest
add_entry host (p ∷ ps) rest = record { host = host; ports = Sort.sort (λ q. q) (p ∷ ps) } ∷ rest

-- `normalizeEgressEntries`
unfoldable pub normalize_entries : List Sent → List Entry
unfolding distinct ports_of valid_host Sort.sort
normalize_entries [] = []
normalize_entries (e ∷ es) =
    let rest = normalize_entries es in
    let host = host_of e.host in
    if valid_host host then add_entry host (distinct (ports_of e.ports)) rest else rest

-- An entry of the setting, cut at the colons: with no port, or with one.
abbrev parse_parts : (Text → Option ℕ) → List Text → List Entry → List Entry
parse_parts number [] rest = rest
parse_parts number (host ∷ []) rest =
    if valid_host host then record { host = host; ports = 80 ∷ 443 ∷ [] } ∷ rest else rest
parse_parts number (host ∷ port ∷ more) rest =
    if valid_host host
    then (elim (number port) [
      | none ↦ rest
      | some p ↦ if valid_port p then record { host = host; ports = p ∷ [] } ∷ rest else rest
    ])
    else rest

abbrev is_empty : Text → Bool
is_empty [] = true
is_empty (c ∷ s) = false

unfoldable pub parse_items : (Text → Option ℕ) → List Text → List Entry
unfolding valid_host Text.split
parse_items number [] = []
parse_items number (item ∷ items) =
    let rest = parse_items number items in
    let entry = Text.trim item in
    if is_empty entry then rest else parse_parts number (Text.split 58 entry) rest

-- `parseEgressAllow`; `number` is the language's `Number` where it gives a whole number.
unfoldable pub parse_egress_allow : (Text → Option ℕ) → Text → List Entry
unfolding parse_items Text.split
parse_egress_allow number raw = parse_items number (Text.split 44 raw)

-- Whether a list of entries has a port of a host.
abbrev pub has_port : ℕ → List ℕ → Bool
has_port p = some_of (λ q. q == p)

abbrev pub opens : List Entry → Text → ℕ → Bool
opens es host p = some_of (λ e. Text.same e.host host && has_port p e.ports) es

-- `byHost.get(host)`: the ports of all entries with the host, or none where there is no such entry.
unfoldable pub permitted : Text → List Entry → Option (List ℕ)
permitted host [] = none
permitted host (e ∷ es) =
    let rest = permitted host es in
    if Text.same e.host host
    then some (e.ports ++ (elim rest [ none ↦ [] | some ps ↦ ps ]))
    else rest

abbrev pub allow_entry : Entry → List ℕ → List Entry × List Entry → List Entry × List Entry
allow_entry e [] (allowed, rejected) = (allowed, e ∷ rejected)
allow_entry e (p ∷ ps) (allowed, rejected) = (record e { ports = p ∷ ps } ∷ allowed, rejected)

-- `screenEgressRequest`: the entries that are let in, and those that are not.
unfoldable pub screen : List Entry → List Entry → List Entry × List Entry
unfolding permitted
screen [] menu = ([], [])
screen (e ∷ es) menu =
    let rest = screen es menu in
    elim (permitted e.host menu) [
      | none ↦ (rest.0, e ∷ rest.1)
      | some ports ↦ allow_entry e (keep (λ p. has_port p ports) e.ports) rest
    ]
