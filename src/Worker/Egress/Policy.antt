-- ===== src/Worker/Egress/Policy.antt =====
-- sandbox-worker/src/egress-policy.js: the policy that a node goes by, from its settings or as the
-- manager last sent it.
use agent_pod.Base.{
  ℕ, ◌≡◌, refl, List, [], ◌∷◌, ◌++◌, Option, none, some, Bool, true, false, not, ◌&&◌,
  if◌then◌else◌, map, take, length,
}
use agent_pod.Base.Text
use agent_pod.Base.Text.{Text}
use agent_pod.Worker.Egress.{Entry, Sent, normalize_entries, parse_egress_allow}

pub data Source : Type 0 where
  env : Source
  manager : Source

-- The policy; its `signature` is kept with it.
pub record Policy : Type 0 where
  pub enforce : Bool
  pub allow : List Entry
  pub lease_allow : List Entry
  pub source : Source
  pub revision : Text
  pub signature : Text

-- `host:port/port`
abbrev pub target_text : Entry → Text
target_text e = e.host ++ 58 ∷ Text.join (47 ∷ []) (map Text.decimal e.ports)

-- `targets`
unfoldable pub targets_text : List Entry → Text
unfolding Text.join Text.sort Text.decimal
targets_text es = Text.join (44 ∷ []) (Text.sort (map target_text es))

abbrev mode_text : Bool → Text
mode_text true = 97 ∷ 108 ∷ 108 ∷ 111 ∷ 119 ∷ 108 ∷ 105 ∷ 115 ∷ 116 ∷ []
mode_text false = 111 ∷ 112 ∷ 101 ∷ 110 ∷ []

-- `signature`
unfoldable pub signature : Bool → List Entry → List Entry → Text
unfolding targets_text
signature enforce allow lease_allow =
    mode_text enforce ++ 124 ∷ targets_text allow ++ 124 ∷ targets_text lease_allow

-- What the manager sends; `is_open` says whether `mode` is `open`, and the revision is none where it
-- is no text.
pub record Incoming : Type 0 where
  pub is_open : Bool
  pub allow : List Sent
  pub lease_allow : List Sent
  pub revision : Option Text

pub data Reason : Type 0 where
  absent : Reason
  unchanged : Reason
  adopted : Reason
  updated : Reason

pub record Update : Type 0 where
  pub changed : Bool
  pub policy : Policy
  pub reason : Reason

abbrev revision_of : Option Text → Text
revision_of none = []
revision_of (some revision) = take 32 revision

-- The policy of what was sent.
unfoldable pub policy_sent : Incoming → Policy
policy_sent i =
    let allow = normalize_entries i.allow in
    let lease_allow = normalize_entries i.lease_allow in
    record {
      enforce = not i.is_open;
      allow = allow;
      lease_allow = lease_allow;
      source = manager;
      revision = revision_of i.revision;
      signature = signature (not i.is_open) allow lease_allow;
    }

abbrev is_manager : Source → Bool
is_manager env = false
is_manager manager = true

abbrev reason_of : Source → Reason
reason_of env = adopted
reason_of manager = updated

-- `update`; none where nothing was sent.
unfoldable pub update : Option Incoming → Policy → Update
update none p = record { changed = false; policy = p; reason = absent }
update (some i) p =
    let next = policy_sent i in
    if Text.same next.signature p.signature && is_manager p.source
    then record {
      changed = false;
      policy = record p { revision = next.revision };
      reason = unchanged;
    }
    else record { changed = true; policy = next; reason = reason_of p.source }

-- The policy of the settings, `createEgressPolicyStore`; `number` is the language's.
unfoldable pub policy_env : (Text → Option ℕ) → (open_mode : Bool) → Text → Text → Policy
policy_env number open_mode allow lease_allow =
    let a = parse_egress_allow number allow in
    let l = parse_egress_allow number lease_allow in
    record {
      enforce = not open_mode;
      allow = a;
      lease_allow = l;
      source = env;
      revision = [];
      signature = signature (not open_mode) a l;
    }

pub record Described : Type 0 where
  pub open_mode : Bool
  pub source : Source
  pub revision : Text
  pub allow_count : ℕ
  pub lease_allow_count : ℕ

-- `describe`
abbrev pub describe : Policy → Described
describe p = record {
  open_mode = not p.enforce;
  source = p.source;
  revision = p.revision;
  allow_count = length p.allow;
  lease_allow_count = length p.lease_allow;
}

-- The answers of a node's registrations and heartbeats, one after the other.
pub hear : List (Option Incoming) → Policy → Policy
hear [] p = p
hear (m ∷ ms) p = hear ms (update m p).policy

-- The last answer that has a policy.
abbrev pub last_sent : List (Option Incoming) → Option Incoming
last_sent [] = none
last_sent (m ∷ ms) = elim (last_sent ms) [ some i ↦ some i | none ↦ m ]

-- What a node goes by: whether targets are enforced, which ones in their order as texts, and the
-- revision. The texts are those of the lists that the policy has, not its stored signature.
pub record Content : Type 0 where
  pub enforce : Bool
  pub targets : Text
  pub revision : Text

abbrev pub content : Policy → Content
content p = record {
  enforce = p.enforce;
  targets = signature p.enforce p.allow p.lease_allow;
  revision = p.revision;
}

abbrev pub content_after : Option Incoming → Policy → Content
content_after none p = content p
content_after (some i) p = content (policy_sent i)

-- The stored signature is that of the lists.
abbrev pub IsSigned : Policy → Type 0
IsSigned p = p.signature ≡ signature p.enforce p.allow p.lease_allow

pub policy_env-IsSigned :
    (number : Text → Option ℕ) (open_mode : Bool) (allow lease_allow : Text)
    → IsSigned (policy_env number open_mode allow lease_allow)
unfolding policy_env
policy_env-IsSigned number open_mode allow lease_allow = refl

abbrev first : Text → ℕ
first [] = 0
first (c ∷ s) = c
