-- ===== src/Artifacts/Shares.antt =====
-- src/artifacts/shares.js: links that open a work for whoever has them. The table of the links is one
-- for all users; the record of a work says whether it is shared. Texts are cut and shown elsewhere:
-- `summary` comes in clean, and a token comes in trimmed.
-- Sharing and the market are turned on, and ids of works are well formed.
pub mod Linked
pub mod Calls
pub mod Reached
pub mod Revoked
mod Tests
use Prim.Native.Char.{Char, code}
use Prim.Native.String
use agent_pod.Base.{
  ℕ, zero, suc, ◌+◌, ◌-◌, String, List, [], ◌∷◌, ◌++◌, Option, none, some, Bool, true, false, not,
  ◌&&◌, ◌||◌, if◌then◌else◌, leb, ◌==◌, str_eq, keep, take, reverse,
}
use agent_pod.Base.Dict
use agent_pod.Base.Dict.{Dict}
use agent_pod.Base.Dict.Scoped
use agent_pod.Base.Sort
use agent_pod.Base.Text.{Text}

-- A link of the table.
pub record Pointer : Type 0 where
  pub token : String
  pub username : String
  pub artifact_id : String
  pub created_at : ℕ
  pub views : ℕ
  pub last_view_at : ℕ

-- What the record of a work says of its link.
pub record Share : Type 0 where
  pub token : String
  pub created_at : ℕ
  pub market : Bool
  pub market_at : ℕ
  pub summary : Text

-- A work, as far as it is read here.
pub record Meta : Type 0 where
  pub id : String
  pub session_key : String
  pub kind : String
  pub title : Text
  pub version : ℕ
  pub updated_at : ℕ
  pub share : Option Share

pub record Shares : Type 0 where
  pub pointers : Dict Pointer
  pub works : Dict (Dict Meta)

abbrev is_hex : ℕ → Bool
is_hex c = (leb 48 c && leb c 57) || (leb 97 c && leb c 102)

-- So many characters 0-9 or a-f, and no more.
unfoldable pub is_hex_text : ℕ → String → Bool
is_hex_text zero String.[] = true
is_hex_text zero (String.◌∷◌ c s) = false
is_hex_text (suc n) String.[] = false
is_hex_text (suc n) (String.◌∷◌ c s) = is_hex (code c) && is_hex_text n s

abbrev after_s : String → Bool
after_s String.[] = false
after_s (String.◌∷◌ c s) = code c == 95 && is_hex_text 24 s

-- `TOKEN_RE`
unfoldable pub is_token : String → Bool
unfolding is_hex_text
is_token String.[] = false
is_token (String.◌∷◌ c s) = code c == 115 && after_s s

-- `pointer?.username` and `pointer?.artifactId` say something.
abbrev pub is_whole : Pointer → Bool
is_whole p = not (str_eq p.username "") && not (str_eq p.artifact_id "")

-- `forget`
abbrev pub forget : String → Shares → Shares
forget token s = record s { pointers = Dict.delete token s.pointers }

-- `artifacts.get`
abbrev pub work : String → String → Shares → Option Meta
work username id s = Scoped.look username id s.works

-- `meta.share?.token === key`
abbrev pub is_shared_as : String → Option Share → Bool
is_shared_as token none = false
is_shared_as token (some share) = str_eq share.token token

-- `resolve` on the pointer that it finds.
abbrev pub checked : String → Pointer → Option Meta → Shares → Shares × Option (Pointer × Meta)
checked token p none s = (forget token s, none)
checked token p (some m) s =
    if is_shared_as token m.share then (s, some (p, m)) else (forget token s, none)

abbrev pub followed : String → Option Pointer → Shares → Shares × Option (Pointer × Meta)
followed token none s = (s, none)
followed token (some p) s =
    if is_whole p then checked token p (work p.username p.artifact_id s) s else (s, none)

-- `resolve`
unfoldable pub resolve : String → Shares → Shares × Option (Pointer × Meta)
unfolding is_token
resolve token s = if is_token token then followed token (Dict.get token s.pointers) s else (s, none)

-- `countView`
unfoldable pub count_view : String → ℕ → Shares → Shares
count_view token at s = record s {
  pointers =
      Dict.modify token (λ p. record p { views = p.views + 1; last_view_at = at }) s.pointers;
}

abbrev pub with_share : Option Share → Meta → Meta
with_share share m = record m { share = share }

-- `artifacts.setShare`
abbrev pub set_share : String → String → Option Share → Shares → Shares
set_share username id share s = record s {
  works = Scoped.change username id (with_share share) s.works;
}

abbrev pub new_share : String → ℕ → Share
new_share token at = record {
  token = token;
  created_at = at;
  market = false;
  market_at = 0;
  summary = [];
}

abbrev pub new_pointer : String → String → String → ℕ → Pointer
new_pointer token username id at = record {
  token = token;
  username = username;
  artifact_id = id;
  created_at = at;
  views = 0;
  last_view_at = 0;
}

abbrev pub put_pointer : String → Pointer → Shares → Shares
put_pointer token p s = record s { pointers = Dict.set token p s.pointers }

-- The link of a work that is shared is put back if the table has lost it.
abbrev pub mended : String → String → Share → Option Pointer → Shares → Shares
mended username id share (some p) s = s
mended username id share none s =
    put_pointer share.token (new_pointer share.token username id share.created_at) s

abbrev pub shared : String → String → Option Share → (fresh : String) → ℕ → Shares → Shares
shared username id (some share) fresh at s =
    mended username id share (Dict.get share.token s.pointers) s
shared username id none fresh at s =
    set_share username id (some (new_share fresh at))
      (put_pointer fresh (new_pointer fresh username id at) s)

-- `create`, with the token that it draws; it answers the record of the work.
unfoldable pub create : String → String → (fresh : String) → ℕ → Shares → Shares × Option Meta
create username id fresh at s = elim (work username id s) [
  | none ↦ (s, none)
  | some m ↦ let s' = shared username id m.share fresh at s in (s', work username id s')
]

-- What `setMarket` makes of a share.
unfoldable pub marketed : Option Bool → Option Text → ℕ → Share → Share
marketed market summary at share =
    let listed : Share = elim market [
      | none ↦ share
      | some false ↦ record share { market = false; market_at = 0 }
      | some true ↦ record share {
        market = true;
        market_at = if share.market then share.market_at else at;
      }
    ] in
    elim summary [ none ↦ listed | some t ↦ record listed { summary = t } ]

pub data Marketed : Type 0 where
  no_work : Marketed
  not_shared : Marketed
  set : Share → Marketed

unfoldable pub set_market :
    String → String → Option Bool → Option Text → ℕ → Shares → Shares × Marketed
set_market username id market summary at s = elim (work username id s) [
  | none ↦ (s, no_work)
  | some m ↦ elim m.share [
    | none ↦ (s, not_shared)
    | some share ↦
        let next = marketed market summary at share in
        (set_share username id (some next) s, set next)
  ]
]

abbrev pub revoked : String → String → Option Share → Shares → Shares × Bool
revoked username id none s = (s, false)
revoked username id (some share) s = (forget share.token (set_share username id none s), true)

-- `revoke`: first the record of the work, then the link.
unfoldable pub revoke : String → String → Shares → Shares × Bool
revoke username id s = elim (work username id s) [
  | none ↦ (s, false)
  | some m ↦ revoked username id m.share s
]

abbrev pub unlinked : Option Share → Shares → Shares
unlinked none s = s
unlinked (some share) s = forget share.token s

-- `artifacts.remove`
abbrev pub without : String → String → Shares → Shares
without username id s = record s { works = Scoped.remove username id s.works }

-- `revokeForArtifact`, and the removal of the work that comes after it.
unfoldable pub remove : String → String → Shares → Shares
remove username id s = elim (work username id s) [
  | none ↦ s
  | some m ↦ without username id (unlinked m.share s)
]

-- `items` of `listMarket`, with what `resolve` cleans up; whether a work is of the kind and has the
-- keyword that are asked for is an argument.
unfoldable pub shown :
    (is_wanted : Pointer × Meta → Bool) → List Pointer → Shares → Shares × List (Pointer × Meta)
unfolding resolve
shown is_wanted [] s = (s, [])
shown is_wanted (p ∷ ps) s =
    let found = resolve p.token s in
    let rest = shown is_wanted ps found.0 in
    elim found.1 [
      | none ↦ rest
      | some pm ↦ elim pm.1.share [
        | none ↦ rest
        | some share ↦ if share.market && is_wanted pm then (rest.0, pm ∷ rest.1) else rest
      ]
    ]

abbrev market_at_of : Pointer × Meta → ℕ
market_at_of pm = elim pm.1.share [ none ↦ 0 | some share ↦ share.market_at ]

-- `listMarket`: the latest comes first.
unfoldable pub list_market :
    (is_wanted : Pointer × Meta → Bool) → Shares → Shares × List (Pointer × Meta)
unfolding shown Dict.values Sort.sort
list_market is_wanted s =
    let r = shown is_wanted (Dict.values s.pointers) s in
    (r.0, take 200 (reverse (Sort.sort market_at_of (reverse r.1))))
