-- ===== src/Artifacts/Shares/Tests.antt =====
-- The theorems on links at a concrete table.
use mathlib.Core.Option
use agent_pod.Base.{
  ◌≡◌, ◌↔◌, refl, String, [], ◌∷◌, none, some, true, false, str_eq, Bool-cases, inl, inr,
}
use agent_pod.Base.Dict
use agent_pod.Base.Sort
use agent_pod.Artifacts.Shares.{
  Share, Meta, Shares, is_token, is_hex_text, work, resolve, create, revoke, set_share,
  is_shared_as, marketed, with_share, count_view, set_market, list_market, shown,
}
use agent_pod.Artifacts.Shares.Linked.{share_of}
use agent_pod.Artifacts.Shares.Calls.{opened_as}
use agent_pod.Artifacts.Shares.Reached.{Reach, Step, Reach-resolve}
use agent_pod.Artifacts.Shares.Revoked.{written_late, Reach-revoke, Reach-written_late}

abbrev token : String
token = "s_0123456789abcdef01234567"

abbrev poem : Meta
poem = record {
  id = "w1";
  session_key = "k";
  kind = "text";
  title = 80 ∷ [];
  version = 1;
  updated_at = 5;
  share = none;
}

abbrev unshared : Shares
unshared = record { pointers = []; works = ("ann", ("w1", poem) ∷ []) ∷ [] }

abbrev link : Share
link = record { token = token; created_at = 9; market = false; market_at = 0; summary = [] }

abbrev shared_poem : Meta
shared_poem = with_share (some link) poem

abbrev made : Shares
made = (create "ann" "w1" token 9 unshared).0

is_token_test : is_token token ≡ true
unfolding is_token is_hex_text
is_token_test = refl

-- No work of the test is shared before `create`.
none_shared :
    (u i : String) (share : Share)
    → share_of u i unshared ≡ some share
    → share_of u i (record { pointers = []; works = [] }) ≡ some share
unfolding Dict.get
none_shared u i share h = elim (Bool-cases (str_eq "ann" u)) [
  | inr q ↦ let bad : none ≡ some share = rw q at h in absurd (cc)
  | inl q ↦ elim (Bool-cases (str_eq "w1" i)) [
    | inr r ↦ let bad : none ≡ some share = rw (q, r) at h in absurd (cc)
    | inl r ↦ let bad : none ≡ some share = rw (q, r) at h in absurd (cc)
  ]
]

unshared-Reach : Reach unshared
unshared-Reach =
    Reach.later (record { pointers = []; works = [] }) unshared Reach.nothing
      (Step.changed unshared.works (record { pointers = []; works = [] }) none_shared)

made-Reach : Reach made
unfolding Dict.get
made-Reach =
    Reach.later unshared made unshared-Reach
      (Step.created "ann" "w1" token 9 unshared refl refl is_token_test refl)

work-made : work "ann" "w1" made ≡ some shared_poem
unfolding create Dict.get Dict.set Dict.modify
work-made = refl

Reach-resolve_example :
    (Option.map opened_as (resolve token made).1 ≡ some (("ann", "w1"), shared_poem))
    ↔ ((work "ann" "w1" made ≡ some shared_poem) × (is_shared_as token shared_poem.share ≡ true))
Reach-resolve_example = Reach-resolve made token "ann" "w1" shared_poem made-Reach

Reach-revoke_example :
    ((resolve token (revoke "ann" "w1" made).0).1 ≡ none)
    × ((resolve token (set_share "ann" "w1" none made)).1 ≡ none)
Reach-revoke_example = Reach-revoke made "ann" "w1" shared_poem link made-Reach work-made refl

Reach-written_late_example :
    ((resolve token (written_late "ann" "w1" (marketed none (some (72 ∷ [])) 11 link) made)).1
      ≡ none)
    × (Option.map opened_as
          (resolve token
            (create "ann" "w1" "s_ffffffffffffffffffffffff" 12
              (written_late "ann" "w1" (marketed none (some (72 ∷ [])) 11 link) made)).0).1
        ≡ some (("ann", "w1"), with_share (some (marketed none (some (72 ∷ [])) 11 link)) poem))
Reach-written_late_example =
    Reach-written_late made "ann" "w1" shared_poem link none (some (72 ∷ [])) 11
      "s_ffffffffffffffffffffffff" 12 made-Reach work-made refl

-- A work on the market is listed while it is shared, and its views are counted.
market_test :
    list_market (λ r. true) (count_view token 20 (set_market "ann" "w1" (some true) none 15 made).0)
    ≡ (
      count_view token 20 (set_market "ann" "w1" (some true) none 15 made).0,
      (
        record {
          token = token;
          username = "ann";
          artifact_id = "w1";
          created_at = 9;
          views = 1;
          last_view_at = 20;
        },
        with_share
            (some (record {
              token = token;
              created_at = 9;
              market = true;
              market_at = 15;
              summary = [];
            }))
            poem,
      )
          ∷ [],
    )
unfolding create Dict.get Dict.set Dict.modify Dict.values Dict.delete set_market marketed
    count_view list_market shown resolve is_token is_hex_text Sort.sort
market_test = refl
