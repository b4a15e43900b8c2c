-- ===== src/Sandbox/Sticky/Tests.antt =====
-- The theorems on the table of parked sandboxes at concrete tables.
use agent_pod.Base.{◌≡◌, refl, String, List, [], ◌∷◌, Option, none, some, true, false, arith, All}
use agent_pod.Base.Dict
use agent_pod.Sandbox.Sticky.{Parked, Entry, Entries, evict_if_needed, claim, keep}
use agent_pod.Sandbox.Sticky.Exclusive.{
  Call, on_claim, on_keep, on_drop, hands, answers, claim-exclusive,
}
use agent_pod.Sandbox.Sticky.Table.{claim-keep, keep-claim_expired}

abbrev box : String → Parked
box id = record {
  lease_id = id;
  lease_token = "t";
  worker_base = "w";
  node_id = "n";
  browser = false;
}

abbrev entry : Option String → Entry
entry busy_run = record { handle = some (box "l1"); expires_at = 50; busy_run = busy_run }

abbrev table : Entries
table = ("ann\0s", entry none) ∷ []

abbrev calls : List Call
calls =
    on_claim 11 "ann" "s" "run2"
    ∷ on_claim 12 "bob" "s" "run3"
    ∷ on_keep "bob" "s" "run3" (box "l2") 60
    ∷ on_drop "ann" "s" "run2"
    ∷ on_claim 13 "ann" "s" "run3"
    ∷ []

claim-exclusive_example :
    All (λ c. hands "l1" c ≡ false) (answers 2 calls (claim 2 10 "ann" "s" "run1" table).0)
unfolding claim Dict.get
claim-exclusive_example =
    claim-exclusive "run1" "l1" 2 10 "ann" "s" table (entry (some "run1")) calls refl
      ((λ _. refl), tt) refl (refl, (refl, (refl, (refl, (refl, tt)))))

-- The entry that was there makes room for the new one.
oldest_goes : Dict.keys (claim 1 10 "bob" "s" "run1" table).0 ≡ "bob\0s" ∷ []
unfolding claim Dict.get Dict.set Dict.delete evict_if_needed
oldest_goes = refl

abbrev busy : Entries
busy = ("ann\0s", entry (some "run1")) ∷ []

claim-keep_example :
    let kept = keep 2 "ann" "s" "run1" (box "l2") 60 busy in
    (kept.1 ≡ true)
    × ((claim 2 20 "ann" "s" "run2" kept.0).1 ≡ record {
      owner = true;
      claimed = some (record { handle = some (box "l2"); expires_at = 60; busy_run = some "run2" });
    })
unfolding Dict.get
claim-keep_example =
    claim-keep 2 "ann" "s" "run1" busy (omega arith) (entry (some "run1")) (box "l2") 60 20 "run2"
      refl (omega arith)

keep-claim_expired_example :
    let r = claim 2 50 "ann" "s" "run1" table in
    (r.1.owner ≡ true)
    × (keep 2 "ann" "s" "run1" (box "l2") 90 r.0 ≡ (r.0, false))
    × ((claim 2 50 "ann" "s" "run2" r.0).1.owner ≡ true)
unfolding Dict.get
keep-claim_expired_example =
    keep-claim_expired 2 50 "ann" "s" "run1" "run2" table (entry none) (box "l2") 90 refl refl refl
