-- ===== src/Sessions/Transcript/Calls.antt =====
-- src/sessions/transcript.js: how a tool call ends, by looking ahead for its result, and that the shared
-- objects end so.
use agent_pod.Base.{
  ℕ, suc, ◌+◌, ◌<◌, ◌≡◌, refl, sym, ap, ◌∙◌, subst, String, List, [], ◌∷◌, ◌++◌, Option, none, some,
  Bool, true, false, if◌then◌else◌, Bool-cases, inl, inr, arith, ◌==◌, str_eq, eq_iff, length,
}
use agent_pod.Base.Dict
use agent_pod.Base.Dict.{Dict, get-set}
use agent_pod.Agent.Preview.{Result}
use agent_pod.Sessions.Transcript.{Notes, Call, Heap, fill, add_call, answered}

-- What happens to calls: one is made, or a result names one.
pub data Event : Type 0 where
  made : Call → Event
  answer : (id : String) (is_error : Bool) (content : Result) → Event

abbrev pub filled : Notes → String → Bool → Result → Call → Call
filled n id is_error content c = if str_eq id c.tool_call_id then fill n is_error content c else c

-- A call with an id takes every result with this id, until another call has the id.
unfoldable pub outcome : Notes → Call → List Event → Call
outcome n c [] = c
outcome n c (made d ∷ es) =
    let rest = outcome n c es in if str_eq d.tool_call_id c.tool_call_id then c else rest
outcome n c (answer id is_error content ∷ es) = outcome n (filled n id is_error content c) es

abbrev pub resolved : Notes → Call → List Event → Call
resolved n c es = if str_eq c.tool_call_id "" then c else outcome n c es

-- All calls, each as it ends.
unfoldable pub foreseen : Notes → List Event → List Call
unfolding outcome
foreseen n [] = []
foreseen n (made c ∷ es) = resolved n c es ∷ foreseen n es
foreseen n (answer id is_error content ∷ es) = foreseen n es

unfoldable pub run : Notes → List Event → Heap → Heap
run n [] h = h
run n (made c ∷ es) h = run n es (add_call c h)
run n (answer id is_error content ∷ es) h = run n es (answered n id is_error content h)

abbrev pub points : Option ℕ → ℕ → Bool
points none k = false
points (some a) k = a == k

-- The object at a place, after the events: it still takes results if the map refers to it.
abbrev pub settles : Notes → Dict ℕ → ℕ → List Event → Call → Call
settles n by k es c = if points (Dict.get c.tool_call_id by) k then outcome n c es else c

unfoldable pub settled : Notes → Dict ℕ → ℕ → List Event → List Call → List Call
settled n by k es [] = []
settled n by k es (c ∷ cs) = settles n by k es c ∷ settled n by (suc k) es cs

pub settled-nothing : (n : Notes) (by : Dict ℕ) (k : ℕ) (cs : List Call) → settled n by k [] cs ≡ cs
unfolding settled outcome
settled-nothing n by k [] = refl
settled-nothing n by k (c ∷ cs) = elim (Bool-cases (points (Dict.get c.tool_call_id by) k)) [
  | inl e ↦ rw e (ap (λ l. c ∷ l) (settled-nothing n by (suc k) cs))
  | inr e ↦ rw e (ap (λ l. c ∷ l) (settled-nothing n by (suc k) cs))
]

pub settled-append :
    (n : Notes) (by : Dict ℕ) (k m : ℕ) (es : List Event) (cs ds : List Call)
    → k + length cs ≡ m
    → settled n by k es (cs ++ ds) ≡ settled n by k es cs ++ settled n by m es ds
unfolding settled
settled-append n by k m es [] ds h = ap (λ j. settled n by j es ds) (omega arith)
settled-append n by k m es (c ∷ cs) ds h =
    ap (λ l. settles n by k es c ∷ l) (settled-append n by (suc k) m es cs ds (omega arith))

-- A new call takes the id from an old one.
pub settles-made :
    (n : Notes) (by : Dict ℕ) (k m : ℕ) (es : List Event) (c d : Call)
    → k < m
    → settles n (Dict.set d.tool_call_id m by) k es c ≡ settles n by k (made d ∷ es) c
unfolding outcome
settles-made n by k m es c d h = elim (Bool-cases (str_eq d.tool_call_id c.tool_call_id)) [
  | inr e ↦ rw (get-set, e) refl
  | inl e ↦
      let f : (m == k) ≡ false = ground arith in
      elim (Bool-cases (points (Dict.get c.tool_call_id by) k)) [
        | inl q ↦ rw (get-set, e, f, q) refl
        | inr q ↦ rw (get-set, e, f, q) refl
      ]
]

-- A call with no id takes nothing away.
pub settles-made_unnamed :
    (n : Notes) (by : Dict ℕ) (k : ℕ) (es : List Event) (c d : Call)
    → str_eq d.tool_call_id "" ≡ true
    → Dict.get "" by ≡ none
    → settles n by k es c ≡ settles n by k (made d ∷ es) c
unfolding outcome
settles-made_unnamed n by k es c d u g = elim (Bool-cases (str_eq d.tool_call_id c.tool_call_id)) [
  | inr e ↦ rw e refl
  | inl e ↦
      let a = (eq_iff d.tool_call_id "").0 u in
      let b = (eq_iff d.tool_call_id c.tool_call_id).0 e in
      let f : Dict.get c.tool_call_id by ≡ none = subst (λ x. Dict.get x by ≡ none) (sym a ∙ b) g in
      rw f refl
]

-- A result passes by the objects that the map does not give for its id.
pub settles-answer :
    (n : Notes) (by : Dict ℕ) (k : ℕ) (es : List Event) (id : String) (b : Bool) (r : Result)
    (c : Call)
    → points (Dict.get id by) k ≡ false
    → settles n by k es c ≡ settles n by k (answer id b r ∷ es) c
unfolding outcome
settles-answer n by k es id b r c h = elim (Bool-cases (str_eq id c.tool_call_id)) [
  | inr e ↦ rw e refl
  | inl e ↦
      let f : points (Dict.get c.tool_call_id by) k ≡ false =
        subst (λ x. points (Dict.get x by) k ≡ false) ((eq_iff id c.tool_call_id).0 e) h in
      rw f refl
]
