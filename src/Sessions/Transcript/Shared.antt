-- ===== src/Sessions/Transcript/Shared.antt =====
-- src/sessions/transcript.js: the shared objects of the calls, after all results.
use mathlib.Core.List.{append_assoc, append-nil}
use agent_pod.Base.{
  ℕ, zero, suc, ◌+◌, ◌≤◌, ◌<◌, ◌≡◌, refl, sym, ap, ◌∙◌, subst, String, List, [], ◌∷◌, ◌++◌, map,
  Option, none, some, Bool, true, Bool-cases, inl, inr, arith, str_eq, eq_iff, eq_refl, length,
}
use agent_pod.Base.Dict
use agent_pod.Base.Dict.{Dict, get-set}
use agent_pod.Agent.Preview.{Result}
use agent_pod.Sessions.Transcript.{Notes, Call, Heap, fill, modify_at, add_call, fill_at, at?}
use agent_pod.Sessions.Transcript.Calls.{
  Event, made, answer, outcome, resolved, foreseen, run, points, settles, settled, settled-nothing,
  settled-append, settles-made, settles-made_unnamed, settles-answer,
}

settled-made :
    (n : Notes) (by : Dict ℕ) (k m : ℕ) (es : List Event) (cs : List Call) (d : Call)
    → k + length cs ≤ m
    → settled n (Dict.set d.tool_call_id m by) k es cs ≡ settled n by k (made d ∷ es) cs
unfolding settled
settled-made n by k m es [] d h = refl
settled-made n by k m es (c ∷ cs) d h = λ i.
    settles-made n by k m es c d (omega arith) i
    ∷ settled-made n by (suc k) m es cs d (omega arith) i

settled-made_unnamed :
    (n : Notes) (by : Dict ℕ) (k : ℕ) (es : List Event) (cs : List Call) (d : Call)
    → str_eq d.tool_call_id "" ≡ true
    → Dict.get "" by ≡ none
    → settled n by k es cs ≡ settled n by k (made d ∷ es) cs
unfolding settled
settled-made_unnamed n by k es [] d u g = refl
settled-made_unnamed n by k es (c ∷ cs) d u g =
    λ i. settles-made_unnamed n by k es c d u g i ∷ settled-made_unnamed n by (suc k) es cs d u g i

-- Objects after the one that a result is for.
settled-answer_after :
    (n : Notes) (by : Dict ℕ) (a k : ℕ) (es : List Event) (id : String) (b : Bool) (r : Result)
    (cs : List Call)
    → Dict.get id by ≡ some a
    → a < k
    → settled n by k es cs ≡ settled n by k (answer id b r ∷ es) cs
unfolding settled
settled-answer_after n by a k es id b r [] g h = refl
settled-answer_after n by a k es id b r (c ∷ cs) g h = λ i.
    settles-answer n by k es id b r c (rw g (ground arith)) i
    ∷ settled-answer_after n by a (suc k) es id b r cs g (omega arith) i

settled-answer_unknown :
    (n : Notes) (by : Dict ℕ) (k : ℕ) (es : List Event) (id : String) (b : Bool) (r : Result)
    (cs : List Call)
    → Dict.get id by ≡ none
    → settled n by k es cs ≡ settled n by k (answer id b r ∷ es) cs
unfolding settled
settled-answer_unknown n by k es id b r [] g = refl
settled-answer_unknown n by k es id b r (c ∷ cs) g = λ i.
    settles-answer n by k es id b r c (rw g refl) i
    ∷ settled-answer_unknown n by (suc k) es id b r cs g i

fill-id :
    (n : Notes) (b : Bool) (r : Result) (c : Call) → (fill n b r c).tool_call_id ≡ c.tool_call_id
unfolding fill
fill-id n b r c = refl

-- The object that the result is for.
settles-filled :
    (n : Notes) (by : Dict ℕ) (k : ℕ) (es : List Event) (id : String) (b : Bool) (r : Result)
    (c : Call)
    → Dict.get id by ≡ some k
    → c.tool_call_id ≡ id
    → settles n by k es (fill n b r c) ≡ settles n by k (answer id b r ∷ es) c
unfolding outcome
settles-filled n by k es id b r c g e =
    let s : str_eq id c.tool_call_id ≡ true = rw (e, eq_refl id) refl in
    let p : points (Dict.get c.tool_call_id by) k ≡ true = rw (e, g) (ground arith) in
    let q : points (Dict.get (fill n b r c).tool_call_id by) k ≡ true = rw (fill-id n b r c) p in
    rw (q, p, s) refl

settled-answer :
    (n : Notes) (by : Dict ℕ) (a k j : ℕ) (es : List Event) (id : String) (b : Bool) (r : Result)
    (cs : List Call)
    → Dict.get id by ≡ some a
    → a ≡ k + j
    → at? j (map (λ c. c.tool_call_id) cs) ≡ some id
    → settled n by k es (modify_at (fill n b r) j cs) ≡ settled n by k (answer id b r ∷ es) cs
unfolding settled modify_at
settled-answer n by a k j es id b r [] g e h = absurd (cc)
settled-answer n by a k zero es id b r (c ∷ cs) g e h =
    let g' : Dict.get id by ≡ some k = g ∙ ap some (omega arith) in
    let f : c.tool_call_id ≡ id = cc in
    λ i.
      settles-filled n by k es id b r c g' f i
      ∷ settled-answer_after n by a (suc k) es id b r cs g (omega arith) i
settled-answer n by a k (suc j) es id b r (c ∷ cs) g e h = λ i.
    settles-answer n by k es id b r c (rw g (ground arith)) i
    ∷ settled-answer n by a (suc k) j es id b r cs g (omega arith) h i

abbrev ids : List Call → List String
ids cs = map (λ c. c.tool_call_id) cs

-- The map gives for an id the place of an object with this id.
pub record IsIndexed (h : Heap) : Type 0 where
  pub unnamed : Dict.get "" h.calls_by_id ≡ none
  pub indexed :
      (id : String) (a : ℕ) → Dict.get id h.calls_by_id ≡ some a → at? a (ids h.calls) ≡ some id

at?-append :
    {A : Type 0} (a : ℕ) (xs ys : List A) (x : A) → at? a xs ≡ some x → at? a (xs ++ ys) ≡ some x
at?-append zero [] ys x h = absurd (cc)
at?-append (suc a) [] ys x h = absurd (cc)
at?-append zero (y ∷ xs) ys x h = h
at?-append (suc a) (y ∷ xs) ys x h = at?-append a xs ys x h

at?-last : (cs : List Call) (c : Call) → at? (length cs) (ids (cs ++ c ∷ [])) ≡ some c.tool_call_id
at?-last [] c = refl
at?-last (d ∷ cs) c = at?-last cs c

ids-append : (cs ds : List Call) → ids (cs ++ ds) ≡ ids cs ++ ids ds
ids-append [] ds = refl
ids-append (c ∷ cs) ds = ap (λ l. c.tool_call_id ∷ l) (ids-append cs ds)

ids-modify_at :
    (n : Notes) (b : Bool) (r : Result) (a : ℕ) (cs : List Call)
    → ids (modify_at (fill n b r) a cs) ≡ ids cs
unfolding modify_at
ids-modify_at n b r a [] = refl
ids-modify_at n b r zero (c ∷ cs) = ap (λ x. x ∷ ids cs) (fill-id n b r c)
ids-modify_at n b r (suc a) (c ∷ cs) = ap (λ l. c.tool_call_id ∷ l) (ids-modify_at n b r a cs)

add_call-IsIndexed : (c : Call) (h : Heap) → IsIndexed h → IsIndexed (add_call c h)
add_call-IsIndexed c h v = elim (Bool-cases (str_eq c.tool_call_id "")) [
  | inl e ↦ record {
    unnamed = rw e v.unnamed;
    indexed = λ id a g.
        rw (ids-append h.calls (c ∷ []))
          (at?-append a (ids h.calls) (c.tool_call_id ∷ []) id (v.indexed id a (rw e at g)));
  }
  | inr e ↦ record {
    unnamed = rw (e, get-set, e) v.unnamed;
    indexed = λ id a g. elim (Bool-cases (str_eq c.tool_call_id id)) [
      | inl q ↦
          let k : some (length h.calls) ≡ some a = rw (e, get-set, q) at g in
          let l : length h.calls ≡ a = cc in
          subst (λ x. at? x (ids (h.calls ++ c ∷ [])) ≡ some id) l
            (at?-last h.calls c ∙ ap some ((eq_iff c.tool_call_id id).0 q))
      | inr q ↦ rw (ids-append h.calls (c ∷ [])) (
          at?-append a (ids h.calls) (c.tool_call_id ∷ []) id
            (v.indexed id a (rw (e, get-set, q) at g)))
    ];
  }
]

fill_at-IsIndexed :
    (n : Notes) (b : Bool) (r : Result) (found : Option ℕ) (h : Heap)
    → IsIndexed h
    → IsIndexed (fill_at n b r found h)
fill_at-IsIndexed n b r none h v = v
fill_at-IsIndexed n b r (some a) h v = record {
  unnamed = v.unnamed;
  indexed = λ id' a' g. rw (ids-modify_at n b r a h.calls) (v.indexed id' a' g);
}

-- The new object is settled as it is made.
settled-add_call :
    (n : Notes) (es : List Event) (c : Call) (h : Heap)
    → IsIndexed h
    → settled n (add_call c h).calls_by_id 0 es (add_call c h).calls
      ≡ settled n h.calls_by_id 0 (made c ∷ es) h.calls ++ resolved n c es ∷ []
unfolding settled
settled-add_call n es c h v = elim (Bool-cases (str_eq c.tool_call_id "")) [
  | inl e ↦
      let z = (eq_iff c.tool_call_id "").0 e in
      let g : Dict.get c.tool_call_id h.calls_by_id ≡ none =
        subst (λ x. Dict.get x h.calls_by_id ≡ none) (sym z) v.unnamed in
      rw
        (
          e,
          settled-append n h.calls_by_id 0 (length h.calls) es h.calls (c ∷ []) (omega arith),
          settled-made_unnamed n h.calls_by_id 0 es h.calls c e v.unnamed,
          g,
        )
        refl
  | inr e ↦
      let by = Dict.set c.tool_call_id (length h.calls) h.calls_by_id in
      let p : points (Dict.get c.tool_call_id by) (length h.calls) ≡ true =
        rw (get-set, eq_refl c.tool_call_id) (ground arith) in
      rw
        (
          e,
          settled-append n by 0 (length h.calls) es h.calls (c ∷ []) (omega arith),
          settled-made n h.calls_by_id 0 (length h.calls) es h.calls c (omega arith),
          p,
        )
        refl
]

settled-fill_at :
    (n : Notes) (es : List Event) (id : String) (b : Bool) (r : Result) (found : Option ℕ)
    (h : Heap)
    → IsIndexed h
    → Dict.get id h.calls_by_id ≡ found
    → settled n (fill_at n b r found h).calls_by_id 0 es (fill_at n b r found h).calls
      ≡ settled n h.calls_by_id 0 (answer id b r ∷ es) h.calls
settled-fill_at n es id b r none h v g =
    settled-answer_unknown n h.calls_by_id 0 es id b r h.calls g
settled-fill_at n es id b r (some a) h v g =
    settled-answer n h.calls_by_id a 0 a es id b r h.calls g (omega arith) (v.indexed id a g)

-- The objects that there are and the ones to come, each as it ends.
pub run-settled :
    (n : Notes) (es : List Event) (h : Heap)
    → IsIndexed h
    → (run n es h).calls ≡ settled n h.calls_by_id 0 es h.calls ++ foreseen n es
unfolding run foreseen
run-settled n [] h v =
    sym (
      append-nil (settled n h.calls_by_id 0 [] h.calls) ∙ settled-nothing n h.calls_by_id 0 h.calls)
run-settled n (made c ∷ es) h v =
    run-settled n es (add_call c h) (add_call-IsIndexed c h v)
    ∙ ap (λ l. l ++ foreseen n es) (settled-add_call n es c h v)
    ∙ append_assoc (settled n h.calls_by_id 0 (made c ∷ es) h.calls) (resolved n c es ∷ [])
        (foreseen n es)
run-settled n (answer id b r ∷ es) h v =
    let found = Dict.get id h.calls_by_id in
    run-settled n es (fill_at n b r found h) (fill_at-IsIndexed n b r found h v)
    ∙ ap (λ l. l ++ foreseen n es) (settled-fill_at n es id b r found h v refl)

-- All calls of a file end as looking ahead says.
pub run-foreseen :
    (n : Notes) (es : List Event)
    → (run n es (record { calls = []; calls_by_id = [] })).calls ≡ foreseen n es
unfolding settled Dict.get
run-foreseen n es =
    run-settled n es (record { calls = []; calls_by_id = [] })
      (record { unnamed = refl; indexed = λ id a g. absurd (cc) })
