-- ===== src/Sessions/Transcript/Whole.antt =====
-- src/sessions/transcript.js: `parseTranscript` is reading each entry with what comes after it.
use mathlib.Core.List.{append_assoc}
use mathlib.Core.Option
use agent_pod.Base.{
  ℕ, zero, suc, ◌+◌, ◌-◌, ◌≡◌, refl, sym, ap, ◌∙◌, List, [], ◌∷◌, ◌++◌, map, some, ◌&&◌, ◌==◌,
  arith, Bool-cases, Option-cases, some, inl, inr, length, length-append, drop,
}
use agent_pod.Base.Text.{Text}
use agent_pod.Sessions.Transcript.{
  Notes, Call, Part, said_text, said_thinking, tool_call, other, Answer, Body, user, assistant,
  tool_result, other_role, Entry, session, compaction, message, other_entry, compaction_message,
  new_call, spoken, says_nothing, user_said, read_user_content, time_of, read_entries, empty,
  entries_of, at?, dereferenced, shown, latest, parse_transcript, transcript_of, Line, is_blank,
}
use agent_pod.Sessions.Transcript.Calls.{Event, resolved, foreseen}
use agent_pod.Sessions.Transcript.Shared.{run-foreseen}
use agent_pod.Sessions.Transcript.Turns.{counted, attach-counted}
use agent_pod.Sessions.Transcript.Ahead.{
  text_in, thinking_in, part_events, body_events, events, calls_ahead, body_ahead, ahead, places,
  next_place, body_placed, place_after, placed, read_entries-placed,
}

foreseen-part_events :
    (n : Notes) (ps : List Part) (es : List Event)
    → foreseen n (part_events ps es) ≡ calls_ahead n ps es ++ foreseen n es
unfolding foreseen
foreseen-part_events n [] es = refl
foreseen-part_events n (said_text t ∷ ps) es = foreseen-part_events n ps es
foreseen-part_events n (said_thinking t ∷ ps) es = foreseen-part_events n ps es
foreseen-part_events n (tool_call id name args ∷ ps) es =
    ap (λ l. resolved n (new_call id name args) (part_events ps es) ∷ l)
      (foreseen-part_events n ps es)
foreseen-part_events n (other ∷ ps) es = foreseen-part_events n ps es

at?-here :
    {A : Type 0} (pre suf : List A) (x : A) (k : ℕ)
    → k ≡ length pre
    → at? k (pre ++ x ∷ suf) ≡ some x
at?-here [] suf x k h = rw h refl
at?-here (y ∷ pre) suf x k h = rw h (at?-here pre suf x (length pre) refl)

length-places :
    (n : Notes) (ps : List Part) (es : List Event) (k : ℕ)
    → length (places k ps) ≡ length (calls_ahead n ps es)
length-places n [] es k = refl
length-places n (said_text t ∷ ps) es k = length-places n ps es k
length-places n (said_thinking t ∷ ps) es k = length-places n ps es k
length-places n (tool_call id name args ∷ ps) es k = ap suc (length-places n ps es (suc k))
length-places n (other ∷ ps) es k = length-places n ps es k

next_place-places :
    (n : Notes) (ps : List Part) (es : List Event) (k : ℕ)
    → next_place k ps ≡ k + length (calls_ahead n ps es)
next_place-places n [] es k = omega arith
next_place-places n (said_text t ∷ ps) es k = next_place-places n ps es k
next_place-places n (said_thinking t ∷ ps) es k = next_place-places n ps es k
next_place-places n (tool_call id name args ∷ ps) es k =
    omega (arith, next_place-places n ps es (suc k))
next_place-places n (other ∷ ps) es k = next_place-places n ps es k

-- The places of an answer's calls lead to its calls.
dereferenced-places :
    (n : Notes) (ps : List Part) (es : List Event) (pre suf all : List Call) (k : ℕ)
    → k ≡ length pre
    → all ≡ pre ++ (calls_ahead n ps es ++ suf)
    → dereferenced all (places k ps) ≡ calls_ahead n ps es
unfolding dereferenced
dereferenced-places n [] es pre suf all k h e = refl
dereferenced-places n (said_text t ∷ ps) es pre suf all k h e =
    dereferenced-places n ps es pre suf all k h e
dereferenced-places n (said_thinking t ∷ ps) es pre suf all k h e =
    dereferenced-places n ps es pre suf all k h e
dereferenced-places n (tool_call id name args ∷ ps) es pre suf all k h e =
    let c = resolved n (new_call id name args) (part_events ps es) in
    let here : at? k all ≡ some c =
      ap (at? k) e ∙ at?-here pre (calls_ahead n ps es ++ suf) c k h in
    let ih =
      dereferenced-places n ps es (pre ++ c ∷ []) suf all (suc k)
        (omega (arith, length-append pre (c ∷ [])))
        (e ∙ sym (append_assoc pre (c ∷ []) (calls_ahead n ps es ++ suf))) in
    rw (dereferenced, here) (ap (λ l. c ∷ l) ih)
dereferenced-places n (other ∷ ps) es pre suf all k h e =
    dereferenced-places n ps es pre suf all k h e

shown-spoken :
    (n : Notes) (a : Answer) (at : ℕ) (t th : Text) (refs : List ℕ) (all calls : List Call)
    → length refs ≡ length calls
    → dereferenced all refs ≡ calls
    → map (shown all) (spoken n a at t th refs) ≡ spoken n a at t th calls
unfolding spoken
shown-spoken n a at t th refs all calls l e =
    elim (Bool-cases (says_nothing n a t th (length calls))) [
      | inl q ↦ rw (spoken, l, q) refl
      | inr q ↦ rw (spoken, l, q, e) refl
    ]

shown-user_said :
    (all : List Call) (c : Text × ℕ) (at : ℕ) → map (shown all) (user_said c at) ≡ user_said c at
shown-user_said all (t, images) at = elim (Bool-cases (is_blank t && (images == 0))) [
  | inl e ↦ rw e refl
  | inr e ↦ rw e refl
]

-- The calls of one entry.
abbrev body_calls : Notes → Body → List Event → List Call
body_calls n (user c) es = []
body_calls n (assistant a) es = calls_ahead n a.content es
body_calls n (tool_result id b r) es = []
body_calls n other_role es = []

foreseen-body :
    (n : Notes) (b : Body) (es : List Event)
    → foreseen n (body_events b es) ≡ body_calls n b es ++ foreseen n es
unfolding foreseen
foreseen-body n (user c) es = refl
foreseen-body n (assistant a) es = foreseen-part_events n a.content es
foreseen-body n (tool_result id b r) es = refl
foreseen-body n other_role es = refl

place_after-length :
    (n : Notes) (b : Body) (es : List Event) (k : ℕ)
    → place_after k b ≡ k + length (body_calls n b es)
place_after-length n (user c) es k = omega arith
place_after-length n (assistant a) es k = next_place-places n a.content es k
place_after-length n (tool_result id b r) es k = omega arith
place_after-length n other_role es k = omega arith

shown-body :
    (n : Notes) (at : ℕ) (b : Body) (es : List Event) (pre suf all : List Call) (k : ℕ)
    → k ≡ length pre
    → all ≡ pre ++ (body_calls n b es ++ suf)
    → map (shown all) (body_placed n at b k) ≡ body_ahead n at b es
shown-body n at (user c) es pre suf all k h e = shown-user_said all (read_user_content c) at
shown-body n at (assistant a) es pre suf all k h e =
    shown-spoken n a at (text_in a.content) (thinking_in a.content) (places k a.content) all
      (calls_ahead n a.content es) (length-places n a.content es k)
      (dereferenced-places n a.content es pre suf all k h e)
shown-body n at (tool_result id b r) es pre suf all k h e = refl
shown-body n at other_role es pre suf all k h e = refl

map-append : {A B : Type 0} (f : A → B) (xs ys : List A) → map f (xs ++ ys) ≡ map f xs ++ map f ys
map-append f [] ys = refl
map-append f (x ∷ xs) ys = ap (λ l. f x ∷ l) (map-append f xs ys)

shown-placed :
    (n : Notes) (es : List Entry) (pre all : List Call) (k : ℕ)
    → k ≡ length pre
    → all ≡ pre ++ foreseen n (events es)
    → map (shown all) (placed n k es) ≡ ahead n es
unfolding placed ahead
shown-placed n [] pre all k h e = refl
shown-placed n (session id ∷ es) pre all k h e = shown-placed n es pre all k h e
shown-placed n (compaction tokens at ∷ es) pre all k h e =
    ap (λ l. compaction_message tokens at ∷ l) (shown-placed n es pre all k h e)
shown-placed n (message at message_at b ∷ es) pre all k h e =
    let own = body_calls n b (events es) in
    let f : all ≡ pre ++ (own ++ foreseen n (events es)) =
      e ∙ ap (λ l. pre ++ l) (foreseen-body n b (events es)) in
    let first =
      shown-body n (time_of at message_at) b (events es) pre (foreseen n (events es)) all k h f in
    let rest =
      shown-placed n es (pre ++ own) all (place_after k b)
        (omega (arith, place_after-length n b (events es) k, length-append pre own))
        (f ∙ sym (append_assoc pre own (foreseen n (events es)))) in
    map-append (shown all) (body_placed n (time_of at message_at) b k)
      (placed n (place_after k b) es)
    ∙ (λ i. first i ++ rest i)
shown-placed n (other_entry ∷ es) pre all k h e = shown-placed n es pre all k h e

map-drop : {A B : Type 0} (f : A → B) (k : ℕ) (xs : List A) → map f (drop k xs) ≡ drop k (map f xs)
map-drop f zero xs = refl
map-drop f (suc k) [] = refl
map-drop f (suc k) (x ∷ xs) = map-drop f k xs

length-map : {A B : Type 0} (f : A → B) (xs : List A) → length (map f xs) ≡ length xs
length-map f [] = refl
length-map f (x ∷ xs) = ap suc (length-map f xs)

map-latest : {A B : Type 0} (f : A → B) (xs : List A) → map f (latest xs) ≡ latest (map f xs)
map-latest f xs =
    map-drop f (length xs - 400) xs ∙ ap (λ k. drop (k - 400) (map f xs)) (sym (length-map f xs))

transcript_of-ahead :
    (n : Notes) (es : List Entry) → (transcript_of n es).1 ≡ counted 0 0 (latest (ahead n es))
unfolding transcript_of
transcript_of-ahead n es =
    let (m, h) = read_entries-placed n es empty 0 refl in
    let t = read_entries n es empty in
    let calls : t.heap.calls ≡ foreseen n (events es) =
      ap (λ x. x.calls) h ∙ run-foreseen n (events es) in
    let all : map (shown t.heap.calls) t.messages ≡ ahead n es =
      ap (map (shown t.heap.calls)) m ∙ shown-placed n es [] t.heap.calls 0 refl calls in
    attach-counted (map (shown t.heap.calls) (latest t.messages))
    ∙ ap (counted 0 0) (map-latest (shown t.heap.calls) t.messages ∙ ap latest all)

-- `parseTranscript` gives the latest 400 messages of a file, each call with the results that come for it
-- later, up to the next call with its id, and the last answer of each turn with the time since the turn's
-- question and the number of the turn's calls among these messages. It throws exactly where reading the
-- lines does, at one that is `null`.
pub parse-ahead :
    (n : Notes) (parse : Text → Line) (lines : List Text)
    → Option.map (λ r. r.1) (parse_transcript n parse lines)
      ≡ Option.map (λ es. counted 0 0 (latest (ahead n es))) (entries_of parse lines)
unfolding parse_transcript
parse-ahead n parse lines = elim (Option-cases (entries_of parse lines)) [
  | inl e ↦ rw (parse_transcript, e) refl
  | inr (es, e) ↦ rw (parse_transcript, e) (ap some (transcript_of-ahead n es))
]
