-- ===== src/Sessions/Transcript/Ahead.antt =====
-- src/sessions/transcript.js: the messages of a file, each read with what comes after it.
use mathlib.Core.List.{append_assoc, append-nil}
use agent_pod.Base.{
  ℕ, suc, ◌≡◌, refl, sym, ap, ◌∙◌, List, [], ◌∷◌, ◌++◌, Option, none, some, Bool, str_eq, arith,
  Bool-cases, inl, inr, length, length-append,
}
use agent_pod.Base.Dict
use agent_pod.Base.Text.{Text}
use agent_pod.Agent.Preview.{Result}
use agent_pod.Sessions.Transcript.{
  Notes, fill_at, fill, Call, Part, said_text, said_thinking, tool_call, other, Body, user,
  assistant, tool_result, other_role, Entry, session, compaction, message, other_entry, Message,
  compaction_message, Heap, Reading, Transcript, new_call, read_part, read_answer, spoken,
  user_said, read_user_content, read_body, time_of, read_entries,
}
use agent_pod.Sessions.Transcript.Calls.{Event, made, answer, resolved, run}
use agent_pod.Sessions.Transcript.Turns.{length-modify_at}

abbrev pub text_in : List Part → Text
text_in [] = []
text_in (said_text t ∷ ps) = t ++ text_in ps
text_in (said_thinking t ∷ ps) = text_in ps
text_in (tool_call id name args ∷ ps) = text_in ps
text_in (other ∷ ps) = text_in ps

abbrev pub thinking_in : List Part → Text
thinking_in [] = []
thinking_in (said_text t ∷ ps) = thinking_in ps
thinking_in (said_thinking t ∷ ps) = t ++ thinking_in ps
thinking_in (tool_call id name args ∷ ps) = thinking_in ps
thinking_in (other ∷ ps) = thinking_in ps

-- The calls that the parts make, before other events.
abbrev pub part_events : List Part → List Event → List Event
part_events [] es = es
part_events (said_text t ∷ ps) es = part_events ps es
part_events (said_thinking t ∷ ps) es = part_events ps es
part_events (tool_call id name args ∷ ps) es = made (new_call id name args) ∷ part_events ps es
part_events (other ∷ ps) es = part_events ps es

abbrev pub body_events : Body → List Event → List Event
body_events (user c) es = es
body_events (assistant a) es = part_events a.content es
body_events (tool_result id is_error content) es = answer id is_error content ∷ es
body_events other_role es = es

abbrev pub events : List Entry → List Event
events [] = []
events (session id ∷ es) = events es
events (compaction tokens at ∷ es) = events es
events (message at message_at b ∷ es) = body_events b (events es)
events (other_entry ∷ es) = events es

-- The calls of an answer, each as it ends.
abbrev pub calls_ahead : Notes → List Part → List Event → List Call
calls_ahead n [] es = []
calls_ahead n (said_text t ∷ ps) es = calls_ahead n ps es
calls_ahead n (said_thinking t ∷ ps) es = calls_ahead n ps es
calls_ahead n (tool_call id name args ∷ ps) es =
    resolved n (new_call id name args) (part_events ps es) ∷ calls_ahead n ps es
calls_ahead n (other ∷ ps) es = calls_ahead n ps es

abbrev pub body_ahead : Notes → ℕ → Body → List Event → List (Message Call)
body_ahead n at (user c) es = user_said (read_user_content c) at
body_ahead n at (assistant a) es =
    spoken n a at (text_in a.content) (thinking_in a.content) (calls_ahead n a.content es)
body_ahead n at (tool_result id is_error content) es = []
body_ahead n at other_role es = []

-- The messages of the entries, with each call as it ends.
unfoldable pub ahead : Notes → List Entry → List (Message Call)
ahead n [] = []
ahead n (session id ∷ es) = ahead n es
ahead n (compaction tokens at ∷ es) = compaction_message tokens at ∷ ahead n es
ahead n (message at message_at b ∷ es) =
    body_ahead n (time_of at message_at) b (events es) ++ ahead n es
ahead n (other_entry ∷ es) = ahead n es

-- The same, with the places of the calls from a number on.
abbrev pub places : ℕ → List Part → List ℕ
places k [] = []
places k (said_text t ∷ ps) = places k ps
places k (said_thinking t ∷ ps) = places k ps
places k (tool_call id name args ∷ ps) = k ∷ places (suc k) ps
places k (other ∷ ps) = places k ps

abbrev pub next_place : ℕ → List Part → ℕ
next_place k [] = k
next_place k (said_text t ∷ ps) = next_place k ps
next_place k (said_thinking t ∷ ps) = next_place k ps
next_place k (tool_call id name args ∷ ps) = next_place (suc k) ps
next_place k (other ∷ ps) = next_place k ps

abbrev pub body_placed : Notes → ℕ → Body → ℕ → List (Message ℕ)
body_placed n at (user c) k = user_said (read_user_content c) at
body_placed n at (assistant a) k =
    spoken n a at (text_in a.content) (thinking_in a.content) (places k a.content)
body_placed n at (tool_result id is_error content) k = []
body_placed n at other_role k = []

abbrev pub place_after : ℕ → Body → ℕ
place_after k (user c) = k
place_after k (assistant a) = next_place k a.content
place_after k (tool_result id is_error content) = k
place_after k other_role = k

unfoldable pub placed : Notes → ℕ → List Entry → List (Message ℕ)
placed n k [] = []
placed n k (session id ∷ es) = placed n k es
placed n k (compaction tokens at ∷ es) = compaction_message tokens at ∷ placed n k es
placed n k (message at message_at b ∷ es) =
    body_placed n (time_of at message_at) b k ++ placed n (place_after k b) es
placed n k (other_entry ∷ es) = placed n k es

-- An answer's parts, read one after the other.
read_answer-placed :
    (n : Notes) (ps : List Part) (r : Reading) (k : ℕ) (es : List Event)
    → length r.heap.calls ≡ k
    → ((read_answer ps r).text ≡ r.text ++ text_in ps)
      × ((read_answer ps r).thinking ≡ r.thinking ++ thinking_in ps)
      × ((read_answer ps r).tool_calls ≡ r.tool_calls ++ places k ps)
      × (run n es (read_answer ps r).heap ≡ run n (part_events ps es) r.heap)
      × (length (read_answer ps r).heap.calls ≡ next_place k ps)
unfolding read_answer run
read_answer-placed n [] r k es h =
    (sym (append-nil r.text), sym (append-nil r.thinking), sym (append-nil r.tool_calls), refl, h)
read_answer-placed n (said_text t ∷ ps) r k es h =
    let (a, b, c, d, e) = read_answer-placed n ps (read_part (said_text t) r) k es h in
    (a ∙ append_assoc r.text t (text_in ps), b, c, d, e)
read_answer-placed n (said_thinking t ∷ ps) r k es h =
    let (a, b, c, d, e) = read_answer-placed n ps (read_part (said_thinking t) r) k es h in
    (a, b ∙ append_assoc r.thinking t (thinking_in ps), c, d, e)
read_answer-placed n (tool_call id name args ∷ ps) r k es h =
    let (a, b, c, d, e) =
      read_answer-placed n ps (read_part (tool_call id name args) r) (suc k) es
        (omega (arith, length-append r.heap.calls (new_call id name args ∷ []))) in
    (
      a,
      b,
      c
          ∙ append_assoc r.tool_calls (length r.heap.calls ∷ []) (places (suc k) ps)
          ∙ ap (λ x. r.tool_calls ++ x ∷ places (suc k) ps) h,
      d,
      e,
    )
read_answer-placed n (other ∷ ps) r k es h = read_answer-placed n ps r k es h

length-answered :
    (n : Notes) (b : Bool) (r : Result) (found : Option ℕ) (h : Heap)
    → length (fill_at n b r found h).calls ≡ length h.calls
length-answered n b r none h = refl
length-answered n b r (some a) h = length-modify_at (fill n b r) a h.calls

read_body-placed :
    (n : Notes) (at : ℕ) (b : Body) (t : Transcript) (k : ℕ) (es : List Event)
    → length t.heap.calls ≡ k
    → ((read_body n at b t).messages ≡ t.messages ++ body_placed n at b k)
      × (run n es (read_body n at b t).heap ≡ run n (body_events b es) t.heap)
      × (length (read_body n at b t).heap.calls ≡ place_after k b)
unfolding run
read_body-placed n at (user c) t k es h = (refl, refl, h)
read_body-placed n at (assistant a) t k es h =
    let (x, y, z, d, e) =
      read_answer-placed n a.content
        (record { text = []; thinking = []; tool_calls = []; heap = t.heap }) k es h in
    ((λ i. t.messages ++ spoken n a at (x i) (y i) (z i)), d, e)
read_body-placed n at (tool_result id is_error content) t k es h = (
  sym (append-nil t.messages),
  refl,
  length-answered n is_error content (Dict.get id t.heap.calls_by_id) t.heap ∙ h,
)
read_body-placed n at other_role t k es h = (sym (append-nil t.messages), refl, h)

pub read_entries-placed :
    (n : Notes) (es : List Entry) (t : Transcript) (k : ℕ)
    → length t.heap.calls ≡ k
    → ((read_entries n es t).messages ≡ t.messages ++ placed n k es)
      × ((read_entries n es t).heap ≡ run n (events es) t.heap)
unfolding read_entries run placed
read_entries-placed n [] t k h = (sym (append-nil t.messages), refl)
read_entries-placed n (session id ∷ es) t k h = elim (Bool-cases (str_eq id "")) [
  | inl e ↦ rw (read_entries, e) (read_entries-placed n es t k h)
  | inr e ↦ rw (read_entries, e) (read_entries-placed n es (record t { session_id = id }) k h)
]
read_entries-placed n (compaction tokens at ∷ es) t k h =
    let m : Message ℕ = compaction_message tokens at in
    let (a, b) = read_entries-placed n es (record t { messages = t.messages ++ m ∷ [] }) k h in
    (a ∙ append_assoc t.messages (m ∷ []) (placed n k es), b)
read_entries-placed n (message at message_at b ∷ es) t k h =
    let (x, y, z) = read_body-placed n (time_of at message_at) b t k (events es) h in
    let (u, v) =
      read_entries-placed n es (read_body n (time_of at message_at) b t) (place_after k b) z in
    (
      u
          ∙ ap (λ l. l ++ placed n (place_after k b) es) x
          ∙ append_assoc t.messages (body_placed n (time_of at message_at) b k)
              (placed n (place_after k b) es),
      v ∙ y,
    )
read_entries-placed n (other_entry ∷ es) t k h = read_entries-placed n es t k h
