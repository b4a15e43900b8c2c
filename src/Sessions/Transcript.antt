-- ===== src/Sessions/Transcript.antt =====
-- src/sessions/transcript.js: the entries of a session's file as the messages that a client shows. The
-- objects of tool calls are shared by the messages and by a map by id; here they stand in a list, and
-- both refer to them by their place in it. A line's JSON comes in parsed, with its times as numbers.
pub mod Calls
pub mod Shared
pub mod Ahead
pub mod Whole
pub mod Turns
mod Tests
use mathlib.Core.Option
use agent_pod.Base.{
  ℕ, zero, suc, ◌+◌, ◌-◌, String, List, [], ◌∷◌, ◌++◌, map, Option, none, some, Bool, true, false,
  not, ◌&&◌, ◌||◌, if◌then◌else◌, ltb, leb, ◌==◌, str_eq, length, drop, ◌>>=◌,
}
use agent_pod.Base.Dict
use agent_pod.Base.Dict.{Dict}
use agent_pod.Base.Text.{Text, trim}
use agent_pod.Agent.Preview.{Result, Preview, Image, tool_result_preview}

pub data UserPart : Type 0 where
  text_part : Text → UserPart
  image_part : UserPart
  other_part : UserPart

pub data UserContent : Type 0 where
  plain : Text → UserContent
  mixed : List UserPart → UserContent

-- A part of an answer of the model.
pub data Part : Type 0 where
  said_text : Text → Part
  said_thinking : Text → Part
  tool_call : (id name : String) (args : Text) → Part
  other : Part

pub record Answer : Type 0 where
  pub content : List Part
  pub model : String
  pub usage : Option Text
  pub stop_reason : String
  pub error_message : Text

pub data Body : Type 0 where
  user : UserContent → Body
  assistant : Answer → Body
  tool_result : (call_id : String) (is_error : Bool) (content : Result) → Body
  other_role : Body

pub data Entry : Type 0 where
  session : (id : String) → Entry
  compaction : (tokens_before timestamp : ℕ) → Entry
  message : (timestamp message_timestamp : ℕ) → Body → Entry
  other_entry : Entry

pub record Call : Type 0 where
  pub tool_call_id : String
  pub tool_name : String
  pub args : Text
  pub pending : Bool
  pub is_error : Bool
  pub preview : Text
  pub preview_truncated : Bool
  pub result_length : Option ℕ
  pub images : List Image

pub record TurnStats : Type 0 where
  pub duration_ms : Option ℕ
  pub tool_calls : ℕ

-- An assistant's message; its calls are places in the list of calls, or the calls themselves.
pub record Spoken (C : Type 0) : Type 0 where
  pub text : Text
  pub thinking : Text
  pub tool_calls : List C
  pub model : String
  pub usage : Option Text
  pub error : Text
  pub warning : Text
  pub timestamp : ℕ
  pub turn_stats : Option TurnStats

pub data Message (C : Type 0) : Type 0 where
  user_message : (text : Text) (images timestamp : ℕ) → Message C
  assistant_message : Spoken C → Message C
  compaction_message : (tokens_before timestamp : ℕ) → Message C

-- The sentences of `describeStop`.
pub record Notes : Type 0 where
  pub failed : Text
  pub cut_off : Text
  pub aborted : Text
  pub left_out : ℕ → Text

-- `a || b`
abbrev pub or_text : Text → Text → Text
or_text [] b = b
or_text (c ∷ s) b = c ∷ s

-- `describeStop`: the error and the warning.
unfoldable pub describe_stop : Notes → String → Text → Text × Text
describe_stop n stop_reason error_message =
    if str_eq stop_reason "error" then (or_text error_message n.failed, []) else (
      [],
      if str_eq stop_reason "length"
          then n.cut_off
          else if str_eq stop_reason "aborted"
          then n.aborted
          else [],
    )

abbrev pub is_blank : Text → Bool
is_blank t = length (trim t) == 0

abbrev pub add_part : UserPart → Text × ℕ → Text × ℕ
add_part (text_part t) (s, n) = (s ++ t, n)
add_part image_part (s, n) = (s, n + 1)
add_part other_part (s, n) = (s, n)

unfoldable pub read_parts : List UserPart → Text × ℕ → Text × ℕ
read_parts [] acc = acc
read_parts (p ∷ ps) acc = read_parts ps (add_part p acc)

-- `readUserContent`
abbrev pub read_user_content : UserContent → Text × ℕ
read_user_content (plain t) = (t, 0)
read_user_content (mixed ps) = read_parts ps ([], 0)

abbrev pub new_call : String → String → Text → Call
new_call id name args = record {
  tool_call_id = id;
  tool_name = name;
  args = args;
  pending = true;
  is_error = false;
  preview = [];
  preview_truncated = false;
  result_length = none;
  images = [];
}

-- `Object.assign` of a preview, which leaves out what it has not.
abbrev pub assign : Preview → Call → Call
assign p c = record c {
  preview = p.preview;
  preview_truncated = p.preview_truncated || c.preview_truncated;
  result_length = elim p.result_length [ none ↦ c.result_length | some n ↦ some n ];
  images = elim p.images [ [] ↦ c.images | i ∷ is ↦ i ∷ is ];
}

-- A result is filled in.
unfoldable pub fill : Notes → Bool → Result → Call → Call
fill n is_error content c =
    assign (tool_result_preview n.left_out content)
      (record c { pending = false; is_error = is_error })

-- The objects of the calls, and `callsById`.
pub record Heap : Type 0 where
  pub calls : List Call
  pub calls_by_id : Dict ℕ

unfoldable pub modify_at : {A : Type 0} → (A → A) → ℕ → List A → List A
modify_at f a [] = []
modify_at f zero (x ∷ xs) = f x ∷ xs
modify_at f (suc a) (x ∷ xs) = x ∷ modify_at f a xs

-- A call is put in the list, and in the map if it has an id.
abbrev pub add_call : Call → Heap → Heap
add_call c h = record {
  calls = h.calls ++ c ∷ [];
  calls_by_id =
      if str_eq c.tool_call_id ""
      then h.calls_by_id
      else Dict.set c.tool_call_id (length h.calls) h.calls_by_id;
}

-- What a message's parts have given so far.
pub record Reading : Type 0 where
  pub text : Text
  pub thinking : Text
  pub tool_calls : List ℕ
  pub heap : Heap

unfoldable pub read_part : Part → Reading → Reading
read_part (said_text t) r = record r { text = r.text ++ t }
read_part (said_thinking t) r = record r { thinking = r.thinking ++ t }
read_part (tool_call id name args) r = record r {
  tool_calls = r.tool_calls ++ length r.heap.calls ∷ [];
  heap = add_call (new_call id name args) r.heap;
}
read_part other r = r

unfoldable pub read_answer : List Part → Reading → Reading
unfolding read_part
read_answer [] r = r
read_answer (p ∷ ps) r = read_answer ps (read_part p r)

-- No text, thinking, call, error or warning.
unfoldable pub says_nothing : Notes → Answer → Text → Text → (calls : ℕ) → Bool
unfolding describe_stop
says_nothing n a text thinking calls =
    let stop = describe_stop n a.stop_reason a.error_message in
    is_blank text
    && (is_blank thinking && ((calls == 0) && ((length stop.0 == 0) && (length stop.1 == 0))))

-- The message of an answer, if there is something to show.
unfoldable pub spoken : {C : Type 0} → Notes → Answer → ℕ → Text → Text → List C → List (Message C)
unfolding describe_stop says_nothing
spoken n a at text thinking calls =
    let stop = describe_stop n a.stop_reason a.error_message in
    if says_nothing n a text thinking (length calls)
    then []
    else assistant_message (record {
      text = text;
      thinking = thinking;
      tool_calls = calls;
      model = a.model;
      usage = a.usage;
      error = stop.0;
      warning = stop.1;
      timestamp = at;
      turn_stats = none;
    })
      ∷ []

abbrev pub user_said : {C : Type 0} → Text × ℕ → ℕ → List (Message C)
user_said (t, images) at = if is_blank t && (images == 0) then [] else user_message t images at ∷ []

pub record Transcript : Type 0 where
  pub session_id : String
  pub messages : List (Message ℕ)
  pub heap : Heap

abbrev pub heard : Notes → Answer → ℕ → Reading → Transcript → Transcript
heard n a at r t = record t {
  messages = t.messages ++ spoken n a at r.text r.thinking r.tool_calls;
  heap = r.heap;
}

abbrev pub fill_at : Notes → Bool → Result → Option ℕ → Heap → Heap
fill_at n is_error content none h = h
fill_at n is_error content (some a) h = record h {
  calls = modify_at (fill n is_error content) a h.calls;
}

-- `callsById.get`, and the call that it finds is changed.
abbrev pub answered : Notes → String → Bool → Result → Heap → Heap
answered n id is_error content h = fill_at n is_error content (Dict.get id h.calls_by_id) h

abbrev pub read_body : Notes → ℕ → Body → Transcript → Transcript
read_body n at (user c) t = record t { messages = t.messages ++ user_said (read_user_content c) at }
read_body n at (assistant a) t =
    heard n a at
      (read_answer a.content (record { text = []; thinking = []; tool_calls = []; heap = t.heap }))
      t
read_body n at (tool_result id is_error content) t = record t {
  heap = answered n id is_error content t.heap;
}
read_body n at other_role t = t

-- `toMillis(entry.timestamp) || message.timestamp || 0`
abbrev pub time_of : ℕ → ℕ → ℕ
time_of at message_at = if at == 0 then message_at else at

-- One line that is JSON.
abbrev pub read_entry : Notes → Entry → Transcript → Transcript
read_entry n (session id) t = if str_eq id "" then t else record t { session_id = id }
read_entry n (compaction tokens at) t = record t {
  messages = t.messages ++ compaction_message tokens at ∷ [];
}
read_entry n (message at message_at b) t = read_body n (time_of at message_at) b t
read_entry n other_entry t = t

unfoldable pub read_entries : Notes → List Entry → Transcript → Transcript
read_entries n [] t = t
read_entries n (e ∷ es) t = read_entries n es (read_entry n e t)

abbrev pub empty : Transcript
empty = record { session_id = ""; messages = []; heap = record { calls = []; calls_by_id = [] } }

-- What `JSON.parse` makes of a line. It throws at `not_json`; of `null`, the code reads a field.
pub data Line : Type 0 where
  not_json : Line
  null_json : Line
  json : Entry → Line

-- The entries of the lines that are not blank and that `JSON.parse` reads; none where the code throws.
unfoldable pub entries_of : (parse : Text → Line) → List Text → Option (List Entry)
entries_of parse [] = some []
entries_of parse (l ∷ ls) =
    let rest = entries_of parse ls in
    if is_blank l then rest else elim (parse (trim l)) [
      | not_json ↦ rest
      | null_json ↦ none
      | json e ↦ Option.map (λ es. e ∷ es) rest
    ]

-- The object at a place.
abbrev pub at? : {A : Type 0} → ℕ → List A → Option A
at? k [] = none
at? zero (x ∷ xs) = some x
at? (suc k) (x ∷ xs) = at? k xs

unfoldable pub dereferenced : List Call → List ℕ → List Call
dereferenced calls [] = []
dereferenced calls (a ∷ places) =
    let rest = dereferenced calls places in elim (at? a calls) [ none ↦ rest | some c ↦ c ∷ rest ]

abbrev pub shown : List Call → Message ℕ → Message Call
shown calls (user_message t n at) = user_message t n at
shown calls (compaction_message n at) = compaction_message n at
shown calls (assistant_message s) = assistant_message (record {
  text = s.text;
  thinking = s.thinking;
  tool_calls = dereferenced calls s.tool_calls;
  model = s.model;
  usage = s.usage;
  error = s.error;
  warning = s.warning;
  timestamp = s.timestamp;
  turn_stats = s.turn_stats;
})

abbrev pub max_messages : ℕ
max_messages = 400

-- `attachTurnStats`: the turn that is read, and the place and the time of its last answer.
pub record Turn : Type 0 where
  pub turn_start : ℕ
  pub tool_calls : ℕ
  pub last_assistant : Option (ℕ × ℕ)

-- No duration is given where a time is missing, or the clocks went backwards.
abbrev pub duration : ℕ → ℕ → Option ℕ
duration start last =
    if ltb 0 start && (ltb 0 last && leb start last) then some (last - start) else none

abbrev pub with_stats : TurnStats → Message Call → Message Call
with_stats st (assistant_message s) = assistant_message (record s { turn_stats = some st })
with_stats st (user_message t n at) = user_message t n at
with_stats st (compaction_message n at) = compaction_message n at

abbrev pub stats_of : Turn → ℕ → TurnStats
stats_of t last = record { duration_ms = duration t.turn_start last; tool_calls = t.tool_calls }

-- `flush`
abbrev pub flush : Turn → List (Message Call) → List (Message Call)
flush t ms = elim t.last_assistant [
  | none ↦ ms
  | some r ↦ modify_at (with_stats (stats_of t r.1)) r.0 ms
]

-- The loop, over what is left from a place on; the messages change as it goes.
unfoldable pub attach_loop :
    ℕ → List (Message Call) → Turn → List (Message Call) → List (Message Call)
attach_loop k [] t ms = flush t ms
attach_loop k (user_message text n at ∷ rest) t ms =
    attach_loop (suc k) rest (record { turn_start = at; tool_calls = 0; last_assistant = none })
      (flush t ms)
attach_loop k (assistant_message s ∷ rest) t ms =
    attach_loop (suc k) rest
      (record t {
        tool_calls = t.tool_calls + length s.tool_calls;
        last_assistant = some (k, s.timestamp);
      })
      ms
attach_loop k (compaction_message n at ∷ rest) t ms = attach_loop (suc k) rest t ms

unfoldable pub attach_turn_stats : List (Message Call) → List (Message Call)
unfolding attach_loop
attach_turn_stats ms =
    attach_loop 0 ms (record { turn_start = 0; tool_calls = 0; last_assistant = none }) ms

-- `messages.slice(-MAX_MESSAGES)`
abbrev pub latest : {A : Type 0} → List A → List A
latest ms = drop (length ms - max_messages) ms

-- The answer, from the entries on.
unfoldable pub transcript_of : Notes → List Entry → String × List (Message Call)
unfolding read_entries
transcript_of n es =
    let t = read_entries n es empty in
    (t.session_id, attach_turn_stats (map (shown t.heap.calls) (latest t.messages)))

-- `parseTranscript`, from the lines on; none where it throws.
unfoldable pub parse_transcript :
    Notes → (parse : Text → Line) → List Text → Option (String × List (Message Call))
unfolding entries_of transcript_of
parse_transcript n parse lines = Option.map (transcript_of n) (entries_of parse lines)
