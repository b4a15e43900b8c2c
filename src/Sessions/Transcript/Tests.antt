-- ===== src/Sessions/Transcript/Tests.antt =====
-- The theorem on a session's file at two concrete files.
use mathlib.Core.Option
use agent_pod.Base.{◌≡◌, refl, List, [], ◌∷◌, none, some, false, ◌==◌, if◌then◌else◌}
use agent_pod.Base.Dict
use agent_pod.Base.Text.{Text, trim_start, trim_end}
use agent_pod.Agent.Preview.{other_result, tool_result_preview}
use agent_pod.Sessions.Transcript.{
  Notes, Answer, new_call, said_text, tool_call, user, assistant, tool_result, plain, Line,
  not_json, null_json, json, message, session, user_message, assistant_message, parse_transcript,
  entries_of, latest, read_entries, read_answer, read_part, spoken, says_nothing, describe_stop,
  modify_at, fill, dereferenced, transcript_of, attach_turn_stats, attach_loop,
}
use agent_pod.Sessions.Transcript.Turns.{counted}
use agent_pod.Sessions.Transcript.Ahead.{ahead}
use agent_pod.Sessions.Transcript.Whole.{parse-ahead}

abbrev notes : Notes
notes = record { failed = 1 ∷ []; cut_off = 2 ∷ []; aborted = 3 ∷ []; left_out = λ n. n ∷ [] }

abbrev asks : Answer
asks = record {
  content = said_text (76 ∷ []) ∷ tool_call "c1" "ls" [] ∷ tool_call "c2" "cat" [] ∷ [];
  model = "m";
  usage = none;
  stop_reason = "toolUse";
  error_message = [];
}

abbrev tells : Answer
tells = record {
  content = said_text (70 ∷ []) ∷ [];
  model = "m";
  usage = none;
  stop_reason = "length";
  error_message = [];
}

-- One letter stands for the JSON of a line.
abbrev parse : Text → Line
parse t = elim t [
  | [] ↦ not_json
  | c ∷ s ↦
      if c == 83
      then json (session "s1")
      else if c == 81
      then json (message 10 0 (user (plain (72 ∷ []))))
      else if c == 65
      then json (message 20 0 (assistant asks))
      else if c == 82
      then json (message 25 0 (tool_result "c1" false (other_result (79 ∷ []))))
      else if c == 69
      then json (message 0 30 (assistant tells))
      else if c == 110
      then null_json
      else not_json
]

abbrev lines : List Text
lines = (83 ∷ []) ∷ (81 ∷ []) ∷ (65 ∷ []) ∷ [] ∷ (120 ∷ []) ∷ (32 ∷ 82 ∷ []) ∷ (69 ∷ []) ∷ []

parse-ahead_example :
    Option.map (λ r. r.1) (parse_transcript notes parse lines)
    ≡ Option.map (λ es. counted 0 0 (latest (ahead notes es))) (entries_of parse lines)
parse-ahead_example = parse-ahead notes parse lines

-- The first call has its result, the second one waits; the turn took 20 and made two calls.
parse_test :
    parse_transcript notes parse lines
    ≡ some (
      "s1",
      user_message (72 ∷ []) 0 10
          ∷ assistant_message (record {
            text = 76 ∷ [];
            thinking = [];
            tool_calls =
                record {
                  tool_call_id = "c1";
                  tool_name = "ls";
                  args = [];
                  pending = false;
                  is_error = false;
                  preview = 79 ∷ [];
                  preview_truncated = false;
                  result_length = none;
                  images = [];
                }
                ∷ new_call "c2" "cat" []
                ∷ [];
            model = "m";
            usage = none;
            error = [];
            warning = [];
            timestamp = 20;
            turn_stats = none;
          })
          ∷ assistant_message (record {
            text = 70 ∷ [];
            thinking = [];
            tool_calls = [];
            model = "m";
            usage = none;
            error = [];
            warning = 2 ∷ [];
            timestamp = 30;
            turn_stats = some (record { duration_ms = some 20; tool_calls = 2 });
          })
          ∷ [],
    )
unfolding parse_transcript transcript_of entries_of read_entries read_answer read_part spoken
    says_nothing describe_stop modify_at fill dereferenced attach_turn_stats attach_loop
    tool_result_preview trim_start trim_end Dict.get Dict.set
parse_test = refl

-- One line that is `null`, and none of the others is shown.
null_line : parse_transcript notes parse ((83 ∷ []) ∷ (81 ∷ []) ∷ (110 ∷ []) ∷ []) ≡ none
unfolding parse_transcript entries_of trim_start trim_end
null_line = refl
