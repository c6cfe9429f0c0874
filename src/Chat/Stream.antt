-- ===== src/Chat/Stream.antt =====
-- The hook of frontend/src/hooks/useChatStream.ts as a state machine: its React state and its refs
-- are one record, and each call, event of the stream, animation frame or microtask is a step. The
-- callback of a call of `sendMessage` is known by the number of the call.
use open_pm.Common.{
  is_empty, Text, ℕ, String, Option, none, some, List, [], ◌∷◌, ◌++◌, Bool, true, false, not, ◌||◌,
  if◌then◌else◌, length, take, drop, Json,
}
use open_pm.Chat.Types.{ActiveToolCall, MutationCardData, ChatStreamError, ChatStreamState}

-- A call of a callback `onComplete`.
pub record Completion : Type 0 where
  pub send : ℕ
  pub message : Text
  pub success : Bool
  pub error_code : Option String
  pub invocations : Option (List ActiveToolCall)

pub data Output : Type 0 where
  completed : Completion → Output
  toast : String → Output

pub record Stream : Type 0 where
  pub state : ChatStreamState
  pub current_session_id : Option String
  pub active_tool_calls : List ActiveToolCall
  pub mutation_cards : List MutationCardData
  pub queued_text : Text
  pub stream_closed : Bool
  pub completion : Option ℕ
  pub full_text : Text
  pub tool_calls : List ActiveToolCall
  -- The microtasks that call a callback with the finished answer.
  pub microtasks : List (ℕ × List ActiveToolCall)
  -- What the hook has done to the outside, oldest first.
  pub log : List Output

-- An event of the answer, by its `type`. An optional field that is missing is `none`.
pub data ChatEvent : Type 0 where
  message_start : Option String → ChatEvent
  tool_call : Option (List String) → ChatEvent
  tool_call_start :
      (call_id tool_name : String) → Option Json → (text_offset : Option ℕ) → ChatEvent
  tool_call_end : (call_id : String) → (result_summary : Option String) → ChatEvent
  mutation_card :
      (undo_token description : String) → (expires_in : Option ℕ) → (now : ℕ) → ChatEvent
  content_delta : Option Text → ChatEvent
  message_end : ChatEvent
  error : (message code : Option String) → ChatEvent
  other : ChatEvent

abbrev pub idle_state : Option ChatStreamError → ChatStreamState
idle_state e = record {
  streaming = false;
  sending = false;
  streaming_text = [];
  active_tools = [];
  last_error = e;
}

unfoldable pub initial : Stream
initial = record {
  state = idle_state none;
  current_session_id = none;
  active_tool_calls = [];
  mutation_cards = [];
  queued_text = [];
  stream_closed = false;
  completion = none;
  full_text = [];
  tool_calls = [];
  microtasks = [];
  log = [];
}

-- `if (completion) queueMicrotask(…)`.
abbrev pub queue_completion :
    Option ℕ → List ActiveToolCall → List (ℕ × List ActiveToolCall) → List (ℕ × List ActiveToolCall)
queue_completion none calls tasks = tasks
queue_completion (some k) calls tasks = tasks ++ (k, calls) ∷ []

unfoldable pub flush_completion_if_ready : Stream → Stream
flush_completion_if_ready s =
    if not (is_empty s.queued_text) || not s.stream_closed
    then s
    else let st = s.state in
      record s {
        stream_closed = false;
        state = record st {
          streaming = false;
          sending = false;
          streaming_text = [];
          active_tools = [];
        };
        completion = none;
        microtasks = queue_completion s.completion s.tool_calls s.microtasks;
      }

abbrev pub slice_length : ℕ
slice_length = 12

-- A round of `pump`, once in each animation frame.
unfoldable pub pump : Stream → Stream
pump s =
    if not (is_empty s.queued_text)
    then (let slice = take slice_length s.queued_text in
        let st = s.state in
        record s {
          queued_text = drop (length slice) s.queued_text;
          state = record st {
            streaming = true;
            sending = false;
            streaming_text = st.streaming_text ++ slice;
          };
        })
    else flush_completion_if_ready s

-- The browser runs the oldest microtask.
abbrev pub run_microtask : List (ℕ × List ActiveToolCall) → Stream → Stream
run_microtask [] s = s
run_microtask ((k, calls) ∷ later) s = record s {
  microtasks = later;
  log =
      s.log
      ++ completed (record {
        send = k;
        message = s.full_text;
        success = true;
        error_code = none;
        invocations = some calls;
      })
        ∷ [];
}

-- `sendMessage` up to its first `await`, as call number `k`.
unfoldable pub begin_send : ℕ → Stream → Stream
begin_send k s =
    let st = idle_state none in
    record s {
      queued_text = [];
      stream_closed = false;
      full_text = [];
      completion = some k;
      tool_calls = [];
      active_tool_calls = [];
      state = record st { sending = true };
    }

-- `onComplete(message, success, code)` with no invocations.
abbrev pub complete_now : ℕ → Text → Option String → Output
complete_now k message code =
    completed (record {
      send = k;
      message = message;
      success = false;
      error_code = code;
      invocations = none;
    })

-- The three ends of `sendMessage` with no answer: a 401 that no refresh cures, another failed
-- response, and an exception other than `AbortError`.
unfoldable pub auth_expired : ℕ → Stream → Stream
auth_expired k s = record s {
  completion = none;
  state = idle_state (some (record { code = "auth_expired"; message = "Sitzung abgelaufen" }));
  log = s.log ++ complete_now k [] (some "auth_expired") ∷ [];
}

unfoldable pub response_failed : ℕ → Stream → Stream
response_failed k s = record s {
  completion = none;
  state = idle_state none;
  log = s.log ++ complete_now k [] none ∷ [];
}

unfoldable pub network_failed : ℕ → Stream → Stream
network_failed k s = record s {
  completion = none;
  state = idle_state none;
  log = s.log ++ toast "Netzwerkfehler beim Chat" ∷ complete_now k s.full_text none ∷ [];
}
