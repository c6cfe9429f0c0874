-- ===== src/Chat/Session.antt =====
-- The rest of the hook of frontend/src/hooks/useChatStream.ts: what it does with the events of an
-- answer, the calls that end or change a session, and its runs as lists of steps.
pub mod Conserve
pub mod Drain
pub mod Superseded
use open_pm.Common.{
  is_empty, Text, ℕ, String, Option, none, some, List, [], ◌∷◌, ◌++◌, Bool, true, false, not,
  str_eq, if◌then◌else◌, ◌otherwise◌, length, map, Json, empty_object,
}
use open_pm.Chat.Types.{
  ToolStatus, running, done, ActiveToolCall, MutationCardData, ChatStreamError, ChatStreamState,
}
use open_pm.Chat.Stream.{
  Completion, Output, completed, toast, Stream, ChatEvent, message_start, tool_call,
  tool_call_start, tool_call_end, mutation_card, content_delta, message_end, error, other,
  idle_state, flush_completion_if_ready, pump, run_microtask, begin_send, complete_now,
  auth_expired, response_failed, network_failed,
}

-- `if (data.session_id) setCurrentSessionId(data.session_id)`.
abbrev pub adopt_session : Option String → Option String → Option String
adopt_session none current = current
adopt_session (some id) current = if str_eq id "" then current else some id

-- `message || fallback`.
abbrev pub or_text : Option String → String → String
or_text none fallback = fallback
or_text (some t) fallback = if str_eq t "" then fallback else t

-- `tc.call_id === data.call_id ? { ...tc, result_summary, status: "done" } : tc`.
unfoldable pub finish_call : String → Option String → ActiveToolCall → ActiveToolCall
finish_call id summary tc =
    if str_eq tc.call_id id then record tc { result_summary = summary; status = done } else tc

unfoldable pub start_call : String → String → Option Json → Option ℕ → Stream → ActiveToolCall
start_call id name args offset s = record {
  call_id = id;
  tool_name = name;
  args = args otherwise empty_object;
  result_summary = none;
  status = running;
  text_offset = some (offset otherwise length s.full_text);
}

-- What the reader of call `k` does with an event.
unfoldable pub handle_event : ℕ → ChatEvent → Stream → Stream
handle_event k (message_start session) s =
    let st = s.state in
    record s {
      state = record st { streaming = true; sending = false };
      current_session_id = adopt_session session s.current_session_id;
    }
handle_event k (tool_call tools) s =
    let st = s.state in record s { state = record st { active_tools = tools otherwise [] } }
handle_event k (tool_call_start id name args offset) s =
    let calls = s.tool_calls ++ start_call id name args offset s ∷ [] in
    record s { tool_calls = calls; active_tool_calls = calls }
handle_event k (tool_call_end id summary) s =
    let calls = map (finish_call id summary) s.tool_calls in
    record s { tool_calls = calls; active_tool_calls = calls }
handle_event k (mutation_card token description expires now) s = record s {
  mutation_cards =
      s.mutation_cards
      ++ record {
        undo_token = token;
        description = description;
        expires_in = expires otherwise 30;
        created_at = now;
      }
        ∷ [];
}
handle_event k (content_delta delta) s =
    let st = s.state in
    record s {
      full_text = s.full_text ++ (delta otherwise []);
      queued_text = s.queued_text ++ (delta otherwise []);
      state = record st { streaming = true; sending = false };
    }
handle_event k message_end s =
    let st = s.state in
    flush_completion_if_ready
      (record s { stream_closed = true; state = record st { sending = false; active_tools = [] } })
handle_event k (error message code) s =
    let msg = or_text message "Chat-Antwort fehlgeschlagen" in
    let code' = code otherwise "stream_failed" in
    let shown = if not (str_eq code' "provider_config_corrupt") then toast msg ∷ [] else [] in
    record s {
      queued_text = [];
      stream_closed = false;
      completion = none;
      state = idle_state (some (record { code = code'; message = msg }));
      log = s.log ++ (shown ++ complete_now k s.full_text none ∷ []);
    }
handle_event k other s = s

-- The stream is closed, at its end mark and at the end of the body.
unfoldable pub close_stream : Stream → Stream
close_stream s = flush_completion_if_ready (record s { stream_closed = true })

-- `completion?.(fullText, fullText.length > 0, undefined, invocations)`.
abbrev pub complete_partial : Option ℕ → Stream → List Output
complete_partial none s = []
complete_partial (some k) s =
    completed (record {
      send = k;
      message = s.full_text;
      success = not (is_empty s.full_text);
      error_code = none;
      invocations = some s.tool_calls;
    })
    ∷ []

unfoldable pub abort : Stream → Stream
abort s = record s {
  queued_text = [];
  stream_closed = false;
  completion = none;
  active_tool_calls = [];
  mutation_cards = [];
  state = idle_state none;
  log = s.log ++ complete_partial s.completion s;
}

unfoldable pub start_new_session : Stream → Stream
start_new_session s = record s {
  queued_text = [];
  stream_closed = false;
  full_text = [];
  completion = none;
  tool_calls = [];
  current_session_id = none;
  active_tool_calls = [];
  mutation_cards = [];
  state = idle_state none;
}

unfoldable pub set_session_id : Option String → Stream → Stream
set_session_id id s = record s {
  current_session_id = id;
  tool_calls = [];
  active_tool_calls = [];
  mutation_cards = [];
  state = idle_state none;
}

unfoldable pub clear_error : Stream → Stream
clear_error s = let st = s.state in record s { state = record st { last_error = none } }

-- What can happen to the hook. A number is that of a call of `sendMessage`.
pub data Step : Type 0 where
  send : ℕ → Step
  event : ℕ → ChatEvent → Step
  close : ℕ → Step
  expired : ℕ → Step
  refused : ℕ → Step
  lost : ℕ → Step
  frame : Step
  microtask : Step
  stop : Step
  new_session : Step
  select_session : String → Step
  dismiss_error : Step

-- `select_session` is `handleSessionSelect` of the cockpit, which aborts first.
unfoldable pub step : Step → Stream → Stream
step (send k) s = begin_send k s
step (event k e) s = handle_event k e s
step (close k) s = close_stream s
step (expired k) s = auth_expired k s
step (refused k) s = response_failed k s
step (lost k) s = network_failed k s
step frame s = pump s
step microtask s = run_microtask s.microtasks s
step stop s = abort s
step new_session s = start_new_session s
step (select_session id) s = set_session_id (some id) (abort s)
step dismiss_error s = clear_error s

unfoldable pub run : List Step → Stream → Stream
run [] s = s
run (e ∷ es) s = run es (step e s)
