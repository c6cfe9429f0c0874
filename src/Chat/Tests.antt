-- ===== src/Chat/Tests.antt =====
-- Runs of the chat: the blocks of a turn, and the steps of its stream.
use open_pm.Common.{
  Text, ℕ, Option, none, some, List, [], ◌∷◌, ◌++◌, ◌≡◌, refl, true, false, arith, replicate, All,
  Perm, empty_object,
}
use open_pm.Chat.Types.{ActiveToolCall, done}
use open_pm.Chat.Blocks.{text, tool, build_chat_blocks, weave, sort_by_offset, place}
use open_pm.Chat.Blocks.Laws.{
  prose, calls, IsFilled, Ascending, Placed, prose-build_chat_blocks, calls-build_chat_blocks,
}
use open_pm.Chat.Stream.{
  Stream, completed, content_delta, message_start, message_end, initial, idle_state,
}
use open_pm.Common.{units}
use open_pm.Lines.{strip_prefix, trim, trim_start}
use open_pm.Chat.Slash.{parse_slash_command}
use open_pm.Chat.Input.{
  Setting, Key, arrow_up, enter, KeyPress, cleared, on_send, typed, pressed, on_event, on_events,
  on_input, on_key_down, on_key, on_text_key, on_enter, submit, submit_parsed,
}
use open_pm.Chat.Input.Laws.{IsOffering, CallsOnce, on_events-CallsOnce}
use open_pm.Chat.Session.{Step, send, event, frame, microtask, close, run}
use open_pm.Chat.Session.Conserve.{Conserves, last_call, received, run-Conserves}
use open_pm.Chat.Session.Drain.{run-finishes}
use open_pm.Chat.Session.Superseded.{answers, run-superseded}

abbrev call : Option ℕ → ActiveToolCall
call offset = record {
  call_id = "c1";
  tool_name = "search";
  args = empty_object;
  result_summary = none;
  status = done;
  text_offset = offset;
}

abbrev answer : Text
answer = 72 ∷ 97 ∷ 108 ∷ 108 ∷ 111 ∷ []

prose-build_chat_blocks_example :
    (prose (build_chat_blocks answer (call (some 3) ∷ call none ∷ [])) ≡ answer)
    × All IsFilled (build_chat_blocks answer (call (some 3) ∷ call none ∷ []))
prose-build_chat_blocks_example = prose-build_chat_blocks answer (call (some 3) ∷ call none ∷ [])

calls-build_chat_blocks_example :
    let cs = call (some 9) ∷ call (some 2) ∷ [] in
    Perm (calls (build_chat_blocks answer cs)) cs
    × Ascending 0 (calls (build_chat_blocks answer cs))
    × Placed answer [] (build_chat_blocks answer cs)
calls-build_chat_blocks_example =
    calls-build_chat_blocks answer (call (some 9) ∷ call (some 2) ∷ [])

blocks_test :
    build_chat_blocks answer (call (some 2) ∷ call none ∷ [])
    ≡ tool (call none)
      ∷ text (72 ∷ 97 ∷ [])
      ∷ tool (call (some 2))
      ∷ text (108 ∷ 108 ∷ 111 ∷ [])
      ∷ []
unfolding build_chat_blocks weave sort_by_offset place
blocks_test = refl

abbrev steps : List Step
steps =
    send 1
    ∷ event 1 (message_start (some "s1"))
    ∷ event 1 (content_delta (some answer))
    ∷ frame
    ∷ event 1 (content_delta (some answer))
    ∷ event 1 message_end
    ∷ []

run-Conserves_example : Conserves (last_call steps none) (received steps []) (run steps initial)
run-Conserves_example = run-Conserves steps

-- The stream of message 1 is closed, with five code units still to be shown.
abbrev closing : Stream
closing = record {
  state = idle_state none;
  current_session_id = some "s1";
  active_tool_calls = [];
  mutation_cards = [];
  queued_text = answer;
  stream_closed = true;
  completion = some 1;
  full_text = answer;
  tool_calls = call none ∷ [];
  microtasks = [];
  log = [];
}

run-finishes_example :
    let t = run (replicate 2 frame ++ microtask ∷ []) closing in
    (t.log
      ≡ completed (record {
        send = 1;
        message = answer;
        success = true;
        error_code = none;
        invocations = some (call none ∷ []);
      })
        ∷ [])
    × (t.completion ≡ none)
    × (t.queued_text ≡ [])
    × (t.state.streaming ≡ false)
    × (t.state.streaming_text ≡ [])
run-finishes_example = run-finishes 1 1 closing refl refl refl (omega arith)

abbrev second : List Step
second = event 2 (content_delta (some answer)) ∷ close 2 ∷ frame ∷ frame ∷ microtask ∷ []

run-superseded_example : answers 1 (run (send 2 ∷ second) closing).log ≡ answers 1 closing.log
run-superseded_example =
    run-superseded 1 2 closing second (λ e. omega arith) tt
      ((λ e. omega arith), ((λ e. omega arith), (tt, (tt, (tt, tt)))))

abbrev same : Text → Text
same t = t

abbrev desktop : Setting
desktop = record { disabled = false; takes_commands = true; is_mobile = false }

abbrev press : Key → KeyPress
press key = record { key = key; shift = false; modified = true }

on_events-CallsOnce_example :
    let i =
      (on_events same desktop
        (typed (units "/ta") ∷ pressed (press arrow_up) ∷ [])
        cleared).input in
    IsOffering same desktop i × CallsOnce (on_event same desktop (pressed (press enter)) i)
on_events-CallsOnce_example =
    on_events-CallsOnce same desktop (typed (units "/ta") ∷ pressed (press arrow_up) ∷ [])
      (pressed (press enter))

-- Ctrl+Enter in a text submits once.
ctrl_enter :
    on_events same desktop (typed (units "Hallo ") ∷ pressed (press enter) ∷ []) cleared
    ≡ record { input = cleared; calls = on_send (units "Hallo") ∷ [] }
unfolding on_events on_event on_input on_key_down on_key on_text_key on_enter submit submit_parsed
    strip_prefix parse_slash_command trim trim_start
ctrl_enter = refl
