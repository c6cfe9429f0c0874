-- ===== src/Cockpit/View.antt =====
-- The state of the cockpit, frontend/src/components/cockpit/CockpitLayout.tsx: its React state, the
-- chat hook that it uses, and the storage of unsent messages, with the handlers that change them.
pub mod Landing
pub mod Expired
pub mod Bubble
mod Tests
use open_pm.Common.{
  ℕ, suc, zero, Text, String, Option, none, some, List, [], ◌∷◌, ◌++◌, Bool, true, false, not, ◌||◌,
  ◌&&◌, is_empty, is_some, if◌then◌else◌, length, drop, get_elem?, str_eq, Json, map,
}
use open_pm.Chat.Types.{ActiveToolCall}
use open_pm.Chat.Stream.{Stream, Completion, Output, completed, toast, begin_send}
use open_pm.Chat.Session.{Step, step, abort, start_new_session, set_session_id}
use open_pm.Auth.Pending.{Storage, buffer_pending_message, take_pending_messages}
use open_pm.Cockpit.Commands.Run.{Effect, shown, back_to_landing}

pub data Role : Type 0 where
  user assistant tool_role : Role

-- `tool_calls` is `{ invocations }` in the messages that the cockpit makes; `token_usage`, which it
-- never sets, is left out.
pub record ChatMessage : Type 0 where
  pub id : String
  pub project_id : String
  pub user_id : Option String
  pub role : Role
  pub content : Text
  pub tool_calls : Option (List ActiveToolCall)
  pub tool_results : Option Json
  pub state_version : Option ℕ
  pub model : Option String
  pub created_at : String
  pub is_local_command : Bool

pub data ViewMode : Type 0 where
  landing conversation : ViewMode

-- What a call of `sendMessage` was made with.
pub record Sent : Type 0 where
  pub content : Text
  pub session_id : Option String
  pub model : Option String

pub record Cockpit : Type 0 where
  pub stream : Stream
  pub selected_model : Option String
  pub optimistic_messages : List ChatMessage
  pub view_mode : ViewMode
  pub storage : Storage
  -- The calls of `sendMessage`, by their number.
  pub sent : List Sent
  -- The answers whose refetches are under way.
  pub refetches : ℕ

-- A fresh identifier, the readings of the clock, and the printing of a number.
pub record Stamp : Type 0 where
  pub id : String
  pub now : String
  pub key_time : ℕ
  pub ts : ℕ
  pub show : ℕ → String

abbrev pub has_calls : Option (List ActiveToolCall) → Bool
has_calls (some (c ∷ cs)) = true
has_calls _ = false

abbrev pub is_expired : Option String → Bool
is_expired none = false
is_expired (some code) = str_eq code "auth_expired"

module _ (project : String) where
  abbrev pub message_of :
      Stamp → Role → Text → Option (List ActiveToolCall) → Option String → Bool → ChatMessage
  message_of stamp role content calls model local = record {
    id = stamp.id;
    project_id = project;
    user_id = none;
    role = role;
    content = content;
    tool_calls = calls;
    tool_results = none;
    state_version = none;
    model = model;
    created_at = stamp.now;
    is_local_command = local;
  }

  -- The buffering of a message whose session has expired.
  unfoldable pub buffer_expired : Stamp → Completion → Sent → Storage → Storage
  buffer_expired stamp c m s =
      if not c.success && is_expired c.error_code
      then buffer_pending_message stamp.show stamp.key_time stamp.ts project m.session_id m.content
          s
      else s

  -- The answer, when there is one to show.
  unfoldable pub answer_message : Stamp → Completion → Sent → List ChatMessage
  answer_message stamp c m =
      if c.success && (not (is_empty c.message) || has_calls c.invocations)
      then (let calls = if has_calls c.invocations then c.invocations else none in
          message_of stamp assistant c.message calls m.model false ∷ [])
      else []

  -- The callback of a sent message, up to its refetches.
  unfoldable pub on_complete : Stamp → Completion → Option Sent → Cockpit → Cockpit
  on_complete stamp c none k = k
  on_complete stamp c (some m) k = record k {
    storage = buffer_expired stamp c m k.storage;
    optimistic_messages = k.optimistic_messages ++ answer_message stamp c m;
    refetches = suc k.refetches;
  }

  -- The callbacks that the hook has called.
  unfoldable pub on_outputs : Stamp → List Output → Cockpit → Cockpit
  on_outputs stamp [] k = k
  on_outputs stamp (toast t ∷ later) k = on_outputs stamp later k
  on_outputs stamp (completed c ∷ later) k =
      on_outputs stamp later (on_complete stamp c (get_elem? k.sent c.send) k)

  -- The hook goes to a new state, and the callbacks that it called on the way run.
  unfoldable pub with_stream : Stamp → Stream → Cockpit → Cockpit
  with_stream stamp s k =
      on_outputs stamp (drop (length k.stream.log) s.log) (record k { stream = s })

  unfoldable pub hook_step : Stamp → Step → Cockpit → Cockpit
  hook_step stamp e k = with_stream stamp (step e k.stream) k

  -- The refetches of an answer end: `finally { setOptimisticMessages([]) }`.
  unfoldable pub refetched : ℕ → Cockpit → Cockpit
  refetched zero k = k
  refetched (suc n) k = record k { refetches = n; optimistic_messages = [] }

  -- `handleSend`, with the session and the model that it was made with.
  unfoldable pub handle_send : Stamp → Option String → Option String → Text → Cockpit → Cockpit
  handle_send stamp session model content k =
      let bubble = message_of stamp user content none model false in
      record k {
        optimistic_messages = k.optimistic_messages ++ bubble ∷ [];
        view_mode = conversation;
        stream = begin_send (length k.sent) k.stream;
        sent = k.sent ++ record { content = content; session_id = session; model = model } ∷ [];
      }

  unfoldable pub handle_abort : Stamp → Cockpit → Cockpit
  handle_abort stamp k =
      let k' = with_stream stamp (abort k.stream) k in record k' { optimistic_messages = [] }

  unfoldable pub handle_session_select : Stamp → String → Cockpit → Cockpit
  handle_session_select stamp id k =
      let k' = handle_abort stamp k in
      record k' { stream = set_session_id (some id) k'.stream; view_mode = conversation }

  unfoldable pub handle_back_to_landing : Stamp → Cockpit → Cockpit
  handle_back_to_landing stamp k =
      let k' = handle_abort stamp k in
      record k' { stream = start_new_session k'.stream; view_mode = landing }

  unfoldable pub push_local_messages : Stamp → Text → Text → Cockpit → Cockpit
  push_local_messages stamp asked answer k = record k {
    optimistic_messages =
        k.optimistic_messages
        ++ message_of stamp user asked none none false
          ∷ message_of stamp assistant answer none none true
          ∷ [];
    view_mode = conversation;
  }

  -- The effects of a slash command on the cockpit.
  unfoldable pub on_effects : Stamp → List Effect → Cockpit → Cockpit
  on_effects stamp [] k = k
  on_effects stamp (shown asked answer ∷ es) k =
      on_effects stamp es (push_local_messages stamp asked answer k)
  on_effects stamp (back_to_landing ∷ es) k = on_effects stamp es (handle_back_to_landing stamp k)
  on_effects stamp (e ∷ es) k = on_effects stamp es k

  -- The Escape key, in the chat input or elsewhere.
  unfoldable pub on_escape : Stamp → Bool → ViewMode → Cockpit → Cockpit
  on_escape stamp true mode k = k
  on_escape stamp false conversation k = handle_back_to_landing stamp k
  on_escape stamp false landing k = k

  -- The messages that the cockpit sends again when it opens, and the storage without them.
  unfoldable pub messages_to_replay : Cockpit → List Text × Cockpit
  messages_to_replay k =
      let (taken, left) = take_pending_messages project k.storage in
      (map (λ t. t.content) taken, record k { storage = left })

abbrev pub has_messages : List ChatMessage → Bool
has_messages [] = false
has_messages (m ∷ ms) = true

-- `currentSessionId || streaming || sending || optimisticMessages.length > 0`.
abbrev pub is_busy : Cockpit → Bool
is_busy k =
    is_some k.stream.current_session_id
    || k.stream.state.streaming
    || k.stream.state.sending
    || has_messages k.optimistic_messages

-- The effect that shows the conversation.
unfoldable pub view_effect : Cockpit → Cockpit
view_effect k = if is_busy k then record k { view_mode = conversation } else k
