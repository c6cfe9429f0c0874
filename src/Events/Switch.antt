-- ===== src/Events/Switch.antt =====
-- The `switch` of `handleEvent` in frontend/src/hooks/useProjectSSE.ts, and its effect on the store.
pub mod Status
use open_pm.Common.{
  String, Option, none, some, List, [], ◌∷◌, ◌++◌, Bool, str_eq, Dict, lookup, if◌then◌else◌,
  ◌otherwise◌, ◌or_else◌,
}
use open_pm.Pipeline.Types.{PipelineState}
use open_pm.Pipeline.Actions.{Action, clear, doc_name, apply}
use open_pm.Events.Types.{
  EventData, documents, state, Command, store, invalidate, toast_error, toast_warning, notify, Env,
}
use open_pm.Events.Handle.{on_queued, on_started, on_progress, on_complete}
use open_pm.Events.Dispatch.{
  on_failed, on_session_opened, on_extracted_item, on_session_closed, on_state_changed,
  on_budget_warning,
}

pub data Kind : Type 0 where
  connected heartbeat document_queued document_started document_progress document_complete
        document_failed document_deleted document_archived change_session_opened extracted_item
        change_session_closed state_changed budget_warning unknown :
      Kind

-- The labels of the cases.
abbrev pub kinds : Dict Kind
kinds =
    ("connected", connected)
    ∷ ("heartbeat", heartbeat)
    ∷ ("document_queued", document_queued)
    ∷ ("document_started", document_started)
    ∷ ("document_progress", document_progress)
    ∷ ("document_complete", document_complete)
    ∷ ("document_failed", document_failed)
    ∷ ("document_deleted", document_deleted)
    ∷ ("document_archived", document_archived)
    ∷ ("change_session_opened", change_session_opened)
    ∷ ("extracted_item", extracted_item)
    ∷ ("change_session_closed", change_session_closed)
    ∷ ("state_changed", state_changed)
    ∷ ("budget_warning", budget_warning)
    ∷ []

unfoldable pub kind_of : Option String → Kind
kind_of none = unknown
kind_of (some name) = lookup name kinds otherwise unknown

-- `if (!id) return;` before the rest of a case.
abbrev pub when_id : Option String → (String → List Command) → List Command
when_id none k = []
when_id (some id) k = if str_eq id "" then [] else k id

-- `if (documentId && filename) recordDocName(documentId, filename)`.
abbrev pub name_document : Option String → Option String → List Command
name_document none filename = []
name_document (some d) none = []
name_document (some d) (some name) =
    if str_eq d "" then [] else if str_eq name "" then [] else store (doc_name d name) ∷ []

module _ (env : Env) (project : String) where
  unfoldable pub on_kind : Kind → EventData → List Command
  on_kind document_queued e = when_id e.document_id (λ d. on_queued env project d e)
  on_kind document_started e = when_id e.document_id (λ d. on_started env project d e)
  on_kind document_progress e = when_id e.document_id (λ d. on_progress env project d e)
  on_kind document_complete e = when_id e.document_id (λ d. on_complete env project d e)
  on_kind document_failed e = when_id e.document_id (λ d. on_failed env project d e)
  on_kind document_deleted e =
      when_id e.document_id (λ d. store (clear d) ∷ invalidate documents ∷ [])
  on_kind document_archived e =
      when_id e.document_id (λ d. store (clear d) ∷ invalidate documents ∷ invalidate state ∷ [])
  on_kind change_session_opened e =
      when_id (e.session_id or_else e.change_session_id) (λ id. on_session_opened env project id e)
  on_kind extracted_item e = when_id e.document_id (λ d. on_extracted_item env project d e)
  on_kind change_session_closed e = when_id e.session_id (λ id. on_session_closed env project id e)
  on_kind state_changed e = on_state_changed env project e
  on_kind budget_warning e = on_budget_warning env project e
  on_kind _ e = []

  unfoldable pub handle_event : EventData → List Command
  handle_event e = name_document e.document_id e.filename ++ on_kind (kind_of e.event) e

-- What a list of commands does to the store; the other commands leave it alone.
unfoldable pub deliver : List Command → PipelineState → PipelineState
deliver [] s = s
deliver (store a ∷ cs) s = deliver cs (apply a s)
deliver (_ ∷ cs) s = deliver cs s

-- The events of a stream, each with what the hook reads beside it.
unfoldable pub handle_events : String → List (Env × EventData) → PipelineState → PipelineState
handle_events project [] s = s
handle_events project ((env, e) ∷ later) s =
    handle_events project later (deliver (handle_event env project e) s)
