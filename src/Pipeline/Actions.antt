-- ===== src/Pipeline/Actions.antt =====
-- The actions of the store as data, so that a history of the store is a list of actions.

pub mod Frame
pub mod Refine
pub mod Invariant
pub mod History
use open_pm.Common.{ℕ, String, Option, List, [], ◌∷◌}
use open_pm.Pipeline.Types.{
  DocumentStatus, ConnectionState, ChangeSessionInfo, ActivityEntry, LastExtraction, ExtractedItem,
  LastStateChange, PipelineEvent, DocumentRow, PipelineState,
}
use open_pm.Pipeline.Store.{
  set_pipeline_status, push_pipeline_event, push_activity, clear_pipeline, record_doc_name,
  record_extraction, set_active_session, set_session_closed, set_connection_state, add_live_item,
  set_last_state_change, collapse_doc,
}
use open_pm.Pipeline.Hydrate.{hydrate}

pub data Action : Type 0 where
  pipeline_status : String → DocumentStatus → Option String → Action
  pipeline_event : (now : String) → String → PipelineEvent → Option String → Action
  activity : String → ActivityEntry → Action
  clear : String → Action
  doc_name : String → String → Action
  extraction : String → LastExtraction → Action
  active_session : String → Option ChangeSessionInfo → Action
  session_closed : String → ChangeSessionInfo → Action
  connection : String → ConnectionState → Action
  live_item : (now : ℕ) → ExtractedItem → Action
  state_change : String → LastStateChange → Action
  collapse : String → Action
  hydration : String → List DocumentRow → Action

unfoldable pub apply : Action → PipelineState → PipelineState
apply (pipeline_status d status p) s = set_pipeline_status d status p s
apply (pipeline_event now d e p) s = push_pipeline_event now d e p s
apply (activity p entry) s = push_activity p entry s
apply (clear d) s = clear_pipeline d s
apply (doc_name d name) s = record_doc_name d name s
apply (extraction p payload) s = record_extraction p payload s
apply (active_session p session) s = set_active_session p session s
apply (session_closed p session) s = set_session_closed p session s
apply (connection p c) s = set_connection_state p c s
apply (live_item now item) s = add_live_item now item s
apply (state_change p payload) s = set_last_state_change p payload s
apply (collapse d) s = collapse_doc d s
apply (hydration p rows) s = hydrate p rows s

-- A history of the store, oldest action first.
unfoldable pub run : List Action → PipelineState → PipelineState
run [] s = s
run (a ∷ actions) s = run actions (apply a s)
