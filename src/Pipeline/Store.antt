-- ===== src/Pipeline/Store.antt =====
-- The store of frontend/src/store/pipelineStore.ts: one function for each action, which returns
-- the new state. The clock readings of an action are arguments.
use open_pm.Common.{
  ℕ, String, Option, none, some, List, [], ◌∷◌, ◌++◌, Bool, false, not, ◌||◌, Dict, lookup, insert,
  delete, contains, add, remove, str_eq, if◌then◌else◌, ◌otherwise◌, ◌or_else◌, take, take_last,
  empty_object,
}
use open_pm.Pipeline.Types.{
  DocumentStatus, PipelineLogEntry, ConnectionState, ChangeSessionInfo, ActivityEntry,
  LastExtraction, ExtractedItem, LastStateChange, PipelineDetail, PipelineEvent, PipelineState,
}

abbrev pub activity_limit : ℕ
activity_limit = 80

abbrev pub live_items_per_doc_limit : ℕ
live_items_per_doc_limit = 40

-- The test `if (x)` on a string that may be null or absent.
abbrev pub truthy : Option String → Bool
truthy none = false
truthy (some s) = not (str_eq s "")

unfoldable pub initial : PipelineState
initial = record {
  pipelines = [];
  details = [];
  doc_project = [];
  doc_names = [];
  per_project_activity = [];
  per_project_last_extraction = [];
  per_project_active_session = [];
  per_project_last_closed = [];
  connection_state = [];
  live_items_by_doc = [];
  last_item_at_by_doc = [];
  expanded_docs = [];
  per_project_last_state_change = [];
}

-- `projectId ? { ...docProject, [documentId]: projectId } : docProject`.
abbrev pub link_project : String → Option String → Dict String → Dict String
link_project d none m = m
link_project d (some p) m = if str_eq p "" then m else insert d p m

unfoldable pub set_pipeline_status :
    String → DocumentStatus → Option String → PipelineState → PipelineState
set_pipeline_status d status project s = record s {
  pipelines = insert d status s.pipelines;
  doc_project = link_project d project s.doc_project;
}

abbrev pub no_detail : PipelineDetail
no_detail = record {
  step = none;
  total = none;
  label = none;
  status = none;
  detail = none;
  timestamp = none;
  logs = [];
}

unfoldable pub log_of_event : String → PipelineEvent → PipelineDetail → PipelineLogEntry
log_of_event now e current = record {
  timestamp = e.timestamp otherwise now;
  step = e.step;
  total = e.total otherwise current.total otherwise 0;
  label = e.label otherwise "update";
  status = e.status otherwise "info";
  detail = e.detail;
  meta = e.meta otherwise empty_object;
}

-- The new entry of `details`.
unfoldable pub merge_event : String → PipelineEvent → PipelineDetail → PipelineDetail
merge_event now e current = record {
  step = e.step or_else current.step;
  total = e.total or_else current.total;
  label = e.label or_else current.label;
  status = e.status or_else current.status;
  detail = e.detail or_else current.detail;
  timestamp = e.timestamp or_else current.timestamp;
  logs =
      if truthy e.label || truthy e.detail
      then current.logs ++ log_of_event now e current ∷ []
      else current.logs;
}

unfoldable pub push_pipeline_event :
    String → String → PipelineEvent → Option String → PipelineState → PipelineState
push_pipeline_event now d e project s = record s {
  details = insert d (merge_event now e (lookup d s.details otherwise no_detail)) s.details;
  doc_project = link_project d project s.doc_project;
}

abbrev pub activity_of : String → PipelineState → List ActivityEntry
activity_of p s = lookup p s.per_project_activity otherwise []

unfoldable pub push_activity : String → ActivityEntry → PipelineState → PipelineState
push_activity p entry s =
    let next = take activity_limit (entry ∷ activity_of p s) in
    record s { per_project_activity = insert p next s.per_project_activity }

unfoldable pub clear_pipeline : String → PipelineState → PipelineState
clear_pipeline d s = record s {
  pipelines = delete d s.pipelines;
  details = delete d s.details;
  doc_project = delete d s.doc_project;
  doc_names = delete d s.doc_names;
  live_items_by_doc = delete d s.live_items_by_doc;
  last_item_at_by_doc = delete d s.last_item_at_by_doc;
  expanded_docs = remove d s.expanded_docs;
}

unfoldable pub record_doc_name : String → String → PipelineState → PipelineState
record_doc_name d name s = record s { doc_names = insert d name s.doc_names }

unfoldable pub record_extraction : String → LastExtraction → PipelineState → PipelineState
record_extraction p payload s = record s {
  per_project_last_extraction = insert p (some payload) s.per_project_last_extraction;
}

unfoldable pub set_active_session :
    String → Option ChangeSessionInfo → PipelineState → PipelineState
set_active_session p session s = record s {
  per_project_active_session = insert p session s.per_project_active_session;
}

unfoldable pub set_session_closed : String → ChangeSessionInfo → PipelineState → PipelineState
set_session_closed p session s = record s {
  per_project_active_session = insert p none s.per_project_active_session;
  per_project_last_closed = insert p (some session) s.per_project_last_closed;
}

unfoldable pub set_connection_state : String → ConnectionState → PipelineState → PipelineState
set_connection_state p c s = record s { connection_state = insert p c s.connection_state }

abbrev pub live_items : String → PipelineState → List ExtractedItem
live_items d s = lookup d s.live_items_by_doc otherwise []

unfoldable pub add_live_item : ℕ → ExtractedItem → PipelineState → PipelineState
add_live_item now item s =
    let d = item.document_id in
    let next = take_last live_items_per_doc_limit (live_items d s ++ item ∷ []) in
    record s {
      live_items_by_doc = insert d next s.live_items_by_doc;
      last_item_at_by_doc = insert d now s.last_item_at_by_doc;
      expanded_docs = add d s.expanded_docs;
    }

unfoldable pub set_last_state_change : String → LastStateChange → PipelineState → PipelineState
set_last_state_change p payload s = record s {
  per_project_last_state_change = insert p (some payload) s.per_project_last_state_change;
}

unfoldable pub collapse_doc : String → PipelineState → PipelineState
collapse_doc d s =
    if not (contains d s.expanded_docs)
    then s
    else record s { expanded_docs = remove d s.expanded_docs }
