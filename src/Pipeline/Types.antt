-- ===== src/Pipeline/Types.antt =====
-- The data of frontend/src/store/pipelineStore.ts and frontend/src/types/document.ts. A field that
-- is `null` or absent is `none`. A string that an unchecked cast narrows stays a string.
use open_pm.Common.{ℕ, String, Option, List, Json, Dict}

pub data DocumentStatus : Type 0 where
  pending processing done failed completed_partial : DocumentStatus

pub record PipelineLogEntry : Type 0 where
  pub timestamp : String
  pub step : Option ℕ
  pub total : ℕ
  pub label : String
  pub status : String
  pub detail : Option String
  pub meta : Json

pub data ConnectionState : Type 0 where
  connecting open_stream disconnected : ConnectionState

pub record ExtractedSample : Type 0 where
  pub first_task : Option String
  pub first_deadline : Option String
  pub first_contact : Option String

pub record ExtractedSummary : Type 0 where
  pub contacts_added : ℕ
  pub tasks_added : ℕ
  pub deadlines_added : ℕ
  pub decisions_added : ℕ
  pub blockers_added : ℕ
  pub dynamic_items_added : Option ℕ
  pub sample : Option ExtractedSample

pub record ChangeSessionInfo : Type 0 where
  pub id : String
  pub started_at : String
  pub last_activity_at : String
  pub closed_at : Option String
  pub summary : Option Json
  pub triggered_by : Option String

pub data ActivityKind : Type 0 where
  document session : ActivityKind

pub record ActivityEntry : Type 0 where
  pub id : String
  pub ts : String
  pub document_id : Option String
  pub document_name : Option String
  pub label : String
  pub detail : Option String
  pub status : String
  pub kind : ActivityKind
  pub change_session_id : Option String

pub record LastExtraction : Type 0 where
  pub document_id : String
  pub filename : Option String
  pub summary : ExtractedSummary
  pub state_version : Option ℕ
  pub at : String

pub record ExtractedItem : Type 0 where
  pub document_id : String
  pub item_type : String
  pub item_id : String
  pub title : String
  pub action : String
  pub confidence : String
  pub emitted_at : ℕ

pub record LastStateChange : Type 0 where
  pub version : ℕ
  pub sections : List String
  pub ts : ℕ

-- An entry of `details`.
pub record PipelineDetail : Type 0 where
  pub step : Option ℕ
  pub total : Option ℕ
  pub label : Option String
  pub status : Option String
  pub detail : Option String
  pub timestamp : Option String
  pub logs : List PipelineLogEntry

-- The `event` argument of `pushPipelineEvent`.
pub record PipelineEvent : Type 0 where
  pub step : Option ℕ
  pub total : Option ℕ
  pub label : Option String
  pub status : Option String
  pub detail : Option String
  pub timestamp : Option String
  pub meta : Option Json

-- A row of the `docs` argument of `hydrateProjectFromDocuments`.
pub record DocumentRow : Type 0 where
  pub id : String
  pub original_filename : String
  pub processing_status : DocumentStatus
  pub pipeline_step : Option ℕ
  pub pipeline_step_label : Option String
  pub pipeline_updated_at : Option String
  pub pipeline_logs : Option (List PipelineLogEntry)

pub record PipelineState : Type 0 where
  pub pipelines : Dict DocumentStatus
  pub details : Dict PipelineDetail
  pub doc_project : Dict String
  pub doc_names : Dict String
  pub per_project_activity : Dict (List ActivityEntry)
  pub per_project_last_extraction : Dict (Option LastExtraction)
  pub per_project_active_session : Dict (Option ChangeSessionInfo)
  pub per_project_last_closed : Dict (Option ChangeSessionInfo)
  pub connection_state : Dict ConnectionState
  pub live_items_by_doc : Dict (List ExtractedItem)
  pub last_item_at_by_doc : Dict ℕ
  pub expanded_docs : List String
  pub per_project_last_state_change : Dict (Option LastStateChange)
