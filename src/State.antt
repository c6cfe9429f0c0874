-- ===== src/State.antt =====
-- The data of frontend/src/types/state.ts. A field that is `null` or absent is `none`.
pub mod Deadlines
pub mod TaskUpdate
pub mod Timeline
mod Tests
use open_pm.Common.{ℕ, Text, String, Option, List, Fields}
use open_pm.Conflicts.{Conflict}

pub data ConfidenceLevel : Type 0 where
  high medium low : ConfidenceLevel

pub data TaskStatus : Type 0 where
  open_task done blocked : TaskStatus

pub record Task : Type 0 where
  pub id : String
  pub title : Text
  pub status : TaskStatus
  pub deadline : Option Text
  pub assignee : Option Text
  pub source_document_id : Option String
  pub source_document_ids : Option (List String)
  pub confidence : Option ConfidenceLevel

pub record Contact : Type 0 where
  pub id : Option String
  pub name : Text
  pub role : Text
  pub email : Option Text
  pub phone : Option Text
  pub source_document_ids : Option (List String)
  pub confidence : Option ConfidenceLevel

pub record Blocker : Type 0 where
  pub id : Option String
  pub title : Option Text
  pub description : Option Text
  pub severity : Option ConfidenceLevel
  pub days_since : Option ℕ
  pub source_document_ids : Option (List String)
  pub confidence : Option ConfidenceLevel

pub record Decision : Type 0 where
  pub id : Option String
  pub title : Option Text
  pub date : Text
  pub description : Text
  pub source_document_ids : Option (List String)
  pub confidence : Option ConfidenceLevel

-- The code allows for a deadline without its date.
pub record Deadline : Type 0 where
  pub id : Option String
  pub title : Text
  pub date : Option Text
  pub description : Option Text
  pub source_document_ids : Option (List String)
  pub confidence : Option ConfidenceLevel

pub data ItemStatus : Type 0 where
  open_item done blocked info : ItemStatus

-- `fields` are the properties of the index signature.
pub record DynamicStateItem : Type 0 where
  pub id : String
  pub title : Option Text
  pub label : Option Text
  pub summary : Option Text
  pub status : Option ItemStatus
  pub date : Option Text
  pub source_document_ids : Option (List String)
  pub confidence : Option ConfidenceLevel
  pub fields : Fields

pub record DynamicSection : Type 0 where
  pub id : String
  pub title : Text
  pub kind : String
  pub items : List DynamicStateItem
  pub source_document_ids : Option (List String)

pub record StateCore : Type 0 where
  pub contacts : Option (List Contact)
  pub open_tasks : Option (List Task)
  pub deadlines : Option (List Deadline)
  pub decisions : Option (List Decision)
  pub blockers : Option (List Blocker)

pub record StateData : Type 0 where
  pub core : Option StateCore
  pub dynamic_sections : Option (List DynamicSection)
  pub custom : Option Fields
  pub conflicts : Option (List Conflict)

pub record ProjectState : Type 0 where
  pub id : String
  pub project_id : String
  pub version : ℕ
  pub state : StateData
  pub triggered_by_document_id : Option String
  pub created_at : Text

pub record StateChangelog : Type 0 where
  pub id : String
  pub project_id : String
  pub from_version : Option ℕ
  pub to_version : ℕ
  pub delta : Fields
  pub document_id : Option String
  pub triggered_by : Text
  pub git_commit_hash : Option String
  pub created_at : Text
