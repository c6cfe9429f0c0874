-- ===== src/Events/Types.antt =====
-- An event of the project's stream, with the fields that frontend/src/hooks/useProjectSSE.ts reads.
-- A field that is `null` or absent is `none`; a string that an unchecked cast narrows stays one.
use open_pm.Common.{ℕ, String, Option, List, Bool, Json}
use open_pm.Pipeline.Types.{ExtractedSummary}
use open_pm.Pipeline.Actions.{Action}

pub record EventData : Type 0 where
  pub event : Option String
  pub document_id : Option String
  pub filename : Option String
  pub change_session_id : Option String
  pub timestamp : Option String
  pub step : Option ℕ
  pub total : Option ℕ
  pub label : Option String
  pub detail : Option String
  pub status : Option String
  pub meta : Option Json
  pub extracted_summary : Option ExtractedSummary
  pub state_version : Option ℕ
  pub error : Option String
  pub session_id : Option String
  pub started_at : Option String
  pub closed_at : Option String
  pub summary : Option Json
  pub triggered_by : Option String
  pub item_type : Option String
  pub item_id : Option String
  pub title : Option String
  pub action : Option String
  pub confidence : Option String
  pub version : Option ℕ
  pub sections : Option (List String)
  pub spent_text : Option String
  pub budget_text : Option String

-- What a query key names below ["projects", projectId].
pub data Query : Type 0 where
  documents state change_session : Query

pub record Notification : Type 0 where
  pub title : String
  pub body : String
  pub tag : String
  pub require_interaction : Bool
  pub document : String

-- What an event makes the hook do, in order.
pub data Command : Type 0 where
  store : Action → Command
  invalidate : Query → Command
  toast_error : String → Command
  toast_warning : String → Command
  notify : Notification → Command

-- What the hook reads beside the event: the clock, whether the tab is hidden, how a number is
-- printed in a template, and `document_count` of a session's summary as it is printed there.
pub record Env : Type 0 where
  pub now_iso : String
  pub now_ms : ℕ
  pub hidden : Bool
  pub print : ℕ → String
  pub document_count : Json → Option String
