-- ===== src/Chat/Types.antt =====
-- The data of frontend/src/types/chat.ts. The texts that are cut and counted are lists of UTF-16
-- code units; a text that is only compared or passed on is a `String`.
use open_pm.Common.{ℕ, String, Option, List, Json, Bool, Text}

pub data ToolStatus : Type 0 where
  running done : ToolStatus

pub record ActiveToolCall : Type 0 where
  pub call_id : String
  pub tool_name : String
  pub args : Json
  pub result_summary : Option String
  pub status : ToolStatus
  pub text_offset : Option ℕ

pub record MutationCardData : Type 0 where
  pub undo_token : String
  pub description : String
  pub expires_in : ℕ
  pub created_at : ℕ

pub record ChatStreamError : Type 0 where
  pub code : String
  pub message : String

pub record ChatStreamState : Type 0 where
  pub streaming : Bool
  pub sending : Bool
  pub streaming_text : Text
  pub active_tools : List String
  pub last_error : Option ChatStreamError
