-- ===== src/Upload/Response.antt =====
-- The `load`, `error` and `abort` listeners of `uploadFile` in frontend/src/lib/upload.ts.
pub mod Typed
use open_pm.Common.{
  ℕ, String, Option, none, some, List, [], ◌∷◌, Bool, true, false, ◌&&◌, ◌==◌, leb, ltb, str_eq,
  if◌then◌else◌, ◌otherwise◌, ◌or_else◌, Json, null, str, arr, obj, Items, nil, get_field, ◌&◌,
}

-- How a request ends: with an answer, whose text is empty, or is or is not JSON; or without one.
pub record Answer : Type 0 where
  pub status : ℕ
  pub response_text : String
  pub parsed : Option Json

pub data Ending : Type 0 where
  load : Answer → Ending
  network_error aborted : Ending

pub data UploadError : Type 0 where
  duplicate : (existing_document_id existing_filename detail : Json) → UploadError
  unsupported : (allowed : Items) → (hint : Option Json) → (detail : Json) → UploadError
  legacy : (status : ℕ) → (detail : Json) → UploadError
  -- The error of `JSON.parse`.
  syntax : UploadError

pub data Upload : Type 0 where
  resolved : Option Json → Upload
  rejected : UploadError → Upload

-- `parsed.detail ?? parsed` for an object, and `parsed` otherwise.
abbrev pub non_null : Option Json → Option Json
non_null none = none
non_null (some null) = none
non_null (some j) = some j

abbrev pub detail_object : Json → Json
detail_object parsed = non_null (get_field "detail" parsed) otherwise parsed

-- `d.code === code`.
abbrev pub is_text : String → Option Json → Bool
is_text text (some (str s)) = str_eq s text
is_text text _ = false

-- `Array.isArray(d.allowed) ? d.allowed : []`.
abbrev pub items_of : Option Json → Items
items_of (some (arr items)) = items
items_of _ = nil

unfoldable pub classify : String → ℕ → Json → UploadError
classify file_name status detail =
    if status == 409 && is_text "duplicate" (get_field "code" detail)
    then duplicate (non_null (get_field "existing_document_id" detail) otherwise str "")
        (non_null (get_field "existing_filename" detail)
          otherwise non_null (get_field "filename" detail)
          otherwise str file_name)
        detail
    else if status == 415 && is_text "unsupported_media_type" (get_field "code" detail)
    then unsupported (items_of (get_field "allowed" detail)) (get_field "hint" detail) detail
    else legacy status detail

-- `xhr.responseText ? JSON.parse(xhr.responseText) : undefined`.
abbrev pub parse_success : Answer → Upload
parse_success a =
    if str_eq a.response_text ""
    then resolved none
    else elim a.parsed [ none ↦ rejected syntax | some j ↦ resolved (some j) ]

unfoldable pub upload_file : String → Ending → Upload
upload_file file_name (load a) =
    if leb 200 a.status && ltb a.status 300
    then parse_success a
    else rejected
        (classify file_name a.status (detail_object (a.parsed otherwise str a.response_text)))
upload_file file_name network_error = rejected (legacy 0 (str "network_error"))
upload_file file_name aborted = rejected (legacy 0 (str "aborted"))
