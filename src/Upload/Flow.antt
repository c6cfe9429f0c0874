-- ===== src/Upload/Flow.antt =====
-- `startUploadWithFlow` of frontend/src/lib/uploadFlow.ts. The environment gives how the two
-- attempts end and what the user answers; the callbacks of the caller are assumed not to throw.
pub mod Once
use open_pm.Common.{
  ℕ, ◌*◌, String, Option, none, some, List, [], ◌∷◌, ◌++◌, Bool, true, false, ltb, str_eq,
  if◌then◌else◌, ◌otherwise◌, Json, null, str, arr, obj, Items, nil, cons, get_field, ◌&◌,
}
use open_pm.Upload.Response.{
  UploadError, duplicate, unsupported, legacy, syntax, Upload, resolved, rejected, non_null,
  is_text,
}

pub data Failure : Type 0 where
  too_large : Failure
  upload_error : UploadError → Failure

pub data Effect : Type 0 where
  -- An upload, with or without `allow_duplicate=true`.
  upload : Bool → Effect
  invalidate_documents : Effect
  on_success : Effect
  on_error : Failure → Effect
  confirm : String → Effect
  toast : String → Effect
  -- A toast with a description, and with the action "Als Text einfügen?" if the caller has one.
  toast_with : (text description : String) → (has_action : Bool) → Effect

pub record Options : Type 0 where
  pub file_name : String
  pub file_size : ℕ
  pub has_text_paste : Bool

-- How the attempts end, what the user answers to the question, and how JavaScript prints a value in
-- a template and joins an array.
pub record World : Type 0 where
  pub first : Upload
  pub confirmed : Bool
  pub second : Upload
  pub show : Json → String
  pub join : Items → String

abbrev pub max_size : ℕ
max_size = 50 * 1024 * 1024

abbrev pub succeed : List Effect
succeed = invalidate_documents ∷ on_success ∷ []

unfoldable pub after_second : Options → Upload → List Effect
after_second o (resolved j) = succeed
after_second o (rejected e) =
    toast (o.file_name & ": Upload fehlgeschlagen") ∷ on_error (upload_error e) ∷ []

abbrev pub allowed_text : (Items → String) → Items → String
allowed_text join nil = "PDF · DOCX · XLSX · CSV · TXT · MD"
allowed_text join (cons item items) = join (cons item items)

abbrev pub hint_text : (Json → String) → Option Json → String
hint_text show none = "Format nicht unterstützt"
hint_text show (some hint) = show hint

-- The text for an error of the legacy shape, by its `detail`.
abbrev pub code_text : Option Json → String
code_text code =
    if is_text "file_too_large" code
    then "Datei zu groß"
    else if is_text "unsupported_media_type" code
    then "Format nicht unterstützt"
    else if is_text "no_active_llm_provider" code
    then "Kein aktiver LLM-Provider"
    else "Upload fehlgeschlagen"

abbrev pub legacy_text : Json → String
legacy_text (str text) = text
legacy_text detail = code_text (get_field "code" detail)

unfoldable pub after_error : Options → World → UploadError → List Effect
after_error o w (duplicate id name detail) =
    confirm ("Diese Datei existiert schon als „" & w.show name & "“. Trotzdem hochladen?")
    ∷ (if w.confirmed
        then upload true ∷ after_second o w.second
        else on_error (upload_error (duplicate id name detail)) ∷ [])
after_error o w (unsupported allowed hint detail) =
    toast_with (o.file_name & ": " & hint_text w.show (non_null hint))
      ("Erlaubt: " & allowed_text w.join allowed) o.has_text_paste
    ∷ on_error (upload_error (unsupported allowed hint detail))
    ∷ []
after_error o w (legacy status detail) =
    toast (o.file_name & ": " & legacy_text detail)
    ∷ on_error (upload_error (legacy status detail))
    ∷ []
after_error o w syntax =
    toast (o.file_name & ": Upload fehlgeschlagen") ∷ on_error (upload_error syntax) ∷ []

abbrev pub after_first : Options → World → Upload → List Effect
after_first o w (resolved j) = succeed
after_first o w (rejected e) = after_error o w e

unfoldable pub start_upload_with_flow : Options → World → List Effect
start_upload_with_flow o w =
    if ltb max_size o.file_size
    then toast (o.file_name & ": zu groß (max. 50 MB)") ∷ on_error too_large ∷ []
    else upload false ∷ after_first o w w.first
