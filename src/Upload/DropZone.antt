-- ===== src/Upload/DropZone.antt =====
-- The list of uploads of the drop zone, frontend/src/components/upload/DropZone.tsx. `show` prints
-- a JSON value in a template, and `join` is `allowed.join(" · ")`.
pub mod Laws
use open_pm.Common.{
  ℕ, zero, suc, ◌*◌, String, Option, none, some, List, [], ◌∷◌, ◌++◌, Bool, true, false, not, ltb,
  str_eq, if◌then◌else◌, ◌otherwise◌, Json, null, Items, keep, map, ◌&◌,
}
use open_pm.Upload.Response.{UploadError, duplicate, unsupported, legacy, syntax}
use open_pm.Upload.Flow.{max_size, allowed_text, legacy_text}

pub record File : Type 0 where
  pub name : String
  pub size : ℕ

pub data ItemStatus : Type 0 where
  uploading done error cancelled : ItemStatus

-- The progress is a fraction: how much of how much is sent.
pub record UploadItem : Type 0 where
  pub id : String
  pub file : File
  pub progress : ℕ × ℕ
  pub status : ItemStatus
  pub error : Option String

pub data Effect : Type 0 where
  upload : String → File → (allow_duplicate : Bool) → Effect
  abort_upload : String → Effect
  invalidate_documents : Effect
  confirm : String → Effect
  toast : String → Effect
  toast_with : (text description : String) → Effect

pub record Zone : Type 0 where
  pub items : List UploadItem
  pub paste_modal_open : Bool
  -- What the component has done to the outside, oldest first.
  pub log : List Effect

abbrev pub is_item : String → UploadItem → Bool
is_item id it = str_eq it.id id

-- `prev.map((it) => it.id === id ? change(it) : it)`.
unfoldable pub change_item : String → (UploadItem → UploadItem) → List UploadItem → List UploadItem
change_item id change [] = []
change_item id change (it ∷ its) =
    let rest = change_item id change its in if is_item id it then change it ∷ rest else it ∷ rest

-- `prev.filter((it) => it.id !== id)`.
unfoldable pub without_item : String → List UploadItem → List UploadItem
without_item id its = keep (λ it. not (is_item id it)) its

-- `shortError(err.detail ?? err)`.
abbrev pub short_error : UploadError → String
short_error (legacy status detail) = legacy_text detail
short_error _ = "Upload fehlgeschlagen"

unfoldable pub start_upload : String → File → Bool → Zone → Zone
start_upload id file allow z =
    if ltb max_size file.size
    then record z { log = z.log ++ toast (file.name & ": zu groß (max. 50 MB)") ∷ [] }
    else record z {
      items =
          z.items
          ++ record { id = id; file = file; progress = (0, 1); status = uploading; error = none }
            ∷ [];
      log = z.log ++ upload id file allow ∷ [];
    }

-- `total > 0 ? loaded / total : 0`.
unfoldable pub on_progress : String → ℕ → ℕ → Zone → Zone
on_progress id loaded total z = record z {
  items =
      change_item id
        (λ it. record it { progress = if ltb 0 total then (loaded, total) else (0, 1) }) z.items;
}

unfoldable pub on_uploaded : String → Zone → Zone
on_uploaded id z = record z {
  items = change_item id (λ it. record it { status = done; progress = (1, 1) }) z.items;
  log = z.log ++ invalidate_documents ∷ [];
}

-- After 1200 ms, and when the item is removed by hand.
unfoldable pub remove_item : String → Zone → Zone
remove_item id z = record z { items = without_item id z.items }

unfoldable pub show_error : String → String → Effect → Zone → Zone
show_error id text notice z = record z {
  items = change_item id (λ it. record it { status = error; error = some text }) z.items;
  log = z.log ++ notice ∷ [];
}

unfoldable pub cancel_item : String → Zone → Zone
cancel_item id z = record z {
  items = change_item id (λ it. record it { status = cancelled }) z.items;
  log = z.log ++ map (λ it. abort_upload it.id) (keep (is_item id) z.items);
}

-- What happens to the upload with an identifier.
pub data ZoneEvent : Type 0 where
  progressed : (loaded total : ℕ) → ZoneEvent
  uploaded removed cancel_clicked : ZoneEvent
  failed : File → UploadError → (confirmed : Bool) → (again : String) → ZoneEvent

module _ (show : Json → String) (join : Items → String) where
  -- The `catch` of an upload: `confirmed` is the answer to the question, `again` the identifier
  -- that the second attempt gets.
  unfoldable pub on_failed : String → File → UploadError → Bool → String → Zone → Zone
  on_failed id file (duplicate existing name detail) confirmed again z =
      let asked = record z {
        items = without_item id z.items;
        log =
            z.log
            ++ confirm ("Diese Datei existiert schon als „" & show name & "“. Trotzdem hochladen?")
              ∷ [];
      } in
      if confirmed then start_upload again file true asked else asked
  on_failed id file (unsupported allowed hint detail) confirmed again z =
      show_error id "Format nicht unterstützt"
        (toast_with (file.name & ": Format nicht unterstützt")
          ("Erlaubt: " & allowed_text join allowed))
        z
  on_failed id file e confirmed again z =
      show_error id (short_error e) (toast (file.name & ": " & short_error e)) z

  unfoldable pub on_zone : String → ZoneEvent → Zone → Zone
  on_zone id (progressed loaded total) z = on_progress id loaded total z
  on_zone id uploaded z = on_uploaded id z
  on_zone id removed z = remove_item id z
  on_zone id cancel_clicked z = cancel_item id z
  on_zone id (failed file e confirmed again) z = on_failed id file e confirmed again z

  unfoldable pub run_zone : List (String × ZoneEvent) → Zone → Zone
  run_zone [] z = z
  run_zone ((id, e) ∷ es) z = run_zone es (on_zone id e z)
