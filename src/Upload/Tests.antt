-- ===== src/Upload/Tests.antt =====
-- Runs of an upload.
use open_pm.Common.{none, some, ◌≡◌, refl, true, false, if◌then◌else◌, Json, str, obj, field, end}
use open_pm.Upload.Response.{Ending, load, duplicate, resolved, rejected, upload_file, classify}
use open_pm.Common.{String, List, [], ◌∷◌}
use open_pm.Upload.Response.{legacy}
use open_pm.Upload.DropZone.{
  File, UploadItem, uploading, Zone, ZoneEvent, progressed, cancel_clicked, failed, change_item,
  run_zone,
}
use open_pm.Upload.DropZone.Laws.{as_failed, cancel-aborted}
use open_pm.Upload.Flow.{Options, World, start_upload_with_flow}
use open_pm.Upload.Flow.Once.{
  successes, failures, forced, is_forced, is_accepted, start_upload_with_flow_lem,
}

abbrev conflict : Json
conflict = obj (field "code" (str "duplicate") (field "existing_document_id" (str "d1") end))

abbrev refused : Ending
refused = load (record {
  status = 409;
  response_text = "{…}";
  parsed = some (obj (field "detail" conflict end));
})

refused_test :
    upload_file "brief.pdf" refused ≡ rejected (duplicate (str "d1") (str "brief.pdf") conflict)
unfolding upload_file classify
refused_test = refl

abbrev options : Options
options = record { file_name = "brief.pdf"; file_size = 900; has_text_paste = false }

abbrev insisting : World
insisting = record {
  first = rejected (duplicate (str "d1") (str "brief.pdf") conflict);
  confirmed = true;
  second = resolved none;
  show = λ j. "brief.pdf";
  join = λ items. "";
}

start_upload_with_flow_lem_example :
    (successes (start_upload_with_flow options insisting)
      ≡ (if is_accepted options insisting then 1 else 0))
    × (failures (start_upload_with_flow options insisting)
        ≡ (if is_accepted options insisting then 0 else 1))
    × (forced (start_upload_with_flow options insisting)
        ≡ (if is_forced options insisting then 1 else 0))
start_upload_with_flow_lem_example = start_upload_with_flow_lem options insisting

abbrev letter : File
letter = record { name = "brief.pdf"; size = 900 }

abbrev listed : String → UploadItem
listed id = record { id = id; file = letter; progress = (0, 1); status = uploading; error = none }

abbrev zone : Zone
zone = record { items = listed "u1" ∷ listed "u2" ∷ []; paste_modal_open = false; log = [] }

abbrev zone_events : List (String × ZoneEvent)
zone_events = ("u1", progressed 5 9) ∷ ("u1", cancel_clicked) ∷ []

cancel-aborted_example :
    (run_zone
      (λ j. "")
      (λ js. "")
      (("u1", cancel_clicked) ∷ ("u1", failed letter (legacy 0 (str "aborted")) false "u3") ∷ [])
      zone).items
    ≡ change_item "u1" (as_failed "aborted") zone.items
cancel-aborted_example = cancel-aborted (λ j. "") (λ js. "") "u1" "u3" letter zone
