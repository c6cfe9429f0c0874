-- ===== src/Pipeline/Tests.antt =====
-- Runs of the store, its summary and its labels.
use open_pm.Common.{
  String, Option, none, some, List, [], ◌∷◌, ◌≡◌, refl, true, lookup, ℤ, pos, lez, if◌then◌else◌,
  str_eq, take, take_last, ◌<◌, ◌↔◌, Memᴰ,
}
use open_pm.Pipeline.Types.{
  DocumentStatus, PipelineDetail, PipelineState, ActivityEntry, ExtractedItem, DocumentRow,
  document,
}
use open_pm.Pipeline.Store.{
  initial, no_detail, activity_of, live_items, activity_limit, live_items_per_doc_limit,
}
use open_pm.Pipeline.Actions.Frame.{view}
use open_pm.Pipeline.Actions.Refine.{replay, view-run}
use open_pm.Pipeline.Hydrate.{hydrate}
use open_pm.Pipeline.Hydrate.Laws.{FillsGaps, hydrate-FillsGaps}
use open_pm.Pipeline.Actions.{Action, activity, clear, live_item, collapse, hydration, run}
use open_pm.Pipeline.Actions.Invariant.{IsConsistent, run-IsConsistent}
use open_pm.Pipeline.Actions.History.{all_activity, all_items, activity_of-run, live_items-run}
use open_pm.Pipeline.Summary.{
  project_pipeline_summary, docs_of_project, scan, note_detail, count_status, settle, time_value,
  failed, idle, processing,
}
use open_pm.Pipeline.Summary.Latest.{latest-project_pipeline_summary}
use open_pm.Pipeline.Summary.Status.{status-project_pipeline_summary}

abbrev item : String → String → ExtractedItem
item d id = record {
  document_id = d;
  item_type = "task";
  item_id = id;
  title = "Angebot prüfen";
  action = "added";
  confidence = "high";
  emitted_at = 5;
}

abbrev entry : String → ActivityEntry
entry id = record {
  id = id;
  ts = "2026-01-01T00:00:00Z";
  document_id = some "d1";
  document_name = none;
  label = "Datei wird gelesen";
  detail = none;
  status = "processing";
  kind = document;
  change_session_id = none;
}

abbrev row : String → DocumentStatus → DocumentRow
row d status = record {
  id = d;
  original_filename = "brief.pdf";
  processing_status = status;
  pipeline_step = some 2;
  pipeline_step_label = some "Inhalt wird analysiert";
  pipeline_updated_at = some "t2";
  pipeline_logs = none;
}

abbrev history : List Action
history =
    hydration "p" (row "d1" DocumentStatus.processing ∷ row "d2" DocumentStatus.failed ∷ [])
    ∷ live_item 7 (item "d1" "i1")
    ∷ activity "p" (entry "a1")
    ∷ live_item 8 (item "d2" "i2")
    ∷ clear "d2"
    ∷ activity "p" (entry "a2")
    ∷ live_item 9 (item "d1" "i3")
    ∷ collapse "d1"
    ∷ []

run-IsConsistent_example : IsConsistent (run history initial)
run-IsConsistent_example = run-IsConsistent history

activity_of-run_example :
    activity_of "p" (run history initial) ≡ take activity_limit (all_activity "p" history [])
activity_of-run_example = activity_of-run "p" history

live_items-run_example :
    live_items "d1" (run history initial)
    ≡ take_last live_items_per_doc_limit (all_items "d1" history [])
live_items-run_example = live_items-run "d1" history

history_tests :
    (all_activity "p" history [] ≡ entry "a2" ∷ entry "a1" ∷ [])
    × (all_items "d1" history [] ≡ item "d1" "i1" ∷ item "d1" "i3" ∷ [])
    × (all_items "d2" history [] ≡ [])
history_tests = (refl, refl, refl)

abbrev detail_at : String → String → PipelineDetail
detail_at label time = record no_detail { label = some label; timestamp = some time }

-- Two documents of project "p", the later one failed, and one of another project.
unfoldable store : PipelineState
unfolding initial
store = record initial {
  pipelines =
      ("d1", DocumentStatus.done)
      ∷ ("d2", DocumentStatus.failed)
      ∷ ("d3", DocumentStatus.pending)
      ∷ [];
  details = ("d1", detail_at "Abgeschlossen" "t1") ∷ ("d2", detail_at "Fehler" "t2") ∷ [];
  doc_project = ("d1", "p") ∷ ("d2", "p") ∷ ("d3", "q") ∷ [];
}

-- A reading of the two times that the tests use.
abbrev parse_time : String → Option ℤ
parse_time t = if str_eq t "t1" then some (pos 1) else if str_eq t "t2" then some (pos 2) else none

latest_is_d2 : (project_pipeline_summary parse_time store "p").latest_doc_id ≡ some "d2"
unfolding project_pipeline_summary store docs_of_project scan note_detail count_status settle lookup
    initial time_value
latest_is_d2 = refl

latest-project_pipeline_summary_example :
    (detail : PipelineDetail) × Memᴰ "d2" (docs_of_project "p" store.doc_project)
    × (lookup "d2" store.details ≡ some detail)
    × ((project_pipeline_summary parse_time store "p").latest_label ≡ detail.label)
    × ((project_pipeline_summary parse_time store "p").latest_timestamp ≡ detail.timestamp)
    × ((e : String) (other : PipelineDetail)
        → Memᴰ e (docs_of_project "p" store.doc_project)
        → lookup e store.details ≡ some other
        → lez (time_value parse_time other) (time_value parse_time detail) ≡ true)
latest-project_pipeline_summary_example =
    latest-project_pipeline_summary parse_time store "p" "d2" latest_is_d2

status-project_pipeline_summary_example :
    let r = project_pipeline_summary parse_time store "p" in
    ((r.latest_status ≡ processing) ↔ (0 < r.processing_count))
    × ((r.latest_status ≡ failed) ↔ (
        (r.processing_count ≡ 0)
        × ((d : String) × (r.latest_doc_id ≡ some d)
            × (lookup d store.pipelines ≡ some DocumentStatus.failed))))
    × (r.latest_status ≡ idle → r.latest_doc_id ≡ none)
status-project_pipeline_summary_example = status-project_pipeline_summary parse_time store "p"

hydrate-FillsGaps_example :
    let rows = row "d3" DocumentStatus.done ∷ row "d4" DocumentStatus.processing ∷ [] in
    FillsGaps "q" "d3" rows store (hydrate "q" rows store)
hydrate-FillsGaps_example =
    hydrate-FillsGaps "q" "d3"
      (row "d3" DocumentStatus.done ∷ row "d4" DocumentStatus.processing ∷ []) store

view-run_example : view "d1" (run history initial) ≡ replay "d1" history (view "d1" initial)
view-run_example = view-run "d1" history initial
