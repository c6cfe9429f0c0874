-- ===== src/Pipeline/Hydrate.antt =====
-- `hydrateProjectFromDocuments` of frontend/src/store/pipelineStore.ts: the rows of a documents
-- query fill the gaps of the store.
pub mod Laws
use open_pm.Common.{
  ℕ, String, Option, none, some, List, [], ◌∷◌, lookup, insert, has, is_some, if◌then◌else◌,
  ◌otherwise◌,
}
use open_pm.Pipeline.Types.{
  DocumentStatus, pending, processing, done, failed, completed_partial, PipelineLogEntry,
  PipelineDetail, DocumentRow, PipelineState,
}

abbrev pub status_text : DocumentStatus → String
status_text pending = "pending"
status_text processing = "processing"
status_text done = "done"
status_text failed = "failed"
status_text completed_partial = "completed_partial"

-- `logs?.[logs.length - 1]?.total ?? null`.
abbrev pub last_total : List PipelineLogEntry → Option ℕ
last_total [] = none
last_total (l ∷ []) = some l.total
last_total (l ∷ m ∷ ls) = last_total (m ∷ ls)

unfoldable pub detail_of_row : DocumentRow → PipelineDetail
detail_of_row r = record {
  step = r.pipeline_step;
  total = last_total (r.pipeline_logs otherwise []);
  label = r.pipeline_step_label;
  status = some (status_text r.processing_status);
  detail = none;
  timestamp = r.pipeline_updated_at;
  logs = r.pipeline_logs otherwise [];
}

-- One round of the loop.
unfoldable pub hydrate_row : String → DocumentRow → PipelineState → PipelineState
hydrate_row p r s = record s {
  pipelines =
      if has r.id s.pipelines then s.pipelines else insert r.id r.processing_status s.pipelines;
  details =
      if is_some (lookup r.id s.details)
      then s.details
      else insert r.id (detail_of_row r) s.details;
  doc_project = insert r.id p s.doc_project;
  doc_names = insert r.id r.original_filename s.doc_names;
}

unfoldable pub hydrate : String → List DocumentRow → PipelineState → PipelineState
hydrate p [] s = s
hydrate p (r ∷ rs) s = hydrate p rs (hydrate_row p r s)
