-- ===== src/Pipeline/Summary/Counts.antt =====
-- The counters in the summary of a project.
use open_pm.Common.{
  ℕ, ◌+◌, String, Option, List, [], ◌∷◌, ◌≡◌, Bool, lookup, if◌then◌else◌, ℤ, arith,
}
use open_pm.Pipeline.Types.{DocumentStatus, PipelineState}
use open_pm.Pipeline.Summary.{
  is_processing, is_pending, docs_of_project, Progress, start, note_detail, count_status, scan,
  settle, project_pipeline_summary,
}

-- How many of the documents have a status that passes the test.
abbrev pub count_docs : (Option DocumentStatus → Bool) → PipelineState → List String → ℕ
count_docs test s [] = 0
count_docs test s (d ∷ ds) = (if test (lookup d s.pipelines) then 1 else 0) + count_docs test s ds

module _ (date_parse : String → Option ℤ) (s : PipelineState) where
  processing_count-scan :
      (ds : List String) (g : Progress)
      → (scan date_parse s ds g).summary.processing_count
        ≡ g.summary.processing_count + count_docs is_processing s ds
  unfolding scan note_detail count_status
  processing_count-scan [] g = omega arith
  processing_count-scan (d ∷ ds) g =
      let status = lookup d s.pipelines in
      let g' = note_detail date_parse d status (lookup d s.details) (count_status status g) in
      ground (arith, processing_count-scan ds g')

  pending_count-scan :
      (ds : List String) (g : Progress)
      → (scan date_parse s ds g).summary.pending_count
        ≡ g.summary.pending_count + count_docs is_pending s ds
  unfolding scan note_detail count_status
  pending_count-scan [] g = omega arith
  pending_count-scan (d ∷ ds) g =
      let status = lookup d s.pipelines in
      let g' = note_detail date_parse d status (lookup d s.details) (count_status status g) in
      ground (arith, pending_count-scan ds g')

-- The counters of the summary are the numbers of the project's documents that are pending and that
-- are processing.
pub counts-project_pipeline_summary :
    (date_parse : String → Option ℤ) (s : PipelineState) (p : String)
    → let r = project_pipeline_summary date_parse s p in
      let docs = docs_of_project p s.doc_project in
      (r.pending_count ≡ count_docs is_pending s docs)
      × (r.processing_count ≡ count_docs is_processing s docs)
unfolding project_pipeline_summary settle
counts-project_pipeline_summary date_parse s p =
    let docs = docs_of_project p s.doc_project in
    ground (
      arith,
      pending_count-scan date_parse s docs start,
      processing_count-scan date_parse s docs start,
    )
