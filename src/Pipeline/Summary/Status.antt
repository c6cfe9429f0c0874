-- ===== src/Pipeline/Summary/Status.antt =====
-- The status in the summary of a project.
use open_pm.Common.{
  ◌<◌, String, Option, none, some, List, [], ◌∷◌, ◌≡◌, lookup, ℤ, arith, ◌↔◌, some_inj, sym, ◌∙◌,
  ◌≢◌,
}
use open_pm.Pipeline.Types.{DocumentStatus, PipelineDetail, PipelineState}
use open_pm.Pipeline.Summary.{
  idle, processing, failed, ProjectPipelineSummary, status_shown, docs_of_project, Progress, start,
  note_detail, count_status, scan, settle, project_pipeline_summary,
}
use open_pm.Pipeline.Summary.Track.{
  Tracks, unseen, shows, settle-keeps, none-ne-some, scanned, Tracks-scanned,
}

-- A document is shown as processing only if it was counted.
module _ (date_parse : String → Option ℤ) (s : PipelineState) where
  counted-round :
      (d : String) (o : Option PipelineDetail) (status : Option DocumentStatus) (g : Progress)
      → (g.summary.latest_status ≡ processing → 0 < g.summary.processing_count)
      → let g' = note_detail date_parse d status o (count_status status g) in
        g'.summary.latest_status ≡ processing → 0 < g'.summary.processing_count
  unfolding note_detail count_status
  counted-round d o status g h e = ground arith

  counted-scan :
      (ds : List String) (g : Progress)
      → (g.summary.latest_status ≡ processing → 0 < g.summary.processing_count)
      → (scan date_parse s ds g).summary.latest_status ≡ processing
      → 0 < (scan date_parse s ds g).summary.processing_count
  unfolding scan
  counted-scan [] g h e = h e
  counted-scan (d ∷ ds) g h e =
      let status = lookup d s.pipelines in
      counted-scan ds (note_detail date_parse d status (lookup d s.details) (count_status status g))
        (counted-round d (lookup d s.details) status g h) e

-- The status of a summary whose loop has met a document, whose status is `o`.
settle-seen :
    (r : ProjectPipelineSummary) (o : Option DocumentStatus)
    → r.latest_status ≡ status_shown o
    → (r.latest_status ≡ processing → 0 < r.processing_count)
    → (((settle r).latest_status ≡ processing) ↔ (0 < (settle r).processing_count))
      × (((settle r).latest_status ≡ failed)
          ↔ (((settle r).processing_count ≡ 0) × (o ≡ some DocumentStatus.failed)))
      × ((settle r).latest_status ≢ idle)
unfolding settle
settle-seen r o shown counted = ground arith

settle-unseen :
    (r : ProjectPipelineSummary)
    → r.latest_status ≡ idle
    → (((settle r).latest_status ≡ processing) ↔ (0 < (settle r).processing_count))
      × ((settle r).latest_status ≢ failed)
unfolding settle
settle-unseen r i = ground arith

module _ (date_parse : String → Option ℤ) (s : PipelineState) (p : String) where
  -- The status shown is "processing" exactly if the summary counts a document that is processing,
  -- "failed" exactly if it counts none and its latest document has failed, and "idle" only if it has
  -- no latest document.
  pub status-project_pipeline_summary :
      let r = project_pipeline_summary date_parse s p in
      ((r.latest_status ≡ processing) ↔ (0 < r.processing_count))
      × ((r.latest_status ≡ failed) ↔ (
          (r.processing_count ≡ 0)
          × ((d : String) × (r.latest_doc_id ≡ some d)
              × (lookup d s.pipelines ≡ some DocumentStatus.failed))))
      × (r.latest_status ≡ idle → r.latest_doc_id ≡ none)
  unfolding project_pipeline_summary scanned
  status-project_pipeline_summary = split (Tracks-scanned date_parse s p)
    where
      r : ProjectPipelineSummary
      r = (scanned date_parse s p).summary

      split :
          Tracks date_parse s
            (docs_of_project p s.doc_project)
            r
            (scanned date_parse s p).latest_time
          → (((settle r).latest_status ≡ processing) ↔ (0 < (settle r).processing_count))
            × (((settle r).latest_status ≡ failed) ↔ (
                ((settle r).processing_count ≡ 0)
                × ((d : String) × ((settle r).latest_doc_id ≡ some d)
                    × (lookup d s.pipelines ≡ some DocumentStatus.failed))))
            × ((settle r).latest_status ≡ idle → (settle r).latest_doc_id ≡ none)
      split (unseen a i _ _ _) =
          let (busy, not_failed) = settle-unseen r i in
          (
            busy,
            (
              λ f. absurd (not_failed f),
              λ (_, (d, at_d, _)). absurd (none-ne-some (sym a ∙ sym (settle-keeps r).0 ∙ at_d)),
            ),
            λ _. (settle-keeps r).0 ∙ a,
          )
      split (shows c detail a _ _ _ _ shown _) =
          let (busy, fail, not_idle) =
            settle-seen r (lookup c s.pipelines) shown
              (counted-scan date_parse s (docs_of_project p s.doc_project) start (λ e. cc)) in
          (
            busy,
            (
              λ f. ((fail.0 f).0, (c, (settle-keeps r).0 ∙ a, (fail.0 f).1)),
              λ (z, (d, at_d, bad)).
                  fail.1 (z, rw (some_inj (sym a ∙ sym (settle-keeps r).0 ∙ at_d)) bad),
            ),
            λ i. absurd (not_idle i),
          )
