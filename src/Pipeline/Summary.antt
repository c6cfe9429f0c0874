-- ===== src/Pipeline/Summary.antt =====
-- `getProjectPipelineSummary` of frontend/src/store/pipelineStore.ts.
pub mod Counts
pub mod Track
pub mod Latest
pub mod Status
use open_pm.Common.{
  ℕ, suc, String, Option, none, some, List, [], ◌∷◌, Bool, true, false, not, ◌&&◌, Dict, lookup,
  str_eq, if◌then◌else◌, ◌otherwise◌, ℤ, pos, lez, ltb,
}
use open_pm.Pipeline.Types.{DocumentStatus, PipelineDetail, PipelineState}

pub data LatestStatus : Type 0 where
  idle pending processing failed done : LatestStatus

pub record ProjectPipelineSummary : Type 0 where
  pub pending_count : ℕ
  pub processing_count : ℕ
  pub latest_label : Option String
  pub latest_status : LatestStatus
  pub latest_doc_id : Option String
  pub latest_timestamp : Option String

abbrev pub is_processing : Option DocumentStatus → Bool
is_processing (some DocumentStatus.processing) = true
is_processing _ = false

abbrev pub is_pending : Option DocumentStatus → Bool
is_pending (some DocumentStatus.pending) = true
is_pending _ = false

-- The `if` ladder on `state.pipelines[docId]`.
abbrev pub status_shown : Option DocumentStatus → LatestStatus
status_shown (some DocumentStatus.failed) = failed
status_shown (some DocumentStatus.processing) = processing
status_shown (some DocumentStatus.done) = done
status_shown _ = pending

abbrev pub is_failed : LatestStatus → Bool
is_failed failed = true
is_failed _ = false

-- The documents of a project, in the order of `Object.entries`.
unfoldable pub docs_of_project : String → Dict String → List String
docs_of_project p [] = []
docs_of_project p ((d, q) ∷ m) =
    let rest = docs_of_project p m in if str_eq q p then d ∷ rest else rest

-- `timeValue >= latestTime`, where `none` is -Infinity.
abbrev pub is_later : ℤ → Option ℤ → Bool
is_later t none = true
is_later t (some u) = lez u t

-- The variables of the loop.
pub record Progress : Type 0 where
  pub summary : ProjectPipelineSummary
  pub latest_time : Option ℤ

abbrev pub start : Progress
start = record {
  summary = record {
    pending_count = 0;
    processing_count = 0;
    latest_label = none;
    latest_status = idle;
    latest_doc_id = none;
    latest_timestamp = none;
  };
  latest_time = none;
}

-- The two counters of a round.
unfoldable pub count_status : Option DocumentStatus → Progress → Progress
count_status status g =
    let s = g.summary in
    record g {
      summary = record s {
        processing_count =
            if is_processing status then suc s.processing_count else s.processing_count;
        pending_count = if is_pending status then suc s.pending_count else s.pending_count;
      };
    }

-- What follows the loop.
unfoldable pub settle : ProjectPipelineSummary → ProjectPipelineSummary
settle r =
    if ltb 0 r.processing_count
    then record r { latest_status = processing }
    else if ltb 0 r.pending_count && not (is_failed r.latest_status)
    then record r { latest_status = pending }
    else r

module _ (date_parse : String → Option ℤ) where
  -- `Number.isFinite(ts) ? ts : 0`, where `Date.parse` gives `none` for NaN.
  unfoldable pub time_value : PipelineDetail → ℤ
  time_value detail = elim detail.timestamp [
    | none ↦ pos 0
    | some t ↦ if str_eq t "" then pos 0 else date_parse t otherwise pos 0
  ]

  unfoldable pub note_detail :
      String → Option DocumentStatus → Option PipelineDetail → Progress → Progress
  note_detail d status none g = g
  note_detail d status (some detail) g =
      if is_later (time_value detail) g.latest_time
      then record {
        summary = record {
          pending_count = g.summary.pending_count;
          processing_count = g.summary.processing_count;
          latest_label = detail.label;
          latest_status = status_shown status;
          latest_doc_id = some d;
          latest_timestamp = detail.timestamp;
        };
        latest_time = some (time_value detail);
      }
      else g

  -- The loop over the documents of the project.
  unfoldable pub scan : PipelineState → List String → Progress → Progress
  scan s [] g = g
  scan s (d ∷ ds) g =
      let status = lookup d s.pipelines in
      scan s ds (note_detail d status (lookup d s.details) (count_status status g))

  unfoldable pub project_pipeline_summary : PipelineState → String → ProjectPipelineSummary
  project_pipeline_summary s p = settle (scan s (docs_of_project p s.doc_project) start).summary
