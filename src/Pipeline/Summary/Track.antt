-- ===== src/Pipeline/Summary/Track.antt =====
-- What the loop of a project's summary knows of the latest document.
use open_pm.Common.{
  String, Option, none, some, List, [], ◌∷◌, ◌≡◌, refl, lookup, ℤ, arith, All, Bool-cases, inl, inr,
  Memᴰ, All-member,
}
use open_pm.Pipeline.Types.{DocumentStatus, PipelineDetail, PipelineState}
use open_pm.Pipeline.Summary.{
  idle, ProjectPipelineSummary, status_shown, docs_of_project, is_later, Progress, start,
  time_value, note_detail, count_status, scan, settle,
}

module _ (date_parse : String → Option ℤ) (s : PipelineState) (docs : List String) where
  -- What the loop knows of the latest document: its fields are those of that document.
  pub data Tracks (r : ProjectPipelineSummary) (t : Option ℤ) : Type 0 where
    unseen :
        r.latest_doc_id ≡ none
        → r.latest_status ≡ idle
        → r.latest_label ≡ none
        → r.latest_timestamp ≡ none
        → t ≡ none
        → Tracks r t
    shows :
        (d : String) (detail : PipelineDetail)
        → r.latest_doc_id ≡ some d
        → Memᴰ d docs
        → lookup d s.details ≡ some detail
        → r.latest_label ≡ detail.label
        → r.latest_timestamp ≡ detail.timestamp
        → r.latest_status ≡ status_shown (lookup d s.pipelines)
        → t ≡ some (time_value date_parse detail)
        → Tracks r t

  Tracks-count_status :
      (status : Option DocumentStatus) (g : Progress)
      → Tracks g.summary g.latest_time
      → Tracks (count_status status g).summary (count_status status g).latest_time
  unfolding count_status
  Tracks-count_status status g (unseen a b c e f) = unseen a b c e f
  Tracks-count_status status g (shows d detail a m b c e f h) = shows d detail a m b c e f h

  Tracks-note_detail :
      (d : String) (g : Progress) (o : Option PipelineDetail)
      → Memᴰ d docs
      → lookup d s.details ≡ o
      → Tracks g.summary g.latest_time
      → let g' = note_detail date_parse d (lookup d s.pipelines) o g in
        Tracks g'.summary g'.latest_time
  unfolding note_detail
  Tracks-note_detail d g none m e h = h
  Tracks-note_detail d g (some detail) m e h =
      elim (Bool-cases (is_later (time_value date_parse detail) g.latest_time)) [
        | inl later ↦ rw later (shows d detail refl m e refl refl refl refl)
        | inr earlier ↦ rw earlier h
      ]

  Tracks-scan :
      (ds : List String) (g : Progress)
      → All (λ d. Memᴰ d docs) ds
      → Tracks g.summary g.latest_time
      → let g' = scan date_parse s ds g in Tracks g'.summary g'.latest_time
  unfolding scan
  Tracks-scan [] g listed h = h
  Tracks-scan (d ∷ ds) g (here, listed) h =
      let status = lookup d s.pipelines in
      Tracks-scan ds (note_detail date_parse d status (lookup d s.details) (count_status status g))
        listed
        (Tracks-note_detail d (count_status status g) (lookup d s.details) here refl
          (Tracks-count_status status g h))

pub settle-keeps :
    (r : ProjectPipelineSummary)
    → ((settle r).latest_doc_id ≡ r.latest_doc_id)
      × ((settle r).latest_label ≡ r.latest_label)
      × ((settle r).latest_timestamp ≡ r.latest_timestamp)
unfolding settle
settle-keeps r = ground arith

pub none-ne-some {ℓ} : {A : Type ℓ} {a : A} → Path (Option A) none (some a) → ⊥
none-ne-some e = cc

module _ (date_parse : String → Option ℤ) (s : PipelineState) (p : String) where
  unfoldable pub scanned : Progress
  scanned = scan date_parse s (docs_of_project p s.doc_project) start

  pub Tracks-scanned :
      Tracks date_parse s (docs_of_project p s.doc_project) scanned.summary scanned.latest_time
  unfolding scanned
  Tracks-scanned =
      let docs = docs_of_project p s.doc_project in
      Tracks-scan date_parse s docs docs start (All-member docs) (unseen refl refl refl refl refl)
