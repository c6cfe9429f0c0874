-- ===== src/Pipeline/Summary/Latest.antt =====
-- The latest document in the summary of a project.
use open_pm.Common.{
  String, Option, none, some, List, [], ◌∷◌, ◌≡◌, refl, true, false, lookup, ℤ, lez, lez_refl,
  lez_trans, lez_total, Bool-cases, inl, inr, Memᴰ, some_inj, sym, ◌∙◌,
}
use open_pm.Pipeline.Types.{DocumentStatus, PipelineDetail, PipelineState}
use open_pm.Pipeline.Summary.{
  docs_of_project, is_later, Progress, start, time_value, note_detail, count_status, scan, settle,
  project_pipeline_summary,
}
use open_pm.Pipeline.Summary.Track.{
  Tracks, unseen, shows, settle-keeps, none-ne-some, scanned, Tracks-scanned,
}

module _ (date_parse : String → Option ℤ) (s : PipelineState) where
  -- Some document's time is at least `z`.
  AtLeast : ℤ → Option ℤ → Type 0
  AtLeast z t = (u : ℤ) × (t ≡ some u) × (lez z u ≡ true)

  AtLeast-note_detail :
      (z : ℤ) (d : String) (status : Option DocumentStatus) (o : Option PipelineDetail)
      (g : Progress)
      → AtLeast z g.latest_time
      → AtLeast z (note_detail date_parse d status o (count_status status g)).latest_time
  unfolding note_detail count_status AtLeast
  AtLeast-note_detail z d status none g h = h
  AtLeast-note_detail z d status (some detail) g (u, e, le) =
      elim (Bool-cases (is_later (time_value date_parse detail) g.latest_time)) [
        | inl later ↦ rw later (
          time_value date_parse detail,
          refl,
          lez_trans z u (time_value date_parse detail) le (rw e at later),
        )
        | inr earlier ↦ rw earlier (u, e, le)
      ]

  AtLeast-scan :
      (z : ℤ) (ds : List String) (g : Progress)
      → AtLeast z g.latest_time
      → AtLeast z (scan date_parse s ds g).latest_time
  unfolding scan
  AtLeast-scan z [] g h = h
  AtLeast-scan z (d ∷ ds) g h =
      let status = lookup d s.pipelines in
      AtLeast-scan z ds
        (note_detail date_parse d status (lookup d s.details) (count_status status g))
        (AtLeast-note_detail z d status (lookup d s.details) g h)

  seen-round :
      (d : String) (status : Option DocumentStatus) (detail : PipelineDetail) (g : Progress)
      → AtLeast
          (time_value date_parse detail)
          (note_detail date_parse d status (some detail) (count_status status g)).latest_time
  unfolding note_detail count_status AtLeast
  seen-round d status detail g = elim (Bool-cases (is_later z g.latest_time)) [
    | inl later ↦ rw later (z, refl, lez_refl z)
    | inr earlier ↦ rw earlier (below g.latest_time earlier)
  ]
    where
      z : ℤ
      z = time_value date_parse detail

      below : (t : Option ℤ) → is_later z t ≡ false → (u : ℤ) × (t ≡ some u) × (lez z u ≡ true)
      below none e = cc
      below (some u) e = (u, refl, lez_total u z e)

  AtLeast-scan_of_mem :
      (ds : List String) (g : Progress) {d : String} {detail : PipelineDetail}
      → Memᴰ d ds
      → lookup d s.details ≡ some detail
      → AtLeast (time_value date_parse detail) (scan date_parse s ds g).latest_time
  unfolding scan
  AtLeast-scan_of_mem [] g m found = elim m [ ]
  AtLeast-scan_of_mem (d ∷ ds) g {detail} (Memᴰ.head e) found =
      let status = lookup d s.pipelines in
      let here : lookup d s.details ≡ some detail = rw e at found in
      AtLeast-scan (time_value date_parse detail) ds
        (note_detail date_parse d status (lookup d s.details) (count_status status g))
        (rw here (seen-round d status detail g))
  AtLeast-scan_of_mem (d ∷ ds) g (Memᴰ.tail m) found =
      let status = lookup d s.pipelines in
      AtLeast-scan_of_mem ds
        (note_detail date_parse d status (lookup d s.details) (count_status status g)) m found

module _ (date_parse : String → Option ℤ) (s : PipelineState) (p : String) where
  newest :
      (t u : ℤ) (e : String) (other : PipelineDetail)
      → (scanned date_parse s p).latest_time ≡ some t
      → Memᴰ e (docs_of_project p s.doc_project)
      → lookup e s.details ≡ some other
      → lez (time_value date_parse other) t ≡ true
  unfolding scanned AtLeast
  newest t u e other at_t m found =
      let (v, at_v, le) =
        AtLeast-scan_of_mem date_parse s (docs_of_project p s.doc_project) start m found in
      rw (some_inj (sym at_t ∙ at_v)) le

  -- The summary's latest document belongs to the project and has details, the label and the time
  -- shown are its own, and no document of the project with details has a later time.
  pub latest-project_pipeline_summary :
      (d : String)
      → (project_pipeline_summary date_parse s p).latest_doc_id ≡ some d
      → (detail : PipelineDetail) × Memᴰ d (docs_of_project p s.doc_project)
        × (lookup d s.details ≡ some detail)
        × ((project_pipeline_summary date_parse s p).latest_label ≡ detail.label)
        × ((project_pipeline_summary date_parse s p).latest_timestamp ≡ detail.timestamp)
        × ((e : String) (other : PipelineDetail)
            → Memᴰ e (docs_of_project p s.doc_project)
            → lookup e s.details ≡ some other
            → lez (time_value date_parse other) (time_value date_parse detail) ≡ true)
  unfolding project_pipeline_summary scanned
  latest-project_pipeline_summary d e = found (Tracks-scanned date_parse s p)
    where
      same : (scanned date_parse s p).summary.latest_doc_id ≡ some d
      same = sym (settle-keeps (scanned date_parse s p).summary).0 ∙ e

      found :
          Tracks date_parse s
            (docs_of_project p s.doc_project)
            (scanned date_parse s p).summary
            (scanned date_parse s p).latest_time
          → (detail : PipelineDetail) × Memᴰ d (docs_of_project p s.doc_project)
            × (lookup d s.details ≡ some detail)
            × ((settle (scanned date_parse s p).summary).latest_label ≡ detail.label)
            × ((settle (scanned date_parse s p).summary).latest_timestamp ≡ detail.timestamp)
            × ((e : String) (other : PipelineDetail)
                → Memᴰ e (docs_of_project p s.doc_project)
                → lookup e s.details ≡ some other
                → lez (time_value date_parse other) (time_value date_parse detail) ≡ true)
      found (unseen a _ _ _ _) = absurd (none-ne-some (sym a ∙ same))
      found (shows c detail a m b l t _ at_t) =
          let is_d : c ≡ d = some_inj (sym a ∙ same) in
          (
            detail,
            rw is_d at m,
            rw is_d at b,
            (settle-keeps (scanned date_parse s p).summary).1 ∙ l,
            (settle-keeps (scanned date_parse s p).summary).2 ∙ t,
            λ e other mem f.
                newest (time_value date_parse detail) (time_value date_parse detail) e other at_t
                  mem f,
          )
