-- ===== src/Events/Handle.antt =====
-- `handleEvent` of frontend/src/hooks/useProjectSSE.ts: the commands that an event gives.
use open_pm.Common.{
  ℕ, String, Option, none, some, List, [], ◌∷◌, ◌++◌, false, str_eq, if◌then◌else◌, ◌otherwise◌,
  ◌&◌,
}
use open_pm.Pipeline.Types.{pending, processing, done, ExtractedSummary, document, PipelineEvent}
use open_pm.Pipeline.Phases.{label_for_pipeline_step}
use open_pm.Pipeline.Actions.{pipeline_status, pipeline_event, activity, extraction}
use open_pm.Events.Types.{
  EventData, documents, state, change_session, Command, store, invalidate, notify, Env,
}

-- `x || fallback` for a text that may be null.
abbrev pub text_or : Option String → String → String
text_or none fallback = fallback
text_or (some t) fallback = if str_eq t "" then fallback else t

-- `data as Parameters<typeof pushPipelineEvent>[1]`.
abbrev pub as_pipeline_event : EventData → PipelineEvent
as_pipeline_event e = record {
  step = e.step;
  total = e.total;
  label = e.label;
  status = e.status;
  detail = e.detail;
  timestamp = e.timestamp;
  meta = e.meta;
}

module _ (env : Env) (project : String) where
  -- `(data.timestamp ?? new Date().toISOString())`.
  abbrev pub ts_of : EventData → String
  ts_of e = e.timestamp otherwise env.now_iso

  abbrev pub fixed_event : Option ℕ → Option ℕ → String → String → String → String → PipelineEvent
  fixed_event step total label status detail ts = record {
    step = step;
    total = total;
    label = some label;
    status = some status;
    detail = some detail;
    timestamp = some ts;
    meta = none;
  }

  unfoldable pub on_queued : String → EventData → List Command
  on_queued d e =
      let ts = ts_of e in
      store (pipeline_status d pending (some project))
      ∷ store (
          pipeline_event env.now_iso d
            (fixed_event (some 0) (some 9) "queued" "info" "Eingereiht" ts) (some project))
      ∷ store (
          activity project (record {
            id = d & "-queued-" & ts;
            ts = ts;
            document_id = some d;
            document_name = e.filename;
            label = "Eingereiht";
            detail = none;
            status = "info";
            kind = document;
            change_session_id = e.change_session_id;
          }))
      ∷ invalidate documents
      ∷ []

  unfoldable pub on_started : String → EventData → List Command
  on_started d e =
      store (pipeline_status d processing (some project))
      ∷ store (
          pipeline_event env.now_iso d
            (fixed_event (some (e.step otherwise 1)) (some (e.total otherwise 9)) "queued" "running"
              "Verarbeitung gestartet" (ts_of e))
            (some project))
      ∷ invalidate documents
      ∷ []

  abbrev pub print_step : Option ℕ → String
  print_step none = "?"
  print_step (some n) = env.print n

  unfoldable pub on_progress : String → EventData → List Command
  on_progress d e =
      let ts = ts_of e in
      store (pipeline_event env.now_iso d (as_pipeline_event e) (some project))
      ∷ store (
          activity project (record {
            id = d & "-" & print_step e.step & "-" & (e.label otherwise "?") & "-" & ts;
            ts = ts;
            document_id = some d;
            document_name = e.filename;
            label = label_for_pipeline_step e.label;
            detail = e.detail;
            status = e.status otherwise "info";
            kind = document;
            change_session_id = none;
          }))
      ∷ []

  abbrev pub record_summary : String → EventData → Option ExtractedSummary → List Command
  record_summary d e none = []
  record_summary d e (some summary) =
      store (
        extraction project (record {
          document_id = d;
          filename = none;
          summary = summary;
          state_version = e.state_version;
          at = ts_of e;
        }))
      ∷ []

  abbrev pub complete_detail : Option ExtractedSummary → Option String
  complete_detail none = none
  complete_detail (some s) = some (
      env.print s.tasks_added
      & " Tasks · "
      & env.print s.deadlines_added
      & " Deadlines · "
      & env.print s.contacts_added
      & " Kontakte")

  abbrev pub complete_body : Option ExtractedSummary → String
  complete_body none = "Verarbeitung abgeschlossen"
  complete_body (some s) =
      env.print s.tasks_added & " Tasks, " & env.print s.deadlines_added & " Deadlines extrahiert"

  unfoldable pub on_complete : String → EventData → List Command
  on_complete d e =
      let ts = ts_of e in
      let summary = e.extracted_summary in
      store (pipeline_status d done (some project))
      ∷ store (
          pipeline_event env.now_iso d
            (fixed_event (some 9) (some 9) "complete" "done" "Abgeschlossen" ts) (some project))
      ∷ (record_summary d e summary
          ++ (store (
                activity project (record {
                  id = d & "-done-" & ts;
                  ts = ts;
                  document_id = some d;
                  document_name = e.filename;
                  label = "Abgeschlossen";
                  detail = complete_detail summary;
                  status = "done";
                  kind = document;
                  change_session_id = e.change_session_id;
                }))
              ∷ ((if env.hidden
                    then notify (record {
                      title = "OpenPM";
                      body =
                          (e.filename otherwise "Dokument") & " fertig — " & complete_body summary;
                      tag = project;
                      require_interaction = false;
                      document = d;
                    })
                      ∷ []
                    else [])
                  ++ (invalidate documents ∷ invalidate state ∷ invalidate change_session ∷ []))))
