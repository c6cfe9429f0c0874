-- ===== src/Events/Dispatch.antt =====
-- The rest of `handleEvent` of frontend/src/hooks/useProjectSSE.ts: the cases
-- after "document_complete".
use open_pm.Common.{
  ◌&◌, String, Option, none, some, List, [], ◌∷◌, ◌++◌, true, not, ◌||◌, if◌then◌else◌, ◌otherwise◌,
  Json,
}
use open_pm.Pipeline.Types.{failed, ChangeSessionInfo, document, session, ExtractedItem}
use open_pm.Pipeline.Store.{truthy}
use open_pm.Pipeline.Actions.{
  pipeline_status, pipeline_event, activity, active_session, session_closed, live_item,
  state_change,
}
use open_pm.Events.Types.{
  EventData, documents, state, change_session, Command, store, invalidate, toast_error,
  toast_warning, notify, Env,
}
use open_pm.Events.Handle.{text_or, as_pipeline_event, ts_of}

module _ (env : Env) (project : String) where
  unfoldable pub on_failed : String → EventData → List Command
  on_failed d e =
      let ts = ts_of env project e in
      store (pipeline_status d failed (some project))
      ∷ store (pipeline_event env.now_iso d (as_pipeline_event e) (some project))
      ∷ store (
          activity project (record {
            id = d & "-failed-" & ts;
            ts = ts;
            document_id = some d;
            document_name = e.filename;
            label = "Fehler";
            detail = e.error;
            status = "failed";
            kind = document;
            change_session_id = none;
          }))
      ∷ toast_error ("Verarbeitung fehlgeschlagen: " & text_or e.error "Unbekannter Fehler")
      ∷ ((if env.hidden
            then notify (record {
              title = "OpenPM — Fehler";
              body =
                  (e.filename otherwise "Dokument")
                  & ": "
                  & text_or e.error "Verarbeitung fehlgeschlagen";
              tag = project;
              require_interaction = true;
              document = d;
            })
              ∷ []
            else [])
          ++ (invalidate documents ∷ []))

  unfoldable pub on_session_opened : String → EventData → List Command
  on_session_opened id e =
      let ts = ts_of env project e in
      store (
        active_session project (
          some (record {
            id = id;
            started_at = e.started_at otherwise ts;
            last_activity_at = ts;
            closed_at = none;
            summary = none;
            triggered_by = none;
          })))
      ∷ store (
          activity project (record {
            id = "session-open-" & id;
            ts = ts;
            document_id = none;
            document_name = none;
            label = "Session geöffnet";
            detail = none;
            status = "info";
            kind = session;
            change_session_id = some id;
          }))
      ∷ []

  abbrev pub item_of_event : String → EventData → ExtractedItem
  item_of_event d e = record {
    document_id = d;
    item_type = e.item_type otherwise "";
    item_id = e.item_id otherwise "";
    title = e.title otherwise "";
    action = e.action otherwise "added";
    confidence = e.confidence otherwise "high";
    emitted_at = env.now_ms;
  }

  unfoldable pub on_extracted_item : String → EventData → List Command
  on_extracted_item d e =
      if not (truthy e.item_type) || not (truthy e.item_id)
      then []
      else store (live_item env.now_ms (item_of_event d e)) ∷ []

  -- `info.summary ? `${info.summary.document_count ?? "?"} Dokumente` : null`.
  abbrev pub documents_text : Option Json → Option String
  documents_text none = none
  documents_text (some summary) = some ((env.document_count summary otherwise "?") & " Dokumente")

  abbrev pub closed_info : String → EventData → ChangeSessionInfo
  closed_info id e =
      let ts = ts_of env project e in
      record {
        id = id;
        started_at = ts;
        last_activity_at = ts;
        closed_at = some (e.closed_at otherwise ts);
        summary = e.summary;
        triggered_by = e.triggered_by;
      }

  unfoldable pub on_session_closed : String → EventData → List Command
  on_session_closed id e =
      store (session_closed project (closed_info id e))
      ∷ store (
          activity project (record {
            id = "session-close-" & id;
            ts = ts_of env project e;
            document_id = none;
            document_name = none;
            label = "Session geschlossen";
            detail = documents_text e.summary;
            status = "done";
            kind = session;
            change_session_id = some id;
          }))
      ∷ invalidate change_session
      ∷ []

  unfoldable pub on_state_changed : EventData → List Command
  on_state_changed e =
      store (
        state_change project (record {
          version = e.version otherwise 0;
          sections = e.sections otherwise [];
          ts = env.now_ms;
        }))
      ∷ invalidate state
      ∷ []

  unfoldable pub on_budget_warning : EventData → List Command
  on_budget_warning e =
      toast_warning (
        "80 % des Monats-Budgets erreicht ($"
        & (e.spent_text otherwise "?")
        & " von $"
        & (e.budget_text otherwise "?")
        & ")")
      ∷ []
