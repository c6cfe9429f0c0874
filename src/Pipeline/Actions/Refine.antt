-- ===== src/Pipeline/Actions/Refine.antt =====
-- What the store promises about one document, as a small machine of its own, and that the store of
-- all documents behaves as these machines side by side.
use open_pm.Common.{
  ℕ, String, Option, none, some, List, [], ◌∷◌, ◌++◌, ◌≡◌, refl, ap, ◌∙◌, true, false, arith,
  lookup, str_eq, eq_iff, if◌then◌else◌, ◌otherwise◌, ◌or_else◌, take_last, has-lookup,
  lookup-insert, contains-add, contains-remove, Dict,
}
use open_pm.Pipeline.Types.{
  DocumentStatus, ExtractedItem, PipelineEvent, DocumentRow, PipelineState,
}
use open_pm.Pipeline.Store.{
  live_items_per_doc_limit, link_project, no_detail, merge_event, set_pipeline_status,
  push_pipeline_event, push_activity, record_doc_name, record_extraction, set_active_session,
  set_session_closed, set_connection_state, add_live_item, set_last_state_change, collapse_doc,
}
use open_pm.Pipeline.Hydrate.{detail_of_row, hydrate_row, hydrate}
use open_pm.Pipeline.Actions.{
  Action, pipeline_status, pipeline_event, activity, clear, doc_name, extraction, active_session,
  session_closed, connection, live_item, state_change, collapse, hydration, apply, run,
}
use open_pm.Pipeline.Actions.Frame.{DocumentView, view, empty_view, view-clear_pipeline}

-- The project that an optional identifier names, or the one known before.
abbrev pub named_project : Option String → Option String → Option String
named_project none before = before
named_project (some p) before = if str_eq p "" then before else some p

abbrev pub see_status : DocumentStatus → Option String → DocumentView → DocumentView
see_status status p v = record v { status = some status; project = named_project p v.project }

abbrev pub see_event : String → PipelineEvent → Option String → DocumentView → DocumentView
see_event now e p v = record v {
  detail = some (merge_event now e (v.detail otherwise no_detail));
  project = named_project p v.project;
}

abbrev pub see_item : ℕ → ExtractedItem → DocumentView → DocumentView
see_item now item v = record v {
  items = some (take_last live_items_per_doc_limit ((v.items otherwise []) ++ item ∷ []));
  last_at = some now;
  expanded = true;
}

-- A row of a refetch fills what the document does not have.
abbrev pub see_row : String → DocumentRow → DocumentView → DocumentView
see_row p r v = record v {
  status = v.status or_else some r.processing_status;
  detail = v.detail or_else some (detail_of_row r);
  project = some p;
  name = some r.original_filename;
}

abbrev pub see_rows : String → String → List DocumentRow → DocumentView → DocumentView
see_rows d p [] v = v
see_rows d p (r ∷ rs) v = see_rows d p rs (if str_eq r.id d then see_row p r v else v)

-- What an action does to the document `d`.
abbrev pub see : String → Action → DocumentView → DocumentView
see d (pipeline_status e status p) v = if str_eq e d then see_status status p v else v
see d (pipeline_event now e event p) v = if str_eq e d then see_event now event p v else v
see d (clear e) v = if str_eq e d then empty_view else v
see d (doc_name e name) v = if str_eq e d then record v { name = some name } else v
see d (live_item now item) v = if str_eq item.document_id d then see_item now item v else v
see d (collapse e) v = if str_eq e d then record v { expanded = false } else v
see d (hydration p rows) v = see_rows d p rows v
see d _ v = v

unfoldable pub replay : String → List Action → DocumentView → DocumentView
replay d [] v = v
replay d (a ∷ actions) v = replay d actions (see d a v)

lookup-link_project :
    (d e : String) (p : Option String) (m : Dict String)
    → lookup d (link_project e p m)
      ≡ (if str_eq e d then named_project p (lookup d m) else lookup d m)
lookup-link_project d e none m = ground arith
lookup-link_project d e (some p) m = ground (arith, lookup-insert e d p m)

view-set_pipeline_status :
    (d e : String) (status : DocumentStatus) (p : Option String) (s : PipelineState)
    → view d (set_pipeline_status e status p s)
      ≡ (if str_eq e d then see_status status p (view d s) else view d s)
unfolding set_pipeline_status
view-set_pipeline_status d e status p s =
    ground (arith, lookup-insert e d status s.pipelines, lookup-link_project d e p s.doc_project)

view-push_pipeline_event :
    (d : String) (now : String) (e : String) (event : PipelineEvent) (p : Option String)
    (s : PipelineState)
    → view d (push_pipeline_event now e event p s)
      ≡ (if str_eq e d then see_event now event p (view d s) else view d s)
unfolding push_pipeline_event
view-push_pipeline_event d now e event p s = ground (
  arith,
  eq_iff e d,
  lookup-insert e d (merge_event now event (lookup e s.details otherwise no_detail)) s.details,
  lookup-link_project d e p s.doc_project,
)

view-add_live_item :
    (d : String) (now : ℕ) (item : ExtractedItem) (s : PipelineState)
    → view d (add_live_item now item s)
      ≡ (if str_eq item.document_id d then see_item now item (view d s) else view d s)
unfolding add_live_item
view-add_live_item d now item s =
    let e = item.document_id in
    let next =
      take_last live_items_per_doc_limit
        ((lookup e s.live_items_by_doc otherwise []) ++ item ∷ []) in
    ground (
      arith,
      eq_iff e d,
      lookup-insert e d next s.live_items_by_doc,
      lookup-insert e d now s.last_item_at_by_doc,
      contains-add e d s.expanded_docs,
    )

view-collapse_doc :
    (d e : String) (s : PipelineState)
    → view d (collapse_doc e s)
      ≡ (if str_eq e d then (let v = view d s in record v { expanded = false }) else view d s)
unfolding collapse_doc
view-collapse_doc d e s = ground (arith, eq_iff e d, contains-remove e d s.expanded_docs)

view-hydrate_row :
    (d p : String) (r : DocumentRow) (s : PipelineState)
    → view d (hydrate_row p r s) ≡ (if str_eq r.id d then see_row p r (view d s) else view d s)
unfolding hydrate_row
view-hydrate_row d p r s = ground (
  arith,
  eq_iff r.id d,
  has-lookup r.id s.pipelines,
  lookup-insert r.id d r.processing_status s.pipelines,
  lookup-insert r.id d (detail_of_row r) s.details,
  lookup-insert r.id d p s.doc_project,
  lookup-insert r.id d r.original_filename s.doc_names,
)

view-hydrate :
    (d p : String) (rows : List DocumentRow) (s : PipelineState)
    → view d (hydrate p rows s) ≡ see_rows d p rows (view d s)
unfolding hydrate
view-hydrate d p [] s = refl
view-hydrate d p (r ∷ rs) s =
    view-hydrate d p rs (hydrate_row p r s) ∙ ap (see_rows d p rs) (view-hydrate_row d p r s)

view-record_doc_name :
    (d e name : String) (s : PipelineState)
    → view d (record_doc_name e name s)
      ≡ (if str_eq e d then (let v = view d s in record v { name = some name }) else view d s)
unfolding record_doc_name
view-record_doc_name d e name s = ground (arith, lookup-insert e d name s.doc_names)

view-apply : (d : String) (a : Action) (s : PipelineState) → view d (apply a s) ≡ see d a (view d s)
unfolding apply push_activity record_extraction set_active_session set_session_closed
    set_connection_state set_last_state_change
view-apply d (pipeline_status e status p) s = view-set_pipeline_status d e status p s
view-apply d (pipeline_event now e event p) s = view-push_pipeline_event d now e event p s
view-apply d (activity p entry) s = refl
view-apply d (clear e) s = view-clear_pipeline e d s
view-apply d (doc_name e name) s = view-record_doc_name d e name s
view-apply d (extraction p payload) s = refl
view-apply d (active_session p session) s = refl
view-apply d (session_closed p session) s = refl
view-apply d (connection p c) s = refl
view-apply d (live_item now item) s = view-add_live_item d now item s
view-apply d (state_change p payload) s = refl
view-apply d (collapse e) s = view-collapse_doc d e s
view-apply d (hydration p rows) s = view-hydrate d p rows s

-- For every document and every history of the store: what the store holds of the document
-- afterwards (its status, details, project, name, live items, the time of the last one, and whether
-- it is expanded) is what the machine of this one document makes, by the same history, of what the
-- store held of it before; so the actions on other documents have no effect on it.
pub view-run :
    (d : String) (actions : List Action) (s : PipelineState)
    → view d (run actions s) ≡ replay d actions (view d s)
unfolding run replay
view-run d [] s = refl
view-run d (a ∷ actions) s =
    view-run d actions (apply a s) ∙ ap (replay d actions) (view-apply d a s)
