-- ===== src/Events/Switch/Status.antt =====
-- How the events move the status of a document in the store.
use open_pm.Common.{
  String, Option, none, some, List, [], ◌∷◌, ◌++◌, ◌≡◌, refl, sym, ap, ◌∙◌, Bool, false, arith,
  str_eq, lookup, insert, lookup-insert, lookup-delete, if◌then◌else◌, Bool-cases, inl, inr,
  if_same, ◌or_else◌,
}
use open_pm.Pipeline.Types.{DocumentStatus, pending, processing, done, failed, PipelineState}
use open_pm.Pipeline.Store.{
  set_pipeline_status, push_pipeline_event, push_activity, clear_pipeline, record_doc_name,
  record_extraction, set_active_session, set_session_closed, add_live_item, set_last_state_change,
}
use open_pm.Pipeline.Actions.{apply}
use open_pm.Events.Types.{
  EventData, Command, store, invalidate, toast_error, toast_warning, notify, Env,
}
use open_pm.Events.Handle.{on_queued, on_started, on_progress, on_complete}
use open_pm.Events.Dispatch.{
  on_failed, on_session_opened, on_extracted_item, on_session_closed, on_state_changed,
  on_budget_warning,
}
use open_pm.Events.Switch.{
  Kind, document_queued, document_started, document_progress, document_complete, document_failed,
  document_deleted, document_archived, change_session_opened, extracted_item, change_session_closed,
  state_changed, budget_warning, kind_of, when_id, name_document, on_kind, handle_event, deliver,
}

-- The status of a document after an event of a kind that names it, if it had the status `old`.
abbrev pub next_status : Kind → Option DocumentStatus → Option DocumentStatus
next_status document_queued old = some pending
next_status document_started old = some processing
next_status document_complete old = some done
next_status document_failed old = some failed
next_status document_deleted old = none
next_status document_archived old = none
next_status _ old = old

-- An event names a document by an id that is not empty.
abbrev pub named : Option String → String → Bool
named none d = false
named (some c) d = if str_eq c "" then false else str_eq c d

deliver-append :
    (cs ds : List Command) (s : PipelineState) → deliver (cs ++ ds) s ≡ deliver ds (deliver cs s)
unfolding deliver
deliver-append [] ds s = refl
deliver-append (store a ∷ cs) ds s = deliver-append cs ds (apply a s)
deliver-append (invalidate q ∷ cs) ds s = deliver-append cs ds s
deliver-append (toast_error t ∷ cs) ds s = deliver-append cs ds s
deliver-append (toast_warning t ∷ cs) ds s = deliver-append cs ds s
deliver-append (notify n ∷ cs) ds s = deliver-append cs ds s

-- The actions of the events, and what they do to the statuses.
effects : Unit {0}
unfolding deliver apply set_pipeline_status push_pipeline_event push_activity clear_pipeline
    record_doc_name record_extraction set_active_session set_session_closed add_live_item
    set_last_state_change
effects = tt

module _ (env : Env) (project : String) (e : EventData) (s : PipelineState) where
  pipelines-on_queued :
      (d : String)
      → (deliver (on_queued env project d e) s).pipelines ≡ insert d pending s.pipelines
  unfolding effects on_queued
  pipelines-on_queued d = refl

  pipelines-on_started :
      (d : String)
      → (deliver (on_started env project d e) s).pipelines ≡ insert d processing s.pipelines
  unfolding effects on_started
  pipelines-on_started d = refl

  pipelines-on_progress :
      (d : String) → (deliver (on_progress env project d e) s).pipelines ≡ s.pipelines
  unfolding effects on_progress
  pipelines-on_progress d = refl

  pipelines-on_complete :
      (d : String) → (deliver (on_complete env project d e) s).pipelines ≡ insert d done s.pipelines
  unfolding effects on_complete
  pipelines-on_complete d = ground arith

  pipelines-on_failed :
      (d : String) → (deliver (on_failed env project d e) s).pipelines ≡ insert d failed s.pipelines
  unfolding effects on_failed
  pipelines-on_failed d = ground arith

  pipelines-on_extracted_item :
      (d : String) → (deliver (on_extracted_item env project d e) s).pipelines ≡ s.pipelines
  unfolding effects on_extracted_item
  pipelines-on_extracted_item d = ground arith

  pipelines-on_session_opened :
      (id : String) → (deliver (on_session_opened env project id e) s).pipelines ≡ s.pipelines
  unfolding effects on_session_opened
  pipelines-on_session_opened id = refl

  pipelines-on_session_closed :
      (id : String) → (deliver (on_session_closed env project id e) s).pipelines ≡ s.pipelines
  unfolding effects on_session_closed
  pipelines-on_session_closed id = refl

  pipelines-on_state_changed : (deliver (on_state_changed env project e) s).pipelines ≡ s.pipelines
  unfolding effects on_state_changed
  pipelines-on_state_changed = refl

  pipelines-on_budget_warning :
      (deliver (on_budget_warning env project e) s).pipelines ≡ s.pipelines
  unfolding effects on_budget_warning
  pipelines-on_budget_warning = refl

module _ (s : PipelineState) (d : String) where
  -- What a case does for each id, it does for the id of the event.
  when_id-status :
      (o : Option String) (f : String → List Command)
      (next : Option DocumentStatus → Option DocumentStatus)
      → ((c : String)
          → lookup d (deliver (f c) s).pipelines
            ≡ (if str_eq c d then next (lookup d s.pipelines) else lookup d s.pipelines))
      → lookup d (deliver (when_id o f) s).pipelines
        ≡ (if named o d then next (lookup d s.pipelines) else lookup d s.pipelines)
  unfolding deliver
  when_id-status none f next h = refl
  when_id-status (some c) f next h = elim (Bool-cases (str_eq c "")) [
    | inl e ↦ rw e
    | inr e ↦ rw e (h c)
  ]

  when_id-same :
      (o : Option String) (f : String → List Command)
      → ((c : String) → (deliver (f c) s).pipelines ≡ s.pipelines)
      → lookup d (deliver (when_id o f) s).pipelines ≡ lookup d s.pipelines
  unfolding deliver
  when_id-same none f h = refl
  when_id-same (some c) f h = elim (Bool-cases (str_eq c "")) [
    | inl e ↦ rw e
    | inr e ↦ rw e (ap (lookup d) (h c))
  ]

  name_document-same :
      (o filename : Option String) → (deliver (name_document o filename) s).pipelines ≡ s.pipelines
  unfolding effects
  name_document-same none filename = refl
  name_document-same (some c) none = refl
  name_document-same (some c) (some name) = ground arith

module _ (env : Env) (project : String) (e : EventData) (s : PipelineState) (d : String) where
  on_kind-status :
      (k : Kind)
      → lookup d (deliver (on_kind env project k e) s).pipelines ≡ (
          if named e.document_id d
          then next_status k (lookup d s.pipelines)
          else lookup d s.pipelines)
  unfolding on_kind deliver apply clear_pipeline
  on_kind-status document_queued =
      when_id-status s d e.document_id _ (λ _. some pending)
        (λ c. ap (lookup d) (pipelines-on_queued env project e s c) ∙ lookup-insert c d _ _)
  on_kind-status document_started =
      when_id-status s d e.document_id _ (λ _. some processing)
        (λ c. ap (lookup d) (pipelines-on_started env project e s c) ∙ lookup-insert c d _ _)
  on_kind-status document_complete =
      when_id-status s d e.document_id _ (λ _. some done)
        (λ c. ap (lookup d) (pipelines-on_complete env project e s c) ∙ lookup-insert c d _ _)
  on_kind-status document_failed =
      when_id-status s d e.document_id _ (λ _. some failed)
        (λ c. ap (lookup d) (pipelines-on_failed env project e s c) ∙ lookup-insert c d _ _)
  on_kind-status document_deleted =
      when_id-status s d e.document_id _ (λ _. none) (λ c. lookup-delete c d s.pipelines)
  on_kind-status document_archived =
      when_id-status s d e.document_id _ (λ _. none) (λ c. lookup-delete c d s.pipelines)
  on_kind-status document_progress =
      when_id-same s d e.document_id _ (pipelines-on_progress env project e s)
      ∙ sym (if_same (named e.document_id d) _)
  on_kind-status extracted_item =
      when_id-same s d e.document_id _ (pipelines-on_extracted_item env project e s)
      ∙ sym (if_same (named e.document_id d) _)
  on_kind-status change_session_opened =
      when_id-same s d (e.session_id or_else e.change_session_id) _
        (pipelines-on_session_opened env project e s)
      ∙ sym (if_same (named e.document_id d) _)
  on_kind-status change_session_closed =
      when_id-same s d e.session_id _ (pipelines-on_session_closed env project e s)
      ∙ sym (if_same (named e.document_id d) _)
  on_kind-status state_changed =
      ap (lookup d) (pipelines-on_state_changed env project e s)
      ∙ sym (if_same (named e.document_id d) _)
  on_kind-status budget_warning =
      ap (lookup d) (pipelines-on_budget_warning env project e s)
      ∙ sym (if_same (named e.document_id d) _)
  on_kind-status _ = sym (if_same (named e.document_id d) _)

-- After an event, a document that it names has the status that the kind of the event gives, and any
-- other document has the status that it had before.
pub status-handle_event :
    (env : Env) (project : String) (e : EventData) (s : PipelineState) (d : String)
    → lookup d (deliver (handle_event env project e) s).pipelines ≡ (
        if named e.document_id d
        then next_status (kind_of e.event) (lookup d s.pipelines)
        else lookup d s.pipelines)
unfolding handle_event
status-handle_event env project e s d =
    let before = name_document e.document_id e.filename in
    let t = deliver before s in
    let same = name_document-same s d e.document_id e.filename in
    ap (λ r. lookup d r.pipelines)
      (deliver-append before (on_kind env project (kind_of e.event) e) s)
    ∙ on_kind-status env project e t d (kind_of e.event)
    ∙ ap
        (λ m.
          if named e.document_id d then next_status (kind_of e.event) (lookup d m) else lookup d m)
        same
