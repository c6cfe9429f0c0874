-- ===== src/Pipeline/Actions/History.antt =====
-- The bounded lists of the store against the whole history: the activities of a project are the
-- newest ones pushed to it, and the live items of a document the last ones since it was cleared.
use open_pm.Common.{
  String, some, List, [], ◌∷◌, ◌++◌, ◌≡◌, refl, Bool, true, false, arith, Dict, lookup, insert,
  lookup-insert, lookup-delete, str_eq, eq_iff, if◌then◌else◌, ◌otherwise◌, take, take_last,
  take-cons-take, ap, ◌∙◌, take_last-concat,
}
use open_pm.Pipeline.Types.{PipelineState, ExtractedItem, ActivityEntry, DocumentRow}
use open_pm.Pipeline.Store.{
  initial, activity_of, live_items, activity_limit, live_items_per_doc_limit, add_live_item,
  push_activity, clear_pipeline, collapse_doc, set_pipeline_status, push_pipeline_event,
  record_doc_name, record_extraction, set_active_session, set_session_closed, set_connection_state,
  set_last_state_change,
}
use open_pm.Pipeline.Hydrate.{hydrate, hydrate_row}
use open_pm.Pipeline.Actions.{Action, activity, clear, live_item, collapse, hydration, apply, run}

-- All activities of `p` after an action, newest first, if there were `old` before it.
abbrev pub log_activity : String → Action → List ActivityEntry → List ActivityEntry
log_activity p (activity q entry) old = if str_eq q p then entry ∷ old else old
log_activity p _ old = old

abbrev pub all_activity : String → List Action → List ActivityEntry → List ActivityEntry
all_activity p [] old = old
all_activity p (a ∷ actions) old = all_activity p actions (log_activity p a old)

-- All live items of `d` since it was last cleared, oldest first.
abbrev pub log_items : String → Action → List ExtractedItem → List ExtractedItem
log_items d (live_item now item) old = if str_eq item.document_id d then old ++ item ∷ [] else old
log_items d (clear e) old = if str_eq e d then [] else old
log_items d _ old = old

abbrev pub all_items : String → List Action → List ExtractedItem → List ExtractedItem
all_items d [] old = old
all_items d (a ∷ actions) old = all_items d actions (log_items d a old)

hydrate-fields :
    (p : String) (rows : List DocumentRow) (s : PipelineState)
    → ((hydrate p rows s).per_project_activity ≡ s.per_project_activity)
      × ((hydrate p rows s).live_items_by_doc ≡ s.live_items_by_doc)
unfolding hydrate hydrate_row
hydrate-fields p [] s = (refl, refl)
hydrate-fields p (r ∷ rs) s = hydrate-fields p rs (hydrate_row p r s)

push-log :
    (p q : String) (entry : ActivityEntry) (old : List ActivityEntry)
    (m : Dict (List ActivityEntry))
    → (lookup p m otherwise []) ≡ take activity_limit old
    → (lookup p (insert q (take activity_limit (entry ∷ (lookup q m otherwise []))) m) otherwise [])
      ≡ take activity_limit (if str_eq q p then entry ∷ old else old)
push-log p q entry old m h =
    let next = take activity_limit (entry ∷ (lookup q m otherwise [])) in
    rw (lookup-insert q p next m) (branch (str_eq q p) (eq_iff q p).0)
  where
    branch :
        (b : Bool)
        → (b ≡ true → q ≡ p)
        → ((if b
              then some (take activity_limit (entry ∷ (lookup q m otherwise [])))
              else lookup p m)
            otherwise [])
          ≡ take activity_limit (if b then entry ∷ old else old)
    branch true same =
        ap (λ r. take activity_limit (entry ∷ (lookup r m otherwise []))) (same refl)
        ∙ ap (λ l. take activity_limit (entry ∷ l)) h
        ∙ take-cons-take activity_limit entry old
    branch false same = h

add-log :
    (d e : String) (item : ExtractedItem) (old : List ExtractedItem) (m : Dict (List ExtractedItem))
    → (lookup d m otherwise []) ≡ take_last live_items_per_doc_limit old
    → (lookup d
          (insert e (take_last live_items_per_doc_limit ((lookup e m otherwise []) ++ item ∷ [])) m)
        otherwise [])
      ≡ take_last live_items_per_doc_limit (if str_eq e d then old ++ item ∷ [] else old)
add-log d e item old m h =
    let next = take_last live_items_per_doc_limit ((lookup e m otherwise []) ++ item ∷ []) in
    rw (lookup-insert e d next m) (branch (str_eq e d) (eq_iff e d).0)
  where
    branch :
        (b : Bool)
        → (b ≡ true → e ≡ d)
        → ((if b
              then some
                  (take_last live_items_per_doc_limit ((lookup e m otherwise []) ++ item ∷ []))
              else lookup d m)
            otherwise [])
          ≡ take_last live_items_per_doc_limit (if b then old ++ item ∷ [] else old)
    branch true same =
        ap (λ r. take_last live_items_per_doc_limit ((lookup r m otherwise []) ++ item ∷ []))
          (same refl)
        ∙ ap (λ l. take_last live_items_per_doc_limit (l ++ item ∷ [])) h
        ∙ take_last-concat live_items_per_doc_limit old item
    branch false same = h

activity_of-apply :
    (p : String) (a : Action) (s : PipelineState) (old : List ActivityEntry)
    → activity_of p s ≡ take activity_limit old
    → activity_of p (apply a s) ≡ take activity_limit (log_activity p a old)
unfolding apply set_pipeline_status push_pipeline_event record_doc_name record_extraction
    set_active_session set_session_closed set_connection_state set_last_state_change push_activity
    clear_pipeline add_live_item collapse_doc
activity_of-apply p (activity q entry) s old h = push-log p q entry old s.per_project_activity h
activity_of-apply p (hydration q rows) s old h = rw ((hydrate-fields q rows s).0) h
activity_of-apply p (collapse d) s old h = ground arith
activity_of-apply p _ s old h = h

live_items-apply :
    (d : String) (a : Action) (s : PipelineState) (old : List ExtractedItem)
    → live_items d s ≡ take_last live_items_per_doc_limit old
    → live_items d (apply a s) ≡ take_last live_items_per_doc_limit (log_items d a old)
unfolding apply set_pipeline_status push_pipeline_event record_doc_name record_extraction
    set_active_session set_session_closed set_connection_state set_last_state_change push_activity
    clear_pipeline add_live_item collapse_doc
live_items-apply d (live_item now item) s old h =
    add-log d item.document_id item old s.live_items_by_doc h
live_items-apply d (clear e) s old h = rw (lookup-delete e d s.live_items_by_doc) (ground arith)
live_items-apply d (hydration q rows) s old h = rw ((hydrate-fields q rows s).1) h
live_items-apply d (collapse e) s old h = ground arith
live_items-apply d _ s old h = h

activity_of-run-from :
    (p : String) (actions : List Action) (s : PipelineState) (old : List ActivityEntry)
    → activity_of p s ≡ take activity_limit old
    → activity_of p (run actions s) ≡ take activity_limit (all_activity p actions old)
unfolding run
activity_of-run-from p [] s old h = h
activity_of-run-from p (a ∷ actions) s old h =
    activity_of-run-from p actions (apply a s) (log_activity p a old)
      (activity_of-apply p a s old h)

live_items-run-from :
    (d : String) (actions : List Action) (s : PipelineState) (old : List ExtractedItem)
    → live_items d s ≡ take_last live_items_per_doc_limit old
    → live_items d (run actions s) ≡ take_last live_items_per_doc_limit (all_items d actions old)
unfolding run
live_items-run-from d [] s old h = h
live_items-run-from d (a ∷ actions) s old h =
    live_items-run-from d actions (apply a s) (log_items d a old) (live_items-apply d a s old h)

-- After any history of the store, a project shows the 80 newest activities that were pushed to it,
-- newest first: no other action drops or reorders one.
pub activity_of-run :
    (p : String) (actions : List Action)
    → activity_of p (run actions initial) ≡ take activity_limit (all_activity p actions [])
unfolding initial lookup
activity_of-run p actions = activity_of-run-from p actions initial [] refl

-- After any history of the store, a document shows the last 40 items that were extracted from it
-- since it was last cleared, oldest first.
pub live_items-run :
    (d : String) (actions : List Action)
    → live_items d (run actions initial)
      ≡ take_last live_items_per_doc_limit (all_items d actions [])
unfolding initial lookup
live_items-run d actions = live_items-run-from d actions initial [] refl
