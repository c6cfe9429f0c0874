-- ===== src/Pipeline/Actions/Invariant.antt =====
-- What holds of the store after any history.
use open_pm.Common.{
  ℕ, String, none, some, List, [], ◌∷◌, ◌++◌, ◌≡◌, refl, Bool, true, false, arith, lookup, insert,
  contains, is_some, Dict, str_eq, eq_iff, lookup-insert, lookup-delete, contains-add,
  contains-remove, remove, not, if◌then◌else◌, ◌otherwise◌, length, ◌≤◌, All, All-append, All-drop,
  length-take-le, length-take_last-le, take_last, take,
}
use open_pm.Pipeline.Types.{PipelineState, ExtractedItem, ActivityEntry, DocumentRow}
use open_pm.Pipeline.Store.{
  initial, activity_of, live_items, activity_limit, live_items_per_doc_limit, add_live_item,
  push_activity, clear_pipeline, collapse_doc, set_pipeline_status, push_pipeline_event,
  record_doc_name, record_extraction, set_active_session, set_session_closed, set_connection_state,
  set_last_state_change,
}
use open_pm.Pipeline.Hydrate.{hydrate, hydrate_row}
use open_pm.Pipeline.Actions.{Action, activity, clear, live_item, collapse, hydration, apply, run}

module _ (activities : Dict (List ActivityEntry)) (items : Dict (List ExtractedItem))
    (times : Dict ℕ) (expanded : List String) where
  -- The invariant, over the four fields that it reads.
  pub record Consistent : Type 0 where
    pub activity_bounded : (p : String) → length (lookup p activities otherwise []) ≤ activity_limit
    pub live_bounded :
        (d : String) → length (lookup d items otherwise []) ≤ live_items_per_doc_limit
    pub live_owned :
        (d : String)
        → All (λ (item : ExtractedItem). item.document_id ≡ d) (lookup d items otherwise [])
    pub live_timed : (d : String) → is_some (lookup d items) ≡ is_some (lookup d times)
    pub expanded_live : (d : String) → contains d expanded ≡ true → is_some (lookup d items) ≡ true

-- The lists of the store are bounded, each live item stands under its own document, a document has
-- live items exactly if it has the time of the last one, and only such documents are expanded.
abbrev pub IsConsistent : PipelineState → Type 0
IsConsistent s =
    Consistent s.per_project_activity s.live_items_by_doc s.last_item_at_by_doc s.expanded_docs

pub initial-IsConsistent : IsConsistent initial
unfolding initial lookup contains
initial-IsConsistent = record {
  activity_bounded = λ p. omega arith;
  live_bounded = λ d. omega arith;
  live_owned = λ d. tt;
  live_timed = λ d. refl;
  expanded_live = λ d h. cc;
}

module _ (s : PipelineState) (inv : IsConsistent s) where
  push_activity-IsConsistent :
      (p : String) (entry : ActivityEntry) → IsConsistent (push_activity p entry s)
  unfolding push_activity
  push_activity-IsConsistent p entry = record {
    activity_bounded = λ q. ground (
      arith,
      inv.activity_bounded q,
      lookup-insert p q (take activity_limit (entry ∷ activity_of p s)) s.per_project_activity,
      length-take-le activity_limit (entry ∷ activity_of p s),
    );
    live_bounded = inv.live_bounded;
    live_owned = inv.live_owned;
    live_timed = inv.live_timed;
    expanded_live = inv.expanded_live;
  }

  clear_pipeline-IsConsistent : (d : String) → IsConsistent (clear_pipeline d s)
  unfolding clear_pipeline
  clear_pipeline-IsConsistent d = record {
    activity_bounded = inv.activity_bounded;
    live_bounded =
        λ e. rw (lookup-delete d e s.live_items_by_doc) (ground (arith, inv.live_bounded e));
    live_owned = λ e. rw (lookup-delete d e s.live_items_by_doc) (owned e (str_eq d e));
    live_timed = λ e. ground (
      arith,
      inv.live_timed e,
      lookup-delete d e s.live_items_by_doc,
      lookup-delete d e s.last_item_at_by_doc,
    );
    expanded_live = λ e h. ground (
      arith,
      inv.expanded_live e,
      lookup-delete d e s.live_items_by_doc,
      contains-remove d e s.expanded_docs,
    );
  }
    where
      owned :
          (e : String) (b : Bool)
          → All
              (λ (item : ExtractedItem). item.document_id ≡ e)
              ((if b then none else lookup e s.live_items_by_doc) otherwise [])
      owned e true = tt
      owned e false = inv.live_owned e

  add_live_item-owned :
      (item : ExtractedItem) (e : String)
      → All
          (λ (i : ExtractedItem). i.document_id ≡ e)
          (lookup e (
              insert item.document_id
                (take_last live_items_per_doc_limit (live_items item.document_id s ++ item ∷ []))
                s.live_items_by_doc)
            otherwise [])
  add_live_item-owned item e =
      rw (lookup-insert item.document_id e next s.live_items_by_doc)
        (at e (str_eq item.document_id e) (eq_iff item.document_id e).0)
    where
      next : List ExtractedItem
      next = take_last live_items_per_doc_limit (live_items item.document_id s ++ item ∷ [])

      at :
          (e : String) (b : Bool)
          → (b ≡ true → item.document_id ≡ e)
          → All
              (λ (i : ExtractedItem). i.document_id ≡ e)
              ((if b then some next else lookup e s.live_items_by_doc) otherwise [])
      at e true same =
          rw (← same refl)
            (All-drop _ _ _ (All-append _ _ _ (inv.live_owned item.document_id) (refl, tt)))
      at e false _ = inv.live_owned e

  add_live_item-IsConsistent :
      (now : ℕ) (item : ExtractedItem) → IsConsistent (add_live_item now item s)
  unfolding add_live_item
  add_live_item-IsConsistent now item =
      let d = item.document_id in
      let next = take_last live_items_per_doc_limit (live_items d s ++ item ∷ []) in
      record {
        activity_bounded = inv.activity_bounded;
        live_bounded = λ e. ground (
          arith,
          inv.live_bounded e,
          lookup-insert d e next s.live_items_by_doc,
          length-take_last-le live_items_per_doc_limit (live_items d s ++ item ∷ []),
        );
        live_owned = add_live_item-owned item;
        live_timed = λ e. ground (
          arith,
          inv.live_timed e,
          lookup-insert d e next s.live_items_by_doc,
          lookup-insert d e now s.last_item_at_by_doc,
        );
        expanded_live = λ e h. ground (
          arith,
          inv.expanded_live e,
          lookup-insert d e next s.live_items_by_doc,
          contains-add d e s.expanded_docs,
        );
      }

  collapse_doc-IsConsistent : (d : String) → IsConsistent (collapse_doc d s)
  unfolding collapse_doc
  collapse_doc-IsConsistent d = branch (contains d s.expanded_docs)
    where
      branch :
          (b : Bool)
          → IsConsistent
              (if not b then s else record s { expanded_docs = remove d s.expanded_docs })
      branch true = record {
        activity_bounded = inv.activity_bounded;
        live_bounded = inv.live_bounded;
        live_owned = inv.live_owned;
        live_timed = inv.live_timed;
        expanded_live =
            λ e h. ground (arith, inv.expanded_live e, contains-remove d e s.expanded_docs);
      }
      branch false = inv

hydrate-IsConsistent :
    (p : String) (rows : List DocumentRow) (s : PipelineState)
    → IsConsistent s
    → IsConsistent (hydrate p rows s)
unfolding hydrate hydrate_row
hydrate-IsConsistent p [] s inv = inv
hydrate-IsConsistent p (r ∷ rs) s inv = hydrate-IsConsistent p rs (hydrate_row p r s) inv

-- Every action keeps the invariant.
pub apply-IsConsistent :
    (a : Action) (s : PipelineState) → IsConsistent s → IsConsistent (apply a s)
unfolding apply set_pipeline_status push_pipeline_event record_doc_name record_extraction
    set_active_session set_session_closed set_connection_state set_last_state_change
apply-IsConsistent (activity p entry) s inv = push_activity-IsConsistent s inv p entry
apply-IsConsistent (clear d) s inv = clear_pipeline-IsConsistent s inv d
apply-IsConsistent (live_item now item) s inv = add_live_item-IsConsistent s inv now item
apply-IsConsistent (collapse d) s inv = collapse_doc-IsConsistent s inv d
apply-IsConsistent (hydration p rows) s inv = hydrate-IsConsistent p rows s inv
apply-IsConsistent _ s inv = inv

run-from-IsConsistent :
    (actions : List Action) (s : PipelineState) → IsConsistent s → IsConsistent (run actions s)
unfolding run
run-from-IsConsistent [] s inv = inv
run-from-IsConsistent (a ∷ actions) s inv =
    run-from-IsConsistent actions (apply a s) (apply-IsConsistent a s inv)

-- Whatever the history of the store, its lists are bounded (80 activities for a project, 40 live
-- items for a document), each live item stands under its own document, a document has live items
-- exactly if it has the time of the last one, and only such documents are expanded.
pub run-IsConsistent : (actions : List Action) → IsConsistent (run actions initial)
run-IsConsistent actions = run-from-IsConsistent actions initial initial-IsConsistent
