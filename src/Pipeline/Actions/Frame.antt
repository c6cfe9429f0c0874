-- ===== src/Pipeline/Actions/Frame.antt =====
-- Which documents an action can touch.
use open_pm.Common.{
  String, Option, none, List, ◌≡◌, Bool, false, arith, lookup, contains, str_eq, lookup-delete,
  contains-remove, if◌then◌else◌,
}
use open_pm.Pipeline.Types.{PipelineState, DocumentStatus, PipelineDetail, ExtractedItem}
use open_pm.Pipeline.Store.{clear_pipeline}
use open_pm.Common.{ℕ}

-- All that the store holds of a document.
pub record DocumentView : Type 0 where
  pub status : Option DocumentStatus
  pub detail : Option PipelineDetail
  pub project : Option String
  pub name : Option String
  pub items : Option (List ExtractedItem)
  pub last_at : Option ℕ
  pub expanded : Bool

abbrev pub view : String → PipelineState → DocumentView
view d s = record {
  status = lookup d s.pipelines;
  detail = lookup d s.details;
  project = lookup d s.doc_project;
  name = lookup d s.doc_names;
  items = lookup d s.live_items_by_doc;
  last_at = lookup d s.last_item_at_by_doc;
  expanded = contains d s.expanded_docs;
}

abbrev pub empty_view : DocumentView
empty_view = record {
  status = none;
  detail = none;
  project = none;
  name = none;
  items = none;
  last_at = none;
  expanded = false;
}

-- Clearing a document removes all that the store holds of it, and changes nothing of another one.
pub view-clear_pipeline :
    (d e : String) (s : PipelineState)
    → view e (clear_pipeline d s) ≡ (if str_eq d e then empty_view else view e s)
unfolding clear_pipeline
view-clear_pipeline d e s = ground (
  arith,
  lookup-delete d e s.pipelines,
  lookup-delete d e s.details,
  lookup-delete d e s.doc_project,
  lookup-delete d e s.doc_names,
  lookup-delete d e s.live_items_by_doc,
  lookup-delete d e s.last_item_at_by_doc,
  contains-remove d e s.expanded_docs,
)
