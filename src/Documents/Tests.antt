-- ===== src/Documents/Tests.antt =====
-- Runs of the documents panel.
use open_pm.Common.{
  pos, String, Option, none, some, List, [], ◌∷◌, ◌≡◌, refl, true, false, Perm, All, get_elem?,
}
use open_pm.Documents.Panel.{Document, has_parent, top_level_docs, sorted, panel}
use open_pm.Documents.Panel.Shown.{shown, shown-panel}
use open_pm.Documents.Deletion.{Deletions, requested, elapsed, undo, request_delete, run}
use open_pm.Documents.Deletion.Undone.{deletions, run-undone}

abbrev doc : String → Option String → Option String → Document
doc id parent session = record {
  id = id;
  original_filename = id;
  uploaded_at = id;
  parent_document_id = parent;
  change_session_id = session;
}

abbrev documents : List Document
documents =
    doc "a" none (some "s")
    ∷ doc "b" (some "a") (some "s")
    ∷ doc "c" none (some "s")
    ∷ doc "d" none none
    ∷ doc "e" none (some "s")
    ∷ doc "f" none (some "s")
    ∷ doc "g" none (some "s")
    ∷ []

shown-panel_example :
    Perm (shown (panel (λ t. pos 5) documents)) (top_level_docs (sorted (λ t. pos 5) documents))
    × All (λ d. has_parent d ≡ false) (top_level_docs (sorted (λ t. pos 5) documents))
shown-panel_example = shown-panel (λ t. pos 5) documents

abbrev opened : Deletions
opened = record { cached = some documents; calls = []; pending = []; log = [] }

abbrev asked : Deletions
asked = request_delete (doc "d" none none) opened

asked-call :
    get_elem? asked.calls 0 ≡ some (record { doc_id = "d"; cancelled = false; waiting = true })
unfolding request_delete
asked-call = refl

run-undone_example :
    deletions 0
      (run (elapsed 0 ∷ requested (doc "c" none none) ∷ elapsed 1 ∷ []) (undo 0 asked)).log
    ≡ deletions 0 asked.log
run-undone_example =
    run-undone 0 (record { doc_id = "d"; cancelled = false; waiting = true }) asked
      (elapsed 0 ∷ requested (doc "c" none none) ∷ elapsed 1 ∷ []) asked-call
