-- ===== src/Documents/Panel.antt =====
-- The list of frontend/src/components/cockpit/DocumentsPanel.tsx: its order, its groups, and the
-- deletion that can be undone. `time` is `new Date(text).getTime()` of the backend's timestamps.
pub mod Shown
use open_pm.Common.{
  ℕ, ℤ, pos, negsuc, lez, String, Option, none, some, List, [], ◌∷◌, ◌++◌, Bool, true, false, not,
  ◌&&◌, leb, if◌then◌else◌, str_eq, keep, sort_by, map, contains, add, length, ◌&◌,
}

-- The fields of a document that the panel's logic reads.
pub record Document : Type 0 where
  pub id : String
  pub original_filename : String
  pub uploaded_at : String
  pub parent_document_id : Option String
  pub change_session_id : Option String

abbrev pub bulk_upload_threshold : ℕ
bulk_upload_threshold = 5

-- A string that is there and not empty.
abbrev pub given : Option String → Option String
given none = none
given (some s) = if str_eq s "" then none else some s

abbrev pub has_parent : Document → Bool
has_parent d = elim (given d.parent_document_id) [ none ↦ false | some p ↦ true ]

module _ (time : String → ℤ) where
  -- `time(b) - time(a)`, whose sign is all that counts.
  abbrev pub compare_newest : Document → Document → ℤ
  compare_newest a b =
      if lez (time b.uploaded_at) (time a.uploaded_at)
      then if lez (time a.uploaded_at) (time b.uploaded_at) then pos 0 else negsuc 0
      else pos 1

  unfoldable pub sorted : List Document → List Document
  sorted documents = sort_by compare_newest documents

-- The documents that are no attachments.
unfoldable pub top_level_docs : List Document → List Document
top_level_docs docs =
    let child_ids = map (λ d. d.id) (keep has_parent docs) in
    keep (λ d. not (contains d.id child_ids)) docs

abbrev pub in_session : String → Document → Bool
in_session sid d = elim (given d.change_session_id) [ none ↦ false | some s ↦ str_eq s sid ]

-- `sessionMembers.get(sid)`.
unfoldable pub members : String → List Document → List Document
members sid docs = keep (in_session sid) docs

pub data RenderEntry : Type 0 where
  single : Document → RenderEntry
  group : String → List Document → RenderEntry

-- The session of a document when it is to be shown as a group.
unfoldable pub big_session : List Document → Option String → Option String
big_session docs none = none
big_session docs (some sid) =
    if leb bulk_upload_threshold (length (members sid docs)) then some sid else none

-- What one round of the loop puts out.
unfoldable pub entry_of : List Document → List String → Document → Option String → List RenderEntry
entry_of docs emitted d none = single d ∷ []
entry_of docs emitted d (some sid) =
    if contains sid emitted then [] else group sid (members sid docs) ∷ []

-- `emittedGroups.add(sid)`.
abbrev pub note_group : List String → Option String → List String
note_group emitted none = emitted
note_group emitted (some sid) = add sid emitted

-- The loop over the rest of the documents, with the groups that are out.
unfoldable pub entries_from : List Document → List String → List Document → List RenderEntry
entries_from docs emitted [] = []
entries_from docs emitted (d ∷ rest) =
    let sid = big_session docs (given d.change_session_id) in
    entry_of docs emitted d sid ++ entries_from docs (note_group emitted sid) rest

unfoldable pub entries : List Document → List RenderEntry
entries docs = entries_from docs [] docs

-- The entries of the panel for the documents of the query.
unfoldable pub panel : (String → ℤ) → List Document → List RenderEntry
panel time documents = entries (top_level_docs (sorted time documents))
