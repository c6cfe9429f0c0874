-- ===== src/Documents/Deletion.antt =====
-- The deletion of a document with its time to undo it, `requestDelete` of
-- frontend/src/components/cockpit/DocumentsPanel.tsx. The calls of `requestDelete` are numbered; each
-- has its own timer and its own flag.
pub mod Undone
use open_pm.Common.{
  ℕ, zero, suc, String, Option, none, some, List, [], ◌∷◌, ◌++◌, Bool, true, false, not, ◌&&◌, ◌||◌,
  ◌otherwise◌, if◌then◌else◌, str_eq, keep, length, get_elem?, Dict, lookup, insert, delete, ◌&◌,
}
use open_pm.Documents.Panel.{Document}

pub record Deletion : Type 0 where
  pub doc_id : String
  pub cancelled : Bool
  -- The timer has neither gone off nor been cleared.
  pub waiting : Bool

pub data Effect : Type 0 where
  toast : String → Effect
  -- `deleteMutation.mutate(docId)`, by the number of the call.
  delete_document : ℕ → String → Effect
  restore_document : String → Effect
  invalidate_documents invalidate_state : Effect

pub record Deletions : Type 0 where
  pub cached : Option (List Document)
  pub calls : List Deletion
  -- `pendingDeletes`: the timer of a document, by the number of its call.
  pub pending : Dict ℕ
  pub log : List Effect

unfoldable pub update_at : ℕ → (Deletion → Deletion) → List Deletion → List Deletion
update_at n change [] = []
update_at zero change (c ∷ cs) = change c ∷ cs
update_at (suc n) change (c ∷ cs) = c ∷ update_at n change cs

unfoldable pub request_delete : Document → Deletions → Deletions
request_delete doc s = record {
  cached = some (keep (λ d. not (str_eq d.id doc.id)) (s.cached otherwise []));
  calls = s.calls ++ record { doc_id = doc.id; cancelled = false; waiting = true } ∷ [];
  pending = insert doc.id (length s.calls) s.pending;
  log = s.log ++ toast (doc.original_filename & " wird gelöscht…") ∷ [];
}

-- `if (t) clearTimeout(t)`.
abbrev pub clear_timer : Option ℕ → List Deletion → List Deletion
clear_timer none calls = calls
clear_timer (some t) calls = update_at t (λ c. record c { waiting = false }) calls

abbrev pub undo_of : ℕ → Option Deletion → Deletions → Deletions
undo_of n none s = s
undo_of n (some c) s = record s {
  calls =
      clear_timer (lookup c.doc_id s.pending)
        (update_at n (λ d. record d { cancelled = true }) s.calls);
  pending = delete c.doc_id s.pending;
  log = s.log ++ restore_document c.doc_id ∷ invalidate_documents ∷ invalidate_state ∷ [];
}

-- The user undoes call `n`.
unfoldable pub undo : ℕ → Deletions → Deletions
undo n s = undo_of n (get_elem? s.calls n) s

abbrev pub fire_of : ℕ → Option Deletion → Deletions → Deletions
fire_of n none s = s
fire_of n (some c) s =
    let stopped = record s { calls = update_at n (λ d. record d { waiting = false }) s.calls } in
    if not c.waiting then s else if c.cancelled then stopped else record stopped {
      pending = delete c.doc_id s.pending;
      log = s.log ++ delete_document n c.doc_id ∷ [];
    }

-- The time of call `n` is over.
unfoldable pub fire : ℕ → Deletions → Deletions
fire n s = fire_of n (get_elem? s.calls n) s

pub data Step : Type 0 where
  requested : Document → Step
  undone elapsed : ℕ → Step

unfoldable pub step : Step → Deletions → Deletions
step (requested doc) s = request_delete doc s
step (undone n) s = undo n s
step (elapsed n) s = fire n s

unfoldable pub run : List Step → Deletions → Deletions
run [] s = s
run (e ∷ es) s = run es (step e s)
