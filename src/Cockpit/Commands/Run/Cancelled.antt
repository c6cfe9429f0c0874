-- ===== src/Cockpit/Commands/Run/Cancelled.antt =====
-- What a slash command deletes.
use open_pm.Common.{
  Text, text_eq, text_eq_sound, String, Option, none, some, List, [], ◌∷◌, ◌++◌, ◌≡◌, refl, ap,
  Bool, true, false, units, is_empty, if◌then◌else◌, truthy, map, Bool-cases, inl, inr, ℤ, keep,
  keep-same, ◌∙◌,
}
use open_pm.Lines.{trim}
use open_pm.Chat.Slash.{
  SlashCommandName, status, tasks, deadlines, blockers, contacts, search as search_command, export,
  cancel, clear, version, help, raw_input,
}
use open_pm.Pipeline.Types.{
  DocumentRow, DocumentStatus, pending, processing, done, failed, completed_partial,
}
use open_pm.State.{ProjectState}
use open_pm.Cockpit.Commands.Run.{
  Answers, delete_document, Effect, requested, shown, toasted, with_state, run_selected,
  answer_with, export_answer, export_content, cancel_with, success, cancelled, run_search,
  run_export, active_documents, is_active, cancel_all, run_cancel, run_version, case_of, run_case,
  handle_slash_command,
}

-- The documents whose deletion is requested.
abbrev pub deleted : List Effect → List String
deleted [] = []
deleted (requested (delete_document id) ∷ es) = id ∷ deleted es
deleted (e ∷ es) = deleted es

deleted-cancel_all :
    (input : Text) (ds : List DocumentRow) → deleted (cancel_all input ds) ≡ map (λ d. d.id) ds
unfolding cancel_all
deleted-cancel_all input [] = refl
deleted-cancel_all input (d ∷ ds) = ap (λ l. d.id ∷ l) (requests ds)
  where
    requests :
        (xs : List DocumentRow)
        → deleted (
            map (λ x. requested (delete_document x.id)) xs
            ++ toasted success (cancelled (d ∷ ds))
              ∷ shown input (units "_" ++ cancelled (d ∷ ds) ++ units "._")
              ∷ [])
          ≡ map (λ x. x.id) xs
    requests [] = refl
    requests (x ∷ xs) = ap (λ l. x.id ∷ l) (requests xs)

deleted-answer_with :
    (input : Text) (f : ProjectState → Text) (o u : Option ProjectState)
    → deleted (answer_with input f o u).effects ≡ []
deleted-answer_with input f (some p) u = refl
deleted-answer_with input f none (some p) = refl
deleted-answer_with input f none none = refl

deleted-export_answer :
    (file input : Text) (b : Option (Option Text)) → deleted (export_answer file input b) ≡ []
deleted-export_answer file input none = refl
deleted-export_answer file input (some b) = content (truthy b)
  where
    content : (o : Option Text) → deleted (export_content file input o) ≡ []
    content none = refl
    content (some t) = refl

-- The documents that the cache holds, or else the server's.
abbrev pub known_documents : (cached fetched : Option (List DocumentRow)) → List DocumentRow
known_documents (some docs) u = docs
known_documents none (some docs) = docs
known_documents none none = []

-- The document still waits for its pipeline or is in it.
abbrev pub is_unfinished : DocumentRow → Bool
is_unfinished d = elim d.processing_status [ pending ↦ true | processing ↦ true | _ ↦ false ]

active_documents-keep : (ds : List DocumentRow) → active_documents ds ≡ keep is_unfinished ds
unfolding active_documents
active_documents-keep ds =
    keep-same (λ d. is_active d.processing_status) is_unfinished ds (λ d. same d.processing_status)
  where
    same :
        (s : DocumentStatus)
        → is_active s ≡ (elim s [ pending ↦ true | processing ↦ true | _ ↦ false ])
    same pending = refl
    same processing = refl
    same done = refl
    same failed = refl
    same completed_partial = refl

ids : List DocumentRow → List String
ids ds = map (λ d. d.id) ds

deleted-cancel_with :
    (input : Text) (o u : Option (List DocumentRow))
    → deleted (cancel_with input o u) ≡ ids (keep is_unfinished (known_documents o u))
unfolding ids keep
deleted-cancel_with input (some docs) u =
    deleted-cancel_all input (active_documents docs)
    ∙ ap (map (λ d. d.id)) (active_documents-keep docs)
deleted-cancel_with input none (some docs) =
    deleted-cancel_all input (active_documents docs)
    ∙ ap (map (λ d. d.id)) (active_documents-keep docs)
deleted-cancel_with input none none = refl

deleted-run_search :
    (percent : String → Text) (a : Answers) (input arg : Text)
    → deleted (run_search percent a input arg).effects ≡ []
unfolding run_search
deleted-run_search percent a input arg = elim (Bool-cases (is_empty (trim arg))) [
  | inl e ↦ rw e refl
  | inr e ↦ rw e refl
]

-- The documents that the cache holds, or else the server's, and whose pipeline is not over; and
-- those that a command is to delete.
abbrev pub unfinished : Answers → List DocumentRow
unfinished a = keep is_unfinished (known_documents a.cached_documents a.fetched_documents)

abbrev pub to_cancel : Answers → Option SlashCommandName → List DocumentRow
to_cancel a (some cancel) = unfinished a
to_cancel a c = []

module _ (compare : Text → Text → ℤ) (percent : String → Text) (local_time : Text → Text) where
  deleted-run_case :
      (a : Answers) (input arg : Text) (c : SlashCommandName)
      → deleted (run_case compare percent local_time a input arg c).effects
        ≡ ids (to_cancel a (some c))
  unfolding run_case with_state run_export run_cancel run_version ids
  deleted-run_case a input arg status = deleted-answer_with input _ a.cached_state a.fetched_state
  deleted-run_case a input arg tasks = deleted-answer_with input _ a.cached_state a.fetched_state
  deleted-run_case a input arg deadlines =
      deleted-answer_with input _ a.cached_state a.fetched_state
  deleted-run_case a input arg blockers = deleted-answer_with input _ a.cached_state a.fetched_state
  deleted-run_case a input arg contacts = deleted-answer_with input _ a.cached_state a.fetched_state
  deleted-run_case a input arg search_command = deleted-run_search percent a input arg
  deleted-run_case a input arg export =
      deleted-export_answer (units "briefing-" ++ a.today ++ units ".md") input a.briefing
  deleted-run_case a input arg cancel =
      deleted-cancel_with input a.cached_documents a.fetched_documents
  deleted-run_case a input arg clear = refl
  deleted-run_case a input arg version = refl
  deleted-run_case a input arg help = refl

  to_cancel-case_of :
      (a : Answers) (name : Text)
      → to_cancel a (case_of name) ≡ (if text_eq name (units "cancel") then unfinished a else [])
  unfolding case_of
  to_cancel-case_of a name = skip status _ (units "status") refl refl (
      skip tasks _ (units "tasks") refl refl (
        skip deadlines _ (units "deadlines") refl refl (
          skip blockers _ (units "blockers") refl refl (
            skip contacts _ (units "contacts") refl refl (
              skip search_command _ (units "search") refl refl (
                skip export _ (units "export") refl refl (
                  hit _ (λ e.
                    skip clear _ (units "clear") refl refl (
                      skip version _ (units "version") refl refl
                        (skip help _ (units "help") refl refl (rw e refl)))
                    ∙ rw e refl))))))))
    where
      hit :
          (later : Option SlashCommandName)
          → (text_eq name (units "cancel") ≡ false → to_cancel a later ≡ [])
          → to_cancel a (if text_eq name (units "cancel") then some cancel else later)
            ≡ (if text_eq name (units "cancel") then unfinished a else [])
      hit later h = elim (Bool-cases (text_eq name (units "cancel"))) [
        | inl e ↦ rw e refl
        | inr e ↦ rw e (h e)
      ]

      skip :
          (c : SlashCommandName) (later : Option SlashCommandName) (key : Text)
          → text_eq key (units "cancel") ≡ false
          → to_cancel a (some c) ≡ []
          → to_cancel a later ≡ (if text_eq name (units "cancel") then unfinished a else [])
          → to_cancel a (if text_eq name key then some c else later)
            ≡ (if text_eq name (units "cancel") then unfinished a else [])
      skip c later key differs none_deleted h = elim (Bool-cases (text_eq name key)) [
        | inl e ↦
            let other : text_eq name (units "cancel") ≡ false =
              ap (λ t. text_eq t (units "cancel")) (text_eq_sound name key e) ∙ differs in
            rw (e, other) none_deleted
        | inr e ↦ rw e h
      ]

  -- Whatever the answers are, the only command that deletes documents is `cancel`, and it requests
  -- the deletion of exactly the pending and processing documents among those that the cache holds,
  -- or else the server's, each once and in their order.
  pub deleted-handle_slash_command :
      (a : Answers) (name arg : Text)
      → deleted (handle_slash_command compare percent local_time a name arg).effects
        ≡ map (λ d. d.id) (if text_eq name (units "cancel") then unfinished a else [])
  unfolding handle_slash_command
  deleted-handle_slash_command a name arg =
      deletes (case_of name) ∙ ap (map (λ d. d.id)) (to_cancel-case_of a name)
    where
      deletes :
          (o : Option SlashCommandName)
          → deleted
              (run_selected compare percent local_time a (raw_input name arg) name arg o).effects
            ≡ map (λ d. d.id) (to_cancel a o)
      deletes none = refl
      deletes (some c) = unfold ids in deleted-run_case a (raw_input name arg) arg c
