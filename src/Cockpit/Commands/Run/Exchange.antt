-- ===== src/Cockpit/Commands/Run/Exchange.antt =====
-- How often a slash command answers on the page.
use open_pm.Common.{
  Text, String, Option, none, some, List, [], ◌∷◌, ◌++◌, ◌≡◌, refl, Bool, true, false, not, units,
  is_empty, if◌then◌else◌, truthy, map, ◌||◌, ◌&&◌, Bool-cases, inl, inr, ℤ, is_some,
}
use open_pm.Lines.{trim}
use open_pm.Chat.Slash.{
  SlashCommandName, status, tasks, deadlines, blockers, contacts, search as search_command, export,
  cancel, clear, version, help, raw_input,
}
use open_pm.Pipeline.Types.{DocumentRow}
use open_pm.State.{ProjectState}
use open_pm.Cockpit.Commands.Run.{
  Answers, delete_document, Effect, requested, shown, toasted, with_state, run_selected,
  answer_with, export_answer, export_content, cancel_with, success, cancelled, run_search,
  run_export, active_documents, cancel_all, run_cancel, run_version, case_of, run_case,
  handle_slash_command,
}

-- The exchanges on the page.
abbrev pub exchanges : List Effect → List Text
exchanges [] = []
exchanges (shown user assistant ∷ es) = user ∷ exchanges es
exchanges (e ∷ es) = exchanges es

abbrev pub has_state : Answers → Bool
has_state a = is_some a.cached_state || is_some a.fetched_state

abbrev pub has_briefing : Option (Option Text) → Bool
has_briefing none = false
has_briefing (some b) = is_some (truthy b)

-- Whether the data of a command arrives that it needs for an answer.
abbrev pub has_answer : Answers → SlashCommandName → Bool
has_answer a status = has_state a
has_answer a tasks = has_state a
has_answer a deadlines = has_state a
has_answer a blockers = has_state a
has_answer a contacts = has_state a
has_answer a search_command = true
has_answer a export = has_briefing a.briefing
has_answer a cancel = is_some a.cached_documents || is_some a.fetched_documents
has_answer a clear = false
has_answer a version = true
has_answer a help = true

abbrev pub once : Bool → Text → List Text
once shows input = if shows then input ∷ [] else []

exchanges-answer_with :
    (input : Text) (f : ProjectState → Text) (o u : Option ProjectState)
    → exchanges (answer_with input f o u).effects ≡ once (is_some o || is_some u) input
exchanges-answer_with input f (some p) u = refl
exchanges-answer_with input f none (some p) = refl
exchanges-answer_with input f none none = refl

exchanges-export_answer :
    (file input : Text) (b : Option (Option Text))
    → exchanges (export_answer file input b) ≡ once (has_briefing b) input
exchanges-export_answer file input none = refl
exchanges-export_answer file input (some b) = content (truthy b)
  where
    content : (o : Option Text) → exchanges (export_content file input o) ≡ once (is_some o) input
    content none = refl
    content (some t) = refl

exchanges-cancel_all :
    (input : Text) (ds : List DocumentRow) → exchanges (cancel_all input ds) ≡ input ∷ []
unfolding cancel_all
exchanges-cancel_all input [] = refl
exchanges-cancel_all input (d ∷ ds) = requests ds
  where
    requests :
        (xs : List DocumentRow)
        → exchanges (
            map (λ x. requested (delete_document x.id)) xs
            ++ toasted success (cancelled (d ∷ ds))
              ∷ shown input (units "_" ++ cancelled (d ∷ ds) ++ units "._")
              ∷ [])
          ≡ input ∷ []
    requests [] = refl
    requests (x ∷ xs) = requests xs

exchanges-cancel_with :
    (input : Text) (o u : Option (List DocumentRow))
    → exchanges (cancel_with input o u) ≡ once (is_some o || is_some u) input
exchanges-cancel_with input (some docs) u = exchanges-cancel_all input (active_documents docs)
exchanges-cancel_with input none (some docs) = exchanges-cancel_all input (active_documents docs)
exchanges-cancel_with input none none = refl

exchanges-run_search :
    (percent : String → Text) (a : Answers) (input arg : Text)
    → exchanges (run_search percent a input arg).effects ≡ input ∷ []
unfolding run_search
exchanges-run_search percent a input arg = elim (Bool-cases (is_empty (trim arg))) [
  | inl e ↦ rw e refl
  | inr e ↦ rw e refl
]

rejects-answer_with :
    (input : Text) (f : ProjectState → Text) (o u : Option ProjectState)
    → (answer_with input f o u).rejects ≡ not (is_some o || is_some u)
rejects-answer_with input f (some p) u = refl
rejects-answer_with input f none (some p) = refl
rejects-answer_with input f none none = refl

rejects-run_search :
    (percent : String → Text) (a : Answers) (input arg : Text)
    → (run_search percent a input arg).rejects ≡ false
unfolding run_search
rejects-run_search percent a input arg = elim (Bool-cases (is_empty (trim arg))) [
  | inl e ↦ rw e refl
  | inr e ↦ rw e refl
]

abbrev pub needs_state : Option SlashCommandName → Bool
needs_state (some status) = true
needs_state (some tasks) = true
needs_state (some deadlines) = true
needs_state (some blockers) = true
needs_state (some contacts) = true
needs_state c = false

-- An unknown name is always answered.
abbrev pub is_answered : Answers → Option SlashCommandName → Bool
is_answered a none = true
is_answered a (some c) = has_answer a c

module _ (compare : Text → Text → ℤ) (percent : String → Text) (local_time : Text → Text) where
  exchanges-run_case :
      (a : Answers) (input arg : Text) (c : SlashCommandName)
      → exchanges (run_case compare percent local_time a input arg c).effects
        ≡ once (has_answer a c) input
  unfolding run_case with_state run_export run_cancel run_version
  exchanges-run_case a input arg status =
      exchanges-answer_with input _ a.cached_state a.fetched_state
  exchanges-run_case a input arg tasks =
      exchanges-answer_with input _ a.cached_state a.fetched_state
  exchanges-run_case a input arg deadlines =
      exchanges-answer_with input _ a.cached_state a.fetched_state
  exchanges-run_case a input arg blockers =
      exchanges-answer_with input _ a.cached_state a.fetched_state
  exchanges-run_case a input arg contacts =
      exchanges-answer_with input _ a.cached_state a.fetched_state
  exchanges-run_case a input arg search_command = exchanges-run_search percent a input arg
  exchanges-run_case a input arg export =
      exchanges-export_answer (units "briefing-" ++ a.today ++ units ".md") input a.briefing
  exchanges-run_case a input arg cancel =
      exchanges-cancel_with input a.cached_documents a.fetched_documents
  exchanges-run_case a input arg clear = refl
  exchanges-run_case a input arg version = refl
  exchanges-run_case a input arg help = refl

  rejects-run_case :
      (a : Answers) (input arg : Text) (c : SlashCommandName)
      → (run_case compare percent local_time a input arg c).rejects
        ≡ (needs_state (some c) && not (has_state a))
  unfolding run_case with_state run_export run_cancel run_version
  rejects-run_case a input arg status = rejects-answer_with input _ a.cached_state a.fetched_state
  rejects-run_case a input arg tasks = rejects-answer_with input _ a.cached_state a.fetched_state
  rejects-run_case a input arg deadlines =
      rejects-answer_with input _ a.cached_state a.fetched_state
  rejects-run_case a input arg blockers = rejects-answer_with input _ a.cached_state a.fetched_state
  rejects-run_case a input arg contacts = rejects-answer_with input _ a.cached_state a.fetched_state
  rejects-run_case a input arg search_command = rejects-run_search percent a input arg
  rejects-run_case a input arg export = refl
  rejects-run_case a input arg cancel = refl
  rejects-run_case a input arg clear = refl
  rejects-run_case a input arg version = refl
  rejects-run_case a input arg help = refl

  -- For every command name and whatever the cache and the server answer: the handler shows the
  -- input as it was printed with one reply when the data of the command arrives (always for a name
  -- that it does not know, never for `clear`), and shows nothing otherwise; and it throws exactly
  -- when a command that prints the project's state finds it neither in the cache nor on the server.
  pub exchanges-handle_slash_command :
      (a : Answers) (name arg : Text)
      → (exchanges (handle_slash_command compare percent local_time a name arg).effects
          ≡ once (is_answered a (case_of name)) (raw_input name arg))
        × ((handle_slash_command compare percent local_time a name arg).rejects
            ≡ (needs_state (case_of name) && not (has_state a)))
  unfolding handle_slash_command
  exchanges-handle_slash_command a name arg = (shows (case_of name), throws (case_of name))
    where
      shows :
          (o : Option SlashCommandName)
          → exchanges
              (run_selected compare percent local_time a (raw_input name arg) name arg o).effects
            ≡ once (is_answered a o) (raw_input name arg)
      shows none = refl
      shows (some c) = exchanges-run_case a (raw_input name arg) arg c

      throws :
          (o : Option SlashCommandName)
          → (run_selected compare percent local_time a (raw_input name arg) name arg o).rejects
            ≡ (needs_state o && not (has_state a))
      throws none = refl
      throws (some c) = rejects-run_case a (raw_input name arg) arg c
