-- ===== src/Cockpit/Commands/Run.antt =====
-- `handleSlashCommand` of frontend/src/components/cockpit/CockpitLayout.tsx: what a command asks
-- the server and does to the page, in order, from what the cache and the server answer.
pub mod Cancelled
pub mod Exchange
pub mod Registry
use open_pm.Common.{
  Text, String, Option, none, some, List, [], ◌∷◌, ◌++◌, Bool, true, false, not, units, text_eq,
  is_empty, if◌then◌else◌, truthy, decimal, keep, map, length, ltb, ◌||◌, ◌otherwise◌, ℤ,
}
use open_pm.Lines.{trim}
use open_pm.Chat.Slash.{
  SlashCommandName, status, tasks, deadlines, blockers, contacts, search as search_command, export,
  cancel, clear, version, help, raw_input,
}
use open_pm.Pipeline.Types.{DocumentRow, DocumentStatus, pending, processing}
use open_pm.State.{ProjectState, StateChangelog}
use open_pm.Cockpit.Commands.{
  core_of, status_page, listed_tasks, tasks_page, deadlines_page, blockers_page, contacts_page,
  SearchResult, search_page, version_page, help_page,
}

-- What the query cache holds and the server answers; `none` for an answer is a call that throws.
pub record Answers : Type 0 where
  pub today : Text
  pub cached_state : Option ProjectState
  pub fetched_state : Option ProjectState
  pub found : Option (List SearchResult)
  -- `compiled_briefing` of the project.
  pub briefing : Option (Option Text)
  pub cached_documents : Option (List DocumentRow)
  pub fetched_documents : Option (List DocumentRow)
  pub history : Option (List StateChangelog)

pub data Request : Type 0 where
  get_state get_project get_documents get_history post_session : Request
  post_search : Text → Request
  delete_document : String → Request

pub data Notice : Type 0 where
  info success failure : Notice

pub data Effect : Type 0 where
  requested : Request → Effect
  -- `pushLocalMessages(user, assistant)`.
  shown : (user assistant : Text) → Effect
  toasted : Notice → Text → Effect
  downloaded : (name content : Text) → Effect
  back_to_landing : Effect

-- `rejects` when the handler throws.
pub record Outcome : Type 0 where
  pub effects : List Effect
  pub rejects : Bool

abbrev pub finished : List Effect → Outcome
finished es = record { effects = es; rejects = false }

-- The cases that need the state: from the cache, or else from the server.
abbrev pub answer_with :
    Text → (ProjectState → Text) → (cached fetched : Option ProjectState) → Outcome
answer_with input page_of (some p) u = finished (shown input (page_of p) ∷ [])
answer_with input page_of none (some p) =
    finished (requested get_state ∷ shown input (page_of p) ∷ [])
answer_with input page_of none none = record { effects = requested get_state ∷ []; rejects = true }

unfoldable pub with_state : Answers → Text → (ProjectState → Text) → Outcome
with_state a input page_of = answer_with input page_of a.cached_state a.fetched_state

module _ (percent : String → Text) where
  unfoldable pub run_search : Answers → Text → Text → Outcome
  run_search a input arg =
      if is_empty (trim arg)
      then finished
          (shown input (units "_Bitte einen Suchbegriff angeben: `/search <Begriff>`_") ∷ [])
      else finished (
          requested (post_search arg)
          ∷ shown input (elim a.found [
            | none ↦ units "_Suche fehlgeschlagen. Bitte erneut versuchen._"
            | some results ↦ search_page percent arg results
          ])
          ∷ [])

abbrev pub export_content : Text → Text → Option Text → List Effect
export_content file input none = toasted info (units "Kein Briefing vorhanden") ∷ []
export_content file input (some content) =
    downloaded file content
    ∷ shown input (units "_Briefing als `" ++ file ++ units "` heruntergeladen._")
    ∷ []

abbrev pub export_answer : Text → Text → Option (Option Text) → List Effect
export_answer file input none = toasted failure (units "Export fehlgeschlagen") ∷ []
export_answer file input (some briefing) = export_content file input (truthy briefing)

unfoldable pub run_export : Answers → Text → Outcome
run_export a input =
    let file = units "briefing-" ++ a.today ++ units ".md" in
    finished (requested get_project ∷ export_answer file input a.briefing)

-- `d.processing_status === "pending" || d.processing_status === "processing"`.
abbrev pub is_active : DocumentStatus → Bool
is_active pending = true
is_active processing = true
is_active _ = false

unfoldable pub active_documents : List DocumentRow → List DocumentRow
active_documents docs = keep (λ d. is_active d.processing_status) docs

abbrev pub cancelled : List DocumentRow → Text
cancelled ds =
    decimal (length ds)
    ++ units " Pipeline"
    ++ (if ltb 1 (length ds) then units "s" else [])
    ++ units " abgebrochen"

-- `Promise.allSettled` waits for every request and never throws.
unfoldable pub cancel_all : Text → List DocumentRow → List Effect
cancel_all input [] = shown input (units "_Keine laufenden Pipelines gefunden._") ∷ []
cancel_all input (d ∷ ds) =
    map (λ x. requested (delete_document x.id)) (d ∷ ds)
    ++ toasted success (cancelled (d ∷ ds))
      ∷ shown input (units "_" ++ cancelled (d ∷ ds) ++ units "._")
      ∷ []

abbrev pub cancel_with : Text → (cached fetched : Option (List DocumentRow)) → List Effect
cancel_with input (some docs) u = cancel_all input (active_documents docs)
cancel_with input none (some docs) =
    requested get_documents ∷ cancel_all input (active_documents docs)
cancel_with input none none =
    requested get_documents ∷ toasted failure (units "Abbruch fehlgeschlagen") ∷ []

unfoldable pub run_cancel : Answers → Text → Outcome
run_cancel a input = finished (cancel_with input a.cached_documents a.fetched_documents)

unfoldable pub run_version : (Text → Text) → Answers → Text → Outcome
run_version local_time a input = finished (
    requested get_state
    ∷ requested get_history
    ∷ shown input (elim a.fetched_state [
      | none ↦ units "_Versionsdaten nicht verfügbar._"
      | some p ↦ elim a.history [
        | none ↦ units "_Versionsdaten nicht verfügbar._"
        | some history ↦ version_page local_time p history
      ]
    ])
    ∷ [])

-- The case of the `switch` that a name selects.
unfoldable pub case_of : Text → Option SlashCommandName
case_of name =
    if text_eq name (units "status")
    then some status
    else if text_eq name (units "tasks")
    then some tasks
    else if text_eq name (units "deadlines")
    then some deadlines
    else if text_eq name (units "blockers")
    then some blockers
    else if text_eq name (units "contacts")
    then some contacts
    else if text_eq name (units "search")
    then some search_command
    else if text_eq name (units "export")
    then some export
    else if text_eq name (units "cancel")
    then some cancel
    else if text_eq name (units "clear")
    then some clear
    else if text_eq name (units "version")
    then some version
    else if text_eq name (units "help")
    then some help
    else none

module _ (compare : Text → Text → ℤ) (percent : String → Text) (local_time : Text → Text) where
  unfoldable pub run_case : Answers → Text → Text → SlashCommandName → Outcome
  run_case a input arg status = with_state a input status_page
  run_case a input arg tasks = with_state a input (λ p. tasks_page compare (listed_tasks compare p))
  run_case a input arg deadlines =
      with_state a input (λ p. deadlines_page compare a.today ((core_of p).deadlines otherwise []))
  run_case a input arg blockers =
      with_state a input (λ p. blockers_page ((core_of p).blockers otherwise []))
  run_case a input arg contacts =
      with_state a input (λ p. contacts_page ((core_of p).contacts otherwise []))
  run_case a input arg search_command = run_search percent a input arg
  run_case a input arg export = run_export a input
  run_case a input arg cancel = run_cancel a input
  run_case a input arg clear = finished (requested post_session ∷ back_to_landing ∷ [])
  run_case a input arg version = run_version local_time a input
  run_case a input arg help = finished (shown input help_page ∷ [])

  -- The case that was selected, or the default.
  abbrev pub run_selected : Answers → Text → Text → Text → Option SlashCommandName → Outcome
  run_selected a input name arg (some c) = run_case a input arg c
  run_selected a input name arg none =
      let reply =
        units "_Unbekannter Befehl: `/" ++ name ++ units "`. Tippe `/help` für eine Übersicht._" in
      finished (shown input reply ∷ [])

  unfoldable pub handle_slash_command : Answers → Text → Text → Outcome
  handle_slash_command a name arg = run_selected a (raw_input name arg) name arg (case_of name)
