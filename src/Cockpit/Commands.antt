-- ===== src/Cockpit/Commands.antt =====
-- What the slash commands of the cockpit print, in frontend/src/components/cockpit/CockpitLayout.tsx.
-- `compare` is `String.prototype.localeCompare`, `percent` is `(score * 100).toFixed(0)` on the
-- literal of the score, and `local_time` is `new Date(text).toLocaleString("de-DE")`.
pub mod Run
pub mod Lists
use open_pm.Common.{
  ℕ, suc, Text, String, Option, none, some, List, [], ◌∷◌, ◌++◌, Bool, true, false, not, units,
  ◌||◌, is_empty, if◌then◌else◌, is_some, join_texts, ◌otherwise◌, truthy, decimal, keep, sort_by,
  map, length, take, ℤ, pos, negsuc, text_lt, ltb, ◌==◌,
}
use open_pm.State.{
  Task, TaskStatus, done, blocked, open_task, Contact, Blocker, Deadline, StateCore, StateData,
  ProjectState, StateChangelog,
}

-- `lines.join("\n")`.
abbrev pub page : List Text → Text
page lines = join_texts (10 ∷ []) lines

-- `core.field?.length ?? 0`.
abbrev count {ℓ} : {A : Type ℓ} → Option (List A) → ℕ
count none = 0
count (some xs) = length xs

abbrev pub no_core : StateCore
no_core = record {
  contacts = none;
  open_tasks = none;
  deadlines = none;
  decisions = none;
  blockers = none;
}

-- `stateData?.state?.core ?? {}`, whose missing lists then read as empty.
abbrev pub core_of : ProjectState → StateCore
core_of p = p.state.core otherwise no_core

abbrev row : Text → Text → Text
row label value = units "| " ++ label ++ units " | " ++ value ++ units " |"

unfoldable pub status_page : ProjectState → Text
status_page p =
    let core = core_of p in
    page (
      units "## Projektstatus"
      ∷ []
      ∷ units "| Bereich | Anzahl |"
      ∷ units "|---|---|"
      ∷ row (units "Offene Aufgaben") (decimal (count core.open_tasks))
      ∷ row (units "Fristen") (decimal (count core.deadlines))
      ∷ row (units "Blocker") (decimal (count core.blockers))
      ∷ row (units "Kontakte") (decimal (count core.contacts))
      ∷ row (units "Entscheidungen") (decimal (count core.decisions))
      ∷ row (units "State-Version") (decimal p.version)
      ∷ [])

abbrev pub is_done : TaskStatus → Bool
is_done done = true
is_done _ = false

abbrev pub is_blocked : TaskStatus → Bool
is_blocked blocked = true
is_blocked _ = false

-- `before` and a value that is there, or nothing.
abbrev pub after : String → Option Text → Text
after before value = elim (truthy value) [ none ↦ [] | some t ↦ units before ++ t ]

unfoldable pub task_line : Task → Text
task_line t =
    units "- **"
    ++ t.title
    ++ units "**"
    ++ (if is_blocked t.status then units " 🔴" else [])
    ++ after " · Fällig: " t.deadline
    ++ after " · " t.assignee

-- `!d.date || d.date >= today`.
abbrev pub is_upcoming : Text → Deadline → Bool
is_upcoming today d = elim (truthy d.date) [ none ↦ true | some date ↦ not (text_lt date today) ]

-- `d.date && d.date < today`.
abbrev pub is_overdue : Text → Deadline → Bool
is_overdue today d = elim (truthy d.date) [ none ↦ false | some date ↦ text_lt date today ]

abbrev pub date_of : Deadline → Text
date_of d = d.date otherwise []

module _ (compare : Text → Text → ℤ) where
  -- The comparison that sorts the tasks.
  abbrev pub compare_due : Option Text → Option Text → ℤ
  compare_due none none = pos 0
  compare_due none (some b) = pos 1
  compare_due (some a) none = negsuc 0
  compare_due (some a) (some b) = compare a b

  abbrev pub compare_tasks : Task → Task → ℤ
  compare_tasks a b = compare_due (truthy a.deadline) (truthy b.deadline)

  unfoldable pub listed_tasks : ProjectState → List Task
  listed_tasks p =
      let all = (core_of p).open_tasks otherwise [] in
      sort_by compare_tasks (keep (λ t. not (is_done t.status)) all)

  unfoldable pub tasks_page : List Task → Text
  tasks_page [] = units "_Keine offenen Aufgaben._"
  tasks_page (t ∷ ts) = page (units "## Offene Aufgaben" ∷ [] ∷ map task_line (t ∷ ts))

  unfoldable pub upcoming_deadlines : Text → List Deadline → List Deadline
  upcoming_deadlines today all =
      sort_by (λ a b. compare (date_of a) (date_of b)) (keep (is_upcoming today) all)

  unfoldable pub overdue_deadlines : Text → List Deadline → List Deadline
  overdue_deadlines today all =
      sort_by (λ a b. compare (date_of b) (date_of a)) (keep (is_overdue today) all)

  unfoldable pub upcoming_line : Deadline → Text
  upcoming_line d = units "- **" ++ d.title ++ units "**" ++ after " — " d.date

  unfoldable pub overdue_line : Deadline → Text
  overdue_line d = units "- ~~" ++ d.title ++ units "~~ — " ++ date_of d

  -- A heading with its lines, when there are any.
  abbrev titled : List Text → List Text → List Text
  titled heading [] = []
  titled heading (l ∷ ls) = heading ++ l ∷ ls

  unfoldable pub deadlines_page : Text → List Deadline → Text
  deadlines_page today [] = units "_Keine Fristen eingetragen._"
  deadlines_page today (d ∷ ds) = page (
      units "## Fristen"
        ∷ []
        ∷ titled (units "**Bevorstehend**" ∷ [] ∷ [])
            (map upcoming_line (upcoming_deadlines today (d ∷ ds)))
      ++ titled ([] ∷ units "**Überfällig**" ∷ [] ∷ [])
          (map overdue_line (overdue_deadlines today (d ∷ ds))))

-- A blocker without its title prints as JavaScript prints `undefined`.
unfoldable pub blocker_line : Blocker → Text
blocker_line b =
    units "- **"
    ++ (b.title otherwise units "undefined")
    ++ units "**"
    ++ elim (truthy b.description) [ none ↦ [] | some t ↦ 10 ∷ units "  " ++ t ]

unfoldable pub blockers_page : List Blocker → Text
blockers_page [] = units "_Keine Blocker._"
blockers_page (b ∷ bs) = page (units "## Blocker" ∷ [] ∷ map blocker_line (b ∷ bs))

unfoldable pub contact_line : Contact → Text
contact_line c =
    units "- **" ++ c.name ++ units "**" ++ after " · " (some c.role) ++ after " · " c.email

unfoldable pub contacts_page : List Contact → Text
contacts_page [] = units "_Keine Kontakte._"
contacts_page (c ∷ cs) = page (units "## Kontakte" ∷ [] ∷ map contact_line (c ∷ cs))

pub record SearchResult : Type 0 where
  pub chunk_text : Text
  pub document_id : String
  pub source_filename : Text
  pub score : String

-- `chunk_text.slice(0, 200).replace(/\n/g, " ")`.
abbrev pub snippet : Text → Text
snippet chunk = map (λ c. if c == 10 then 32 else c) (take 200 chunk)

module _ (percent : String → Text) where
  -- The lines of the results from the `i`-th on.
  unfoldable pub result_lines : ℕ → List SearchResult → List Text
  result_lines i [] = []
  result_lines i (r ∷ rs) =
      (units "**"
        ++ decimal (suc i)
        ++ units ". "
        ++ r.source_filename
        ++ units "** (Score: "
        ++ percent r.score
        ++ units "%)")
      ∷ (units "> "
          ++ snippet r.chunk_text
          ++ (if ltb 200 (length r.chunk_text) then units "…" else []))
      ∷ []
      ∷ result_lines (suc i) rs

  unfoldable pub search_page : Text → List SearchResult → Text
  search_page query [] = units "_Keine Treffer für „" ++ query ++ units "\"._"
  search_page query (r ∷ rs) =
      page ((units "## Suche: „" ++ query ++ units "\"") ∷ [] ∷ result_lines 0 (r ∷ rs))

module _ (local_time : Text → Text) where
  -- The lines on the newest changelog.
  abbrev changelog_lines : List StateChangelog → List Text
  changelog_lines [] = []
  changelog_lines (c ∷ cs) =
      units "**Letzter Changelog:**"
      ∷ (units "- Version "
          ++ elim c.from_version [ none ↦ units "–" | some n ↦ decimal n ]
          ++ units " → "
          ++ decimal c.to_version)
      ∷ (units "- Auslöser: `" ++ c.triggered_by ++ units "`")
      ∷ (units "- " ++ local_time c.created_at)
      ∷ []

  unfoldable pub version_page : ProjectState → List StateChangelog → Text
  version_page p history = page (
      units "## State-Version"
      ∷ []
      ∷ (units "**Aktuelle Version:** " ++ decimal p.version)
      ∷ []
      ∷ changelog_lines history)

unfoldable pub help_page : Text
help_page = page (
    units "## Slash-Befehle"
    ∷ []
    ∷ units "| Befehl | Beschreibung |"
    ∷ units "|---|---|"
    ∷ units "| `/status` | Projekt-Zusammenfassung |"
    ∷ units "| `/tasks` | Offene Aufgaben nach Fälligkeitsdatum |"
    ∷ units "| `/deadlines` | Bevorstehende & überfällige Fristen |"
    ∷ units "| `/blockers` | Offene Blocker |"
    ∷ units "| `/contacts` | Kontaktliste |"
    ∷ units "| `/search <Begriff>` | Semantische Dokumentensuche |"
    ∷ units "| `/export` | Briefing als .md herunterladen |"
    ∷ units "| `/cancel` | Laufende Pipelines abbrechen |"
    ∷ units "| `/clear` | Neuen Chat starten |"
    ∷ units "| `/version` | State-Version & letzter Changelog |"
    ∷ units "| `/help` | Diese Übersicht |"
    ∷ [])
