-- ===== src/Cockpit/Tests.antt =====
-- Runs of the cockpit: its slash commands.
use open_pm.Common.{
  Text, String, Option, none, some, List, [], ◌∷◌, ◌++◌, ◌≡◌, refl, true, false, arith, units, ℤ,
  pos, negsuc, lez, if◌then◌else◌, ltb, ◌==◌, IsOrder, Perm, keep, sort_by, IsSorted, All, map,
}
use open_pm.State.{Task, TaskStatus, open_task, done, blocked, Deadline, ProjectState}
use open_pm.Pipeline.Types.{DocumentRow, pending, processing}
use open_pm.Cockpit.Commands.{listed_tasks, upcoming_deadlines, overdue_deadlines, is_overdue}
use open_pm.Cockpit.Commands.Lists.{
  is_dated, is_undated, unfinished_tasks, by_due, listed_tasks_lem, by_date, deadlines_lem,
}
use open_pm.Common.{text_eq, place, leb, ◌&&◌, ◌+◌, not}
use open_pm.Lines.{trim_start}
use open_pm.Pipeline.Types.{DocumentStatus}
use open_pm.Chat.Slash.{name_of, search as search_command, raw_input, parse_slash_command}
use open_pm.Chat.Slash.Parse.{IsTrimmed, LowersLetters}
use open_pm.Cockpit.Commands.Run.{Answers, case_of, handle_slash_command}
use open_pm.Cockpit.Commands.Run.Exchange.{
  exchanges, once, is_answered, has_answer, has_state, needs_state, exchanges-handle_slash_command,
}
use open_pm.Cockpit.Commands.Run.Cancelled.{deleted, unfinished, deleted-handle_slash_command}
use open_pm.Cockpit.Commands.Run.Registry.{registered-handled}

-- Texts in the order of their code units.
unfoldable compare_units : Text → Text → ℤ
compare_units [] ys = negsuc 0
compare_units (x ∷ xs) [] = pos 1
compare_units (x ∷ xs) (y ∷ ys) =
    let later = compare_units xs ys in if ltb x y then negsuc 0 else if x == y then later else pos 1

compare_units-total :
    (a b : Text) → lez (compare_units a b) (pos 0) ≡ false → lez (compare_units b a) (pos 0) ≡ true
unfolding compare_units
compare_units-total [] b h = absurd (ground arith)
compare_units-total (x ∷ xs) [] h = refl
compare_units-total (x ∷ xs) (y ∷ ys) h = ground (arith, compare_units-total xs ys)

compare_units-chain :
    (a b c : Text)
    → lez (compare_units a b) (pos 0) ≡ true
    → lez (compare_units b c) (pos 0) ≡ true
    → lez (compare_units a c) (pos 0) ≡ true
unfolding compare_units
compare_units-chain [] b c h k = refl
compare_units-chain (x ∷ xs) [] c h k = absurd (ground arith)
compare_units-chain (x ∷ xs) (y ∷ ys) [] h k = absurd (ground arith)
compare_units-chain (x ∷ xs) (y ∷ ys) (z ∷ zs) h k = ground (arith, compare_units-chain xs ys zs)

units_order : IsOrder compare_units
units_order = record { total = compare_units-total; chain = compare_units-chain }

abbrev task : String → TaskStatus → Option Text → Task
task title status deadline = record {
  id = title;
  title = units title;
  status = status;
  deadline = deadline;
  assignee = none;
  source_document_id = none;
  source_document_ids = none;
  confidence = none;
}

abbrev deadline : String → Option Text → Deadline
deadline title date = record {
  id = none;
  title = units title;
  date = date;
  description = none;
  source_document_ids = none;
  confidence = none;
}

abbrev some_deadlines : List Deadline
some_deadlines =
    deadline "Abgabe" (some (units "2026-03-01"))
    ∷ deadline "Offen" none
    ∷ deadline "Start" (some (units "2026-01-01"))
    ∷ []

abbrev project : ProjectState
project = record {
  id = "s1";
  project_id = "p1";
  version = 7;
  state = record {
    core = some (record {
      contacts = none;
      open_tasks = some (
          task "B" open_task none
          ∷ task "C" blocked (some (units "2026-02-02"))
          ∷ task "D" done none
          ∷ task "A" open_task (some (units "2026-01-05"))
          ∷ []);
      deadlines = some some_deadlines;
      decisions = none;
      blockers = none;
    });
    dynamic_sections = none;
    custom = none;
    conflicts = none;
  };
  triggered_by_document_id = none;
  created_at = [];
}

listed_titles : map (λ t. t.id) (listed_tasks compare_units project) ≡ "A" ∷ "C" ∷ "B" ∷ []
unfolding listed_tasks sort_by place keep compare_units
listed_titles = refl

listed_tasks_lem_example :
    (dated : List Task) × (listed_tasks compare_units project
      ≡ dated ++ keep is_undated (unfinished_tasks project))
    × Perm dated (keep is_dated (unfinished_tasks project))
    × IsSorted (by_due compare_units) dated
listed_tasks_lem_example = listed_tasks_lem compare_units units_order project

deadlines_lem_example :
    let today = units "2026-02-01" in
    let ups = upcoming_deadlines compare_units today some_deadlines in
    let downs = overdue_deadlines compare_units today some_deadlines in
    Perm (ups ++ downs) some_deadlines
    × IsSorted (by_date compare_units units_order) ups
    × IsSorted (λ a b. by_date compare_units units_order b a) downs
    × All (λ d. is_overdue today d ≡ false) ups
    × All (λ d. is_overdue today d ≡ true) downs
deadlines_lem_example = deadlines_lem compare_units units_order (units "2026-02-01") some_deadlines

abbrev row : String → DocumentStatus → DocumentRow
row id status = record {
  id = id;
  original_filename = id;
  processing_status = status;
  pipeline_step = none;
  pipeline_step_label = none;
  pipeline_updated_at = none;
  pipeline_logs = none;
}

abbrev answers : Answers
answers = record {
  today = units "2026-02-01";
  cached_state = none;
  fetched_state = none;
  found = none;
  briefing = none;
  cached_documents =
      some (row "d1" processing ∷ row "d2" DocumentStatus.done ∷ row "d3" pending ∷ []);
  fetched_documents = none;
  history = none;
}

abbrev percent_text : String → Text
percent_text score = units score

abbrev same_text : Text → Text
same_text t = t

exchanges-handle_slash_command_example :
    let outcome =
      handle_slash_command compare_units percent_text same_text answers (units "status") [] in
    (exchanges outcome.effects
      ≡ once (is_answered answers (case_of (units "status"))) (raw_input (units "status") []))
    × (outcome.rejects ≡ (needs_state (case_of (units "status")) && not (has_state answers)))
exchanges-handle_slash_command_example =
    exchanges-handle_slash_command compare_units percent_text same_text answers (units "status") []

deleted-handle_slash_command_example :
    deleted
      (handle_slash_command compare_units percent_text same_text answers
        (units "cancel")
        []).effects
    ≡ map (λ d. d.id) (if text_eq (units "cancel") (units "cancel") then unfinished answers else [])
deleted-handle_slash_command_example =
    deleted-handle_slash_command compare_units percent_text same_text answers (units "cancel") []

cancelled_ids : map (λ d. d.id) (unfinished answers) ≡ "d1" ∷ "d3" ∷ []
unfolding keep
cancelled_ids = refl

-- `toLowerCase` on ASCII.
unfoldable ascii_lower : Text → Text
ascii_lower [] = []
ascii_lower (c ∷ cs) = (if leb 65 c && leb c 90 then c + 32 else c) ∷ ascii_lower cs

ascii_lower-LowersLetters : LowersLetters ascii_lower
unfolding ascii_lower
ascii_lower-LowersLetters [] h = refl
ascii_lower-LowersLetters (c ∷ cs) h =
    let tail : ascii_lower cs ≡ cs = ascii_lower-LowersLetters cs (ground arith) in
    let outside : (leb 65 c && leb c 90) ≡ false = ground arith in rw (outside, tail) refl

vertrag-IsTrimmed : IsTrimmed (units "Vertrag")
unfolding trim_start
vertrag-IsTrimmed = (refl, refl)

registered-handled_example :
    let input = raw_input (units (name_of search_command)) (units "Vertrag") in
    (parse_slash_command ascii_lower input
      ≡ some (record { name = search_command; arg = units "Vertrag" }))
    × (case_of (units (name_of search_command)) ≡ some search_command)
    × (exchanges
          (handle_slash_command compare_units percent_text same_text answers
            (units (name_of search_command))
            (units "Vertrag")).effects
        ≡ once (has_answer answers search_command) input)
registered-handled_example =
    registered-handled ascii_lower ascii_lower-LowersLetters compare_units percent_text same_text
      answers search_command (units "Vertrag") vertrag-IsTrimmed
