-- ===== src/State/Tests.antt =====
-- Runs of the next deadline and of an optimistic change.
use open_pm.Common.{
  ℕ, ℤ, pos, Text, String, Option, none, some, List, [], ◌∷◌, ◌≡◌, refl, units, length, leb,
  if◌then◌else◌, IsOrder, keep, text_eq, arith, Fields, field, end, obj, arr, nil, cons, null, ◌↔◌,
  join_texts,
}
use open_pm.State.{Task, open_task, done, ProjectState}
use open_pm.State.Timeline.{
  parse_delta, parse_bucket, parse_fields, category_label, delta_summary, delta_text, no_net,
}
use open_pm.State.Timeline.Total.{delta_summary-total}
use open_pm.State.Deadlines.{Item, next_deadline}
use open_pm.State.Deadlines.Due.{IsNext}
use open_pm.State.Deadlines.Least.{next_deadline_lem}
use open_pm.State.TaskUpdate.{Cache, on_mutate, on_error, on_settled}
use open_pm.State.TaskUpdate.Rollback.{is_other, on_mutate-on_error}
use open_pm.Cockpit.Commands.Lists.{tasks_to_do}

-- The shorter text first.
abbrev by_length : Text → Text → ℤ
by_length a b = if leb (length a) (length b) then pos 0 else pos 1

by_length_order : IsOrder by_length
by_length_order = record {
  total = λ a b h. ground (arith, h);
  chain = λ a b c h k. ground (arith, h, k);
}

abbrev midnight : Text → Option ℤ
midnight t = if text_eq t (units "2026-03-01") then some (pos 60) else some (pos 31)

abbrev item : String → Option String → Item
item date status = record {
  deadline = record {
    id = none;
    title = units date;
    date = some (units date);
    description = none;
    source_document_ids = none;
    confidence = none;
  };
  status = status;
}

abbrev items : List Item
items = item "2026-02-01" none ∷ item "2026-03-01" none ∷ item "2026-02-01" (some "resolved") ∷ []

next_deadline_lem_example :
    IsNext by_length midnight (pos 40) items (next_deadline by_length midnight (pos 40) items)
next_deadline_lem_example = next_deadline_lem by_length by_length_order midnight (pos 40) items

abbrev task : String → Task
task id = record {
  id = id;
  title = units id;
  status = open_task;
  deadline = none;
  assignee = none;
  source_document_id = none;
  source_document_ids = none;
  confidence = none;
}

abbrev project : ProjectState
project = record {
  id = "s1";
  project_id = "p1";
  version = 7;
  state = record {
    core = some (record {
      contacts = none;
      open_tasks = some (task "a" ∷ task "b" ∷ []);
      deadlines = none;
      decisions = none;
      blockers = none;
    });
    dynamic_sections = none;
    custom = none;
    conflicts = none;
  };
  triggered_by_document_id = none;
  created_at = [];
}

abbrev cache : Cache
cache = record { cached = some project; log = [] }

on_mutate-on_error_example :
    let (before, changed) = on_mutate "a" done cache in
    ((q : ProjectState) × (changed.cached ≡ some q)
      × (tasks_to_do q ≡ keep (is_other "a") (tasks_to_do project)))
    × ((on_settled (on_error before changed)).cached ≡ some project)
on_mutate-on_error_example = on_mutate-on_error "a" project cache refl

abbrev place_text : ℕ → String
place_text i = "0"

abbrev change : Fields
change = field "added" (obj (field "core.contacts" (arr nil) end)) end

delta_summary-total_example :
    ((delta_summary (parse_delta place_text change)).1 ≡ no_net)
    ↔ ((parse_delta place_text change).total ≡ 0)
delta_summary-total_example = delta_summary-total place_text change

change_text :
    delta_text (
      parse_delta place_text
        (field "added" (obj (field "core.open_tasks" (arr (cons null nil)) end)) end))
    ≡ units "+1 Tasks"
unfolding parse_delta parse_bucket parse_fields category_label delta_text join_texts
change_text = refl
