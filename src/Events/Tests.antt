-- ===== src/Events/Tests.antt =====
-- Runs of the event stream: an event, the rounds of the connection, and the life of the effect.
use open_pm.Common.{
  none, some, List, [], ◌∷◌, ◌≡◌, refl, true, false, arith, lookup, if◌then◌else◌, get_elem?,
  length, leb, All,
}
use open_pm.Pipeline.Types.{disconnected, connecting}
use open_pm.Pipeline.Store.{initial}
use open_pm.Events.Types.{EventData, Env}
use open_pm.Events.Switch.{handle_event, deliver, kind_of}
use open_pm.Events.Switch.Status.{next_status, named, status-handle_event}
use open_pm.Events.Connect.{
  Round, Outcome, unauthorized, refused, ended, broken, connect, round, after_throw, after_try,
  max_retries,
}
use open_pm.Events.Connect.Retries.{
  IsTimely, Bounded, last_state, connect-IsTimely, connect-disconnected, connect-gives_up,
}
use open_pm.Events.Effect.{Hook, requesting, switch_project, throw_at, wake_at}
use open_pm.Events.Effect.Stale.{switch_project-stale}

abbrev env : Env
env = record {
  now_iso = "2026-01-01T00:00:00Z";
  now_ms = 5;
  hidden = true;
  print = λ n. "1";
  document_count = λ j. none;
}

abbrev failure : EventData
failure = record {
  event = some "document_failed";
  document_id = some "d1";
  filename = some "brief.pdf";
  change_session_id = none;
  timestamp = none;
  step = none;
  total = none;
  label = none;
  detail = none;
  status = none;
  meta = none;
  extracted_summary = none;
  state_version = none;
  error = some "parse error";
  session_id = none;
  started_at = none;
  closed_at = none;
  summary = none;
  triggered_by = none;
  item_type = none;
  item_id = none;
  title = none;
  action = none;
  confidence = none;
  version = none;
  sections = none;
  spent_text = none;
  budget_text = none;
}

status-handle_event_example :
    lookup "d1" (deliver (handle_event env "p" failure) initial).pipelines ≡ (
      if named (some "d1") "d1"
      then next_status (kind_of (some "document_failed")) (lookup "d1" initial.pipelines)
      else lookup "d1" initial.pipelines)
status-handle_event_example = status-handle_event env "p" failure initial "d1"

-- A second event, from a document that the first one does not name.
abbrev extracted : EventData
extracted = record failure {
  event = some "extracted_item";
  document_id = some "d2";
  item_type = some "task";
  item_id = some "i1";
}

abbrev ends_with : Outcome → Round
ends_with o = record { outcome = o; cancelled = false; cancelled_later = false }

abbrev rounds : List Round
rounds =
    ends_with ended
    ∷ ends_with refused
    ∷ ends_with broken
    ∷ ends_with refused
    ∷ ends_with unauthorized
    ∷ []

connect-IsTimely_example :
    All IsTimely (connect rounds (some 0)).signals × Bounded (connect rounds (some 0)).retries
connect-IsTimely_example = connect-IsTimely rounds

stopped : (connect rounds (some 0)).retries ≡ none
unfolding connect round after_throw after_try
stopped = refl

connect-disconnected_example :
    last_state (connect rounds (some 0)).signals connecting ≡ disconnected
connect-disconnected_example =
    connect-disconnected rounds connecting
      ((refl, refl), ((refl, refl), ((refl, refl), ((refl, refl), ((refl, refl), tt))))) stopped

abbrev refusals : List Round
refusals = ends_with refused ∷ ends_with refused ∷ []

connect-gives_up_example :
    (connect refusals (some 0)).retries
    ≡ (if leb (length refusals) max_retries then some (length refusals) else none)
connect-gives_up_example =
    connect-gives_up refusals ((refl, (refl, refl)), ((refl, (refl, refl)), tt))

abbrev open_hook : Hook
open_hook = record {
  cancelled = false;
  loops = record { project = "p"; phase = requesting 0 } ∷ [];
}

switch_project-stale_example :
    let after = wake_at 0 (throw_at 0 (switch_project "q" open_hook)) in
    (get_elem? after.loops 0 ≡ some (record { project = "p"; phase = requesting 1 }))
    × (get_elem? after.loops (length open_hook.loops)
        ≡ some (record { project = "q"; phase = requesting 0 }))
switch_project-stale_example = switch_project-stale 0 0 "p" "q" open_hook refl (omega arith)
