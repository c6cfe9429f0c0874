-- ===== src/State/TaskUpdate.antt =====
-- `useOptimisticTask` of frontend/src/hooks/useOptimisticTask.ts, over the cached state of a project.
pub mod Rollback
use open_pm.Common.{
  String, Option, none, some, List, [], ◌∷◌, ◌++◌, if◌then◌else◌, str_eq, ◌otherwise◌,
}
use open_pm.State.{Task, TaskStatus, StateCore, StateData, ProjectState}

pub data Effect : Type 0 where
  cancel_queries invalidate_state : Effect
  toast : String → Effect

pub record Cache : Type 0 where
  pub cached : Option ProjectState
  -- What the hook has done to the outside, oldest first.
  pub log : List Effect

-- `open_tasks.map((t) => t.id === taskId ? { ...t, status } : t)`.
unfoldable pub set_status : String → TaskStatus → List Task → List Task
set_status id status [] = []
set_status id status (t ∷ ts) =
    let rest = set_status id status ts in
    if str_eq t.id id then record t { status = status } ∷ rest else t ∷ rest

abbrev pub set_tasks : String → TaskStatus → Option (List Task) → Option (List Task)
set_tasks id status none = none
set_tasks id status (some ts) = some (set_status id status ts)

-- `{ ...core, open_tasks: … }`, where the core may be missing.
abbrev pub set_core : String → TaskStatus → Option StateCore → Option StateCore
set_core id status none = some (record {
  contacts = none;
  open_tasks = none;
  deadlines = none;
  decisions = none;
  blockers = none;
})
set_core id status (some core) =
    some (record core { open_tasks = set_tasks id status core.open_tasks })

unfoldable pub update_task : String → TaskStatus → ProjectState → ProjectState
update_task id status p =
    let data' = p.state in
    record p { state = record data' { core = set_core id status data'.core } }

abbrev pub update_cached : String → TaskStatus → Option ProjectState → Option ProjectState
update_cached id status none = none
update_cached id status (some p) = some (update_task id status p)

-- The context, which is the state before, and the cache after.
unfoldable pub on_mutate : String → TaskStatus → Cache → Option ProjectState × Cache
on_mutate id status c = (
  c.cached,
  record { cached = update_cached id status c.cached; log = c.log ++ cancel_queries ∷ [] },
)

unfoldable pub on_error : Option ProjectState → Cache → Cache
on_error none c = record c { log = c.log ++ toast "Task-Update fehlgeschlagen" ∷ [] }
on_error (some previous) c = record {
  cached = some previous;
  log = c.log ++ toast "Task-Update fehlgeschlagen" ∷ [];
}

unfoldable pub on_settled : Cache → Cache
on_settled c = record c { log = c.log ++ invalidate_state ∷ [] }
