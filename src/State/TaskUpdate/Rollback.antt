-- ===== src/State/TaskUpdate/Rollback.antt =====
-- What an optimistic change of a task does to the lists, and that a failure undoes it.
use open_pm.Common.{
  String, Option, none, some, List, [], ◌∷◌, ◌≡◌, refl, ap, Bool, not, str_eq, keep, ◌otherwise◌,
  Bool-cases, inl, inr,
}
use open_pm.State.{Task, done, StateCore, ProjectState}
use open_pm.State.TaskUpdate.{
  Cache, set_status, set_tasks, set_core, update_task, update_cached, on_mutate, on_error,
  on_settled,
}
use open_pm.Cockpit.Commands.{is_done, no_core}
use open_pm.Cockpit.Commands.Lists.{tasks_to_do}

-- The task is another one.
abbrev pub is_other : String → Task → Bool
is_other id t = not (str_eq t.id id)

keep-set_status :
    (id : String) (ts : List Task)
    → keep (λ t. not (is_done t.status)) (set_status id done ts)
      ≡ keep (is_other id) (keep (λ t. not (is_done t.status)) ts)
unfolding keep set_status
keep-set_status id [] = refl
keep-set_status id (t ∷ ts) = elim (Bool-cases (str_eq t.id id)) [
  | inl e ↦ elim (Bool-cases (is_done t.status)) [
    | inl d ↦ rw (e, d) (keep-set_status id ts)
    | inr d ↦ rw (e, d, e) (keep-set_status id ts)
  ]
  | inr e ↦ elim (Bool-cases (is_done t.status)) [
    | inl d ↦ rw (e, d) (keep-set_status id ts)
    | inr d ↦ rw (e, d, e) (ap (λ l. t ∷ l) (keep-set_status id ts))
  ]
]

tasks_to_do-update_task :
    (id : String) (p : ProjectState)
    → tasks_to_do (update_task id done p) ≡ keep (is_other id) (tasks_to_do p)
unfolding update_task
tasks_to_do-update_task id p = cases p.state.core
  where
    tasks : Option StateCore → List Task
    tasks o =
        let core = o otherwise no_core in
        keep (λ t. not (is_done t.status)) (core.open_tasks otherwise [])

    listed :
        (o : Option (List Task))
        → keep (λ t. not (is_done t.status)) (set_tasks id done o otherwise [])
          ≡ keep (is_other id) (keep (λ t. not (is_done t.status)) (o otherwise []))
    listed none = unfold keep in refl
    listed (some ts) = keep-set_status id ts

    cases : (o : Option StateCore) → tasks (set_core id done o) ≡ keep (is_other id) (tasks o)
    cases none = unfold keep in refl
    cases (some core) = listed core.open_tasks

-- When a task of the cached state is set to done, then before the server has answered the tasks to
-- do are exactly those they were without this one, in their order; and when the server refuses, the
-- cache holds again what it held before.
pub on_mutate-on_error :
    (id : String) (p : ProjectState) (c : Cache)
    → c.cached ≡ some p
    → let (before, changed) = on_mutate id done c in
      ((q : ProjectState) × (changed.cached ≡ some q)
        × (tasks_to_do q ≡ keep (is_other id) (tasks_to_do p)))
      × ((on_settled (on_error before changed)).cached ≡ some p)
unfolding on_mutate on_settled on_error
on_mutate-on_error id p c h = (
  (update_task id done p, ap (update_cached id done) h, tasks_to_do-update_task id p),
  ap (λ o. (on_error o (on_mutate id done c).1).cached) h,
)
