-- ===== src/Cockpit/Commands/Lists.antt =====
-- What the commands for the tasks and the deadlines list, and in which order.
use open_pm.Common.{
  Text, none, some, List, [], ◌∷◌, ◌++◌, ◌≡◌, refl, ap, sym, ◌∙◌, Bool, true, false, not, Perm,
  keep, keep-same, sort_by, place, sort_by-perm, keep-perm, IsOrder, IsSorted, sort_by-IsSorted,
  All, All-keep, All-sort_by, All-map, ◌otherwise◌, truthy, ℤ, pos, lez, Bool-cases, inl, inr,
  Option, is_some, text_lt, arith,
}
use mathlib.Core.List.Perm
use open_pm.State.{Task, TaskStatus, open_task, blocked, done, StateCore, Deadline, ProjectState}
use open_pm.Cockpit.Commands.{
  is_done, core_of, no_core, compare_due, compare_tasks, listed_tasks, is_upcoming, is_overdue,
  date_of, upcoming_deadlines, overdue_deadlines,
}

abbrev pub is_dated : Task → Bool
is_dated t = is_some (truthy t.deadline)

abbrev pub is_undated : Task → Bool
is_undated t = not (is_some (truthy t.deadline))

abbrev pub tasks_to_do : ProjectState → List Task
tasks_to_do p = keep (λ t. not (is_done t.status)) ((core_of p).open_tasks otherwise [])

not-true : {b : Bool} → not b ≡ true → b ≡ false
not-true {b = true} h = absurd (ground arith)
not-true {b = false} h = refl

module _ (compare : Text → Text → ℤ) where
  due-undated :
      (a b : Option Text)
      → is_some a ≡ false
      → lez (compare_due compare a b) (pos 0) ≡ not (is_some b)
  due-undated none none h = refl
  due-undated none (some b) h = refl
  due-undated (some a) b h = absurd (ground arith)

  due-dated :
      (a b : Option Text)
      → is_some a ≡ true
      → is_some b ≡ false
      → lez (compare_due compare a b) (pos 0) ≡ true
  due-dated (some a) none h k = refl
  due-dated none b h k = absurd (ground arith)
  due-dated a (some b) h k = absurd (ground arith)

  abbrev Dated : Task → Type 0
  Dated t = is_dated t ≡ true

  abbrev Undated : Task → Type 0
  Undated t = is_dated t ≡ false

  -- A task without a deadline goes before the others without one.
  place-Undated :
      (t : Task) (ds us : List Task)
      → Undated t
      → All Dated ds
      → All Undated us
      → place (compare_tasks compare) t (ds ++ us) ≡ ds ++ t ∷ us
  unfolding place
  place-Undated t [] [] h _ _ = refl
  place-Undated t [] (u ∷ us) h _ (k, _) =
      let e : lez (compare_tasks compare t u) (pos 0) ≡ true =
        due-undated (truthy t.deadline) (truthy u.deadline) h ∙ ap not k in
      rw e refl
  place-Undated t (d ∷ ds) us h (k, dated) undated =
      let e : lez (compare_tasks compare t d) (pos 0) ≡ false =
        due-undated (truthy t.deadline) (truthy d.deadline) h ∙ ap not k in
      rw e (ap (λ l. d ∷ l) (place-Undated t ds us h dated undated))

  -- A task with a deadline goes before those without one.
  place-Dated :
      (t : Task) (ds us : List Task)
      → Dated t
      → All Undated us
      → place (compare_tasks compare) t (ds ++ us) ≡ place (compare_tasks compare) t ds ++ us
  unfolding place
  place-Dated t [] [] h _ = refl
  place-Dated t [] (u ∷ us) h (k, _) =
      rw (due-dated (truthy t.deadline) (truthy u.deadline) h k) refl
  place-Dated t (d ∷ ds) us h k = elim (Bool-cases (lez (compare_tasks compare t d) (pos 0))) [
    | inl e ↦ rw e refl
    | inr e ↦ rw e (ap (λ l. d ∷ l) (place-Dated t ds us h k))
  ]

  All-Undated : (ts : List Task) → All Undated (keep is_undated ts)
  All-Undated ts = All-map Undated (λ t h. not-true h) (keep is_undated ts) (All-keep is_undated ts)

  sort_by-tasks :
      (ts : List Task)
      → sort_by (compare_tasks compare) ts
        ≡ sort_by (compare_tasks compare) (keep is_dated ts) ++ keep is_undated ts
  unfolding sort_by keep
  sort_by-tasks [] = refl
  sort_by-tasks (t ∷ ts) =
      let before = ap (place (compare_tasks compare) t) (sort_by-tasks ts) in
      elim (Bool-cases (is_dated t)) [
        | inl e ↦
            let none_undated = All-Undated ts in
            rw e (
              before
              ∙ place-Dated t (sort_by (compare_tasks compare) (keep is_dated ts))
                  (keep is_undated ts) e none_undated)
        | inr e ↦
            let dated =
              All-sort_by Dated (compare_tasks compare) (keep is_dated ts) (All-keep is_dated ts) in
            rw e (
              before
              ∙ place-Undated t (sort_by (compare_tasks compare) (keep is_dated ts))
                  (keep is_undated ts) e dated (All-Undated ts))
      ]

-- The tasks of the state that are open or blocked.
abbrev pub is_unfinished : Task → Bool
is_unfinished t = elim t.status [ open_task ↦ true | blocked ↦ true | done ↦ false ]

abbrev pub unfinished_tasks : ProjectState → List Task
unfinished_tasks p =
    keep is_unfinished (elim p.state.core [ none ↦ [] | some core ↦ core.open_tasks otherwise [] ])

unfinished_tasks-to_do : (p : ProjectState) → tasks_to_do p ≡ unfinished_tasks p
unfinished_tasks-to_do p =
    keep-same (λ t. not (is_done t.status)) is_unfinished _ (λ t. status t.status)
    ∙ ap (keep is_unfinished) (tasks p.state.core)
  where
    status :
        (s : TaskStatus)
        → not (is_done s) ≡ (elim s [ open_task ↦ true | blocked ↦ true | done ↦ false ])
    status open_task = refl
    status blocked = refl
    status done = refl

    tasks :
        (o : Option StateCore)
        → (o otherwise no_core).open_tasks otherwise []
          ≡ (elim o [ none ↦ [] | some core ↦ core.open_tasks otherwise [] ])
    tasks none = refl
    tasks (some core) = refl

truthy-some : (o : Option Text) → is_some (truthy o) ≡ true → truthy o ≡ some (o otherwise [])
truthy-some none h = absurd (ground arith)
truthy-some (some []) h = absurd (ground arith)
truthy-some (some (c ∷ cs)) h = refl

module _ (compare : Text → Text → ℤ) where
  -- The comparison of two deadlines that are there.
  abbrev pub by_due : Task → Task → ℤ
  by_due a b = compare (a.deadline otherwise []) (b.deadline otherwise [])

  compare_tasks-due :
      (a b : Task) → is_dated a ≡ true → is_dated b ≡ true → compare_tasks compare a b ≡ by_due a b
  compare_tasks-due a b h k = rw (truthy-some a.deadline h, truthy-some b.deadline k) refl

  place-due :
      (t : Task) (ts : List Task)
      → is_dated t ≡ true
      → All (λ u. is_dated u ≡ true) ts
      → place (compare_tasks compare) t ts ≡ place by_due t ts
  unfolding place
  place-due t [] h _ = refl
  place-due t (u ∷ us) h (k, ks) = rw (compare_tasks-due t u h k, place-due t us h ks) refl

  sort_by-due :
      (ts : List Task)
      → All (λ u. is_dated u ≡ true) ts
      → sort_by (compare_tasks compare) ts ≡ sort_by by_due ts
  unfolding sort_by
  sort_by-due [] _ = refl
  sort_by-due (t ∷ ts) (h, hs) =
      place-due t (sort_by (compare_tasks compare) ts) h
        (All-sort_by (λ u. is_dated u ≡ true) (compare_tasks compare) ts hs)
      ∙ ap (place by_due t) (sort_by-due ts hs)

  by_due_order : IsOrder compare → IsOrder by_due
  by_due_order order = record {
    total = λ a b. order.total (a.deadline otherwise []) (b.deadline otherwise []);
    chain = λ a b c.
        order.chain (a.deadline otherwise []) (b.deadline otherwise []) (c.deadline otherwise []);
  }

  -- The command for the tasks lists exactly the open and the blocked tasks, each once: first those
  -- with a deadline, the earliest first, then those without one in the order of the state, when
  -- `localeCompare` is a total order.
  pub listed_tasks_lem :
      (order : IsOrder compare) (p : ProjectState)
      → (dated : List Task) × (listed_tasks compare p
          ≡ dated ++ keep is_undated (unfinished_tasks p))
        × Perm dated (keep is_dated (unfinished_tasks p))
        × IsSorted by_due dated
  unfolding listed_tasks
  listed_tasks_lem order p =
      let dated = keep is_dated (unfinished_tasks p) in
      let same = sort_by-due dated (All-keep is_dated (unfinished_tasks p)) in
      (
        sort_by by_due dated,
        ap (sort_by (compare_tasks compare)) (unfinished_tasks-to_do p)
            ∙ sort_by-tasks compare (unfinished_tasks p)
            ∙ ap (λ l. l ++ keep is_undated (unfinished_tasks p)) same,
        sort_by-perm by_due dated,
        sort_by-IsSorted by_due (by_due_order order) dated,
      )

not-not : (b : Bool) → not (not b) ≡ b
not-not true = refl
not-not false = refl

overdue-not-upcoming :
    (today : Text) (d : Deadline) → is_overdue today d ≡ not (is_upcoming today d)
overdue-not-upcoming today d = cases (truthy d.date)
  where
    cases :
        (o : Option Text)
        → (elim o [ none ↦ false | some date ↦ text_lt date today ])
          ≡ not (elim o [ none ↦ true | some date ↦ not (text_lt date today) ])
    cases none = refl
    cases (some date) = sym (not-not (text_lt date today))

module _ (compare : Text → Text → ℤ) (order : IsOrder compare) where
  abbrev pub by_date : Deadline → Deadline → ℤ
  by_date a b = compare (date_of a) (date_of b)

  ascending : IsOrder by_date
  ascending = record {
    total = λ a b. order.total (date_of a) (date_of b);
    chain = λ a b c. order.chain (date_of a) (date_of b) (date_of c);
  }

  descending : IsOrder (λ a b. by_date b a)
  descending = record {
    total = λ a b. order.total (date_of b) (date_of a);
    chain = λ a b c h k. order.chain (date_of c) (date_of b) (date_of a) k h;
  }

  -- The command for the deadlines lists every deadline of the state exactly once, under one of its
  -- two headings: those before today, the latest first, under the second, and the others, the
  -- earliest first, under the first, when `localeCompare` is a total order.
  pub deadlines_lem :
      (today : Text) (all : List Deadline)
      → Perm (upcoming_deadlines compare today all ++ overdue_deadlines compare today all) all
        × IsSorted by_date (upcoming_deadlines compare today all)
        × IsSorted (λ a b. by_date b a) (overdue_deadlines compare today all)
        × All (λ d. is_overdue today d ≡ false) (upcoming_deadlines compare today all)
        × All (λ d. is_overdue today d ≡ true) (overdue_deadlines compare today all)
  unfolding upcoming_deadlines overdue_deadlines
  deadlines_lem today all =
      let later = λ (a b : Deadline). by_date b a in
      let above = keep (is_upcoming today) all in
      let below = keep (is_overdue today) all in
      let ups = sort_by by_date above in
      let downs = sort_by later below in
      let passed =
        All-map (λ d. is_overdue today d ≡ false) (λ d h. overdue-not-upcoming today d ∙ ap not h)
          above (All-keep (is_upcoming today) all) in
      (
        Perm.trans (Perm.append (sort_by-perm by_date above) (sort_by-perm later below))
            (keep-perm (is_upcoming today) (is_overdue today) all (overdue-not-upcoming today)),
        sort_by-IsSorted by_date ascending above,
        sort_by-IsSorted later descending below,
        All-sort_by (λ d. is_overdue today d ≡ false) by_date above passed,
        All-sort_by (λ d. is_overdue today d ≡ true) later below (All-keep (is_overdue today) all),
      )
