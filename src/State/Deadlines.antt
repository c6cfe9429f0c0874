-- ===== src/State/Deadlines.antt =====
-- `nextDeadline` and `formatDeadline` of frontend/src/lib/deadlines.ts. `midnight` is the start of
-- the local day of `new Date(raw)`, in milliseconds, or `none` for an invalid date.
pub mod Due
pub mod Least
use open_pm.Common.{
  ℕ, ◌+◌, ℤ, pos, negsuc, lez, Text, String, Option, none, some, List, [], ◌∷◌, ◌++◌, Bool, true,
  false, not, ◌&&◌, if◌then◌else◌, str_eq, truthy, units, decimal, ltb, keep, sort_by, ◌otherwise◌,
}
use open_pm.State.{Deadline}

-- `Deadline & { status?: string }`.
pub record Item : Type 0 where
  pub deadline : Deadline
  pub status : Option String

-- `[Date, string, Item]`.
pub record Entry : Type 0 where
  pub day : ℤ
  pub title : Text
  pub item : Item

pub record NextDeadlineResult : Type 0 where
  pub deadline : Item
  pub is_overdue : Bool

abbrev pub is_resolved : Option String → Bool
is_resolved none = false
is_resolved (some s) = str_eq s "resolved"

abbrev pub entry_of : Item → Option ℤ → List Entry
entry_of item none = []
entry_of item (some day) = record { day = day; title = item.deadline.title; item = item } ∷ []

abbrev pub dated : (Text → Option ℤ) → Item → Option Text → List Entry
dated midnight item none = []
dated midnight item (some raw) = entry_of item (midnight raw)

-- The items that the loop does not pass over.
unfoldable pub entries : (Text → Option ℤ) → List Item → List Entry
entries midnight [] = []
entries midnight (item ∷ items) =
    let rest = entries midnight items in
    (if is_resolved item.status then [] else dated midnight item (truthy item.deadline.date))
    ++ rest

module _ (compare : Text → Text → ℤ) where
  -- `a[0].getTime() - b[0].getTime() || a[1].localeCompare(b[1])`, whose sign is all that counts.
  abbrev pub compare_entries : Entry → Entry → ℤ
  compare_entries a b =
      if lez a.day b.day
      then if lez b.day a.day then compare a.title b.title else negsuc 0
      else pos 1

  abbrev pub first_of : Bool → List Entry → Option NextDeadlineResult
  first_of is_overdue [] = none
  first_of is_overdue (e ∷ es) = some (record { deadline = e.item; is_overdue = is_overdue })

  -- The first upcoming one, or else the first overdue one.
  abbrev pub choose : List Entry → List Entry → Option NextDeadlineResult
  choose [] overdue = first_of true (sort_by compare_entries overdue)
  choose (e ∷ es) overdue = first_of false (sort_by compare_entries (e ∷ es))

  unfoldable pub next_deadline : (Text → Option ℤ) → ℤ → List Item → Option NextDeadlineResult
  next_deadline midnight today items =
      let all = entries midnight items in
      choose (keep (λ e. lez today e.day) all) (keep (λ e. not (lez today e.day)) all)

-- `String(n).padStart(2, "0")`.
abbrev pub pad_two : ℕ → Text
pad_two n = if ltb n 10 then units "0" ++ decimal n else decimal n

-- `parts` gives the day and the month (from 0) of a valid date.
unfoldable pub format_deadline : (Text → Option (ℕ × ℕ)) → Deadline → Bool → Text
format_deadline parts d is_overdue = elim (parts (d.date otherwise [])) [
  | none ↦ if is_overdue then units "Überfällig" else units "Nächste Deadline"
  | some (day, month) ↦
      let formatted = pad_two day ++ units "." ++ pad_two (month + 1) ++ units "." in
      if is_overdue
      then units "Überfällig seit " ++ formatted
      else units "Nächste Deadline: " ++ formatted
]
