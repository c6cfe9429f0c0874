-- ===== src/State/Deadlines/Due.antt =====
-- The deadlines that are due, and what is to be the next one of them.
use open_pm.Common.{
  ℤ, pos, lez, Text, String, Option, none, some, List, [], ◌∷◌, ◌++◌, ◌≡◌, refl, sym, ap, subst,
  Bool, true, false, not, ◌⊎◌, inl, inr, Bool-cases, if◌then◌else◌, str_eq, All, Memᴰ, arith,
  truthy,
}
use open_pm.State.Deadlines.{
  Item, Entry, NextDeadlineResult, is_resolved, entry_of, dated, entries, compare_entries,
}

abbrev pub awaits : Option String → Bool
awaits none = true
awaits (some s) = not (str_eq s "resolved")

abbrev pub day_on : (Text → Option ℤ) → Option Text → Option ℤ
day_on midnight none = none
day_on midnight (some []) = none
day_on midnight (some (c ∷ cs)) = midnight (c ∷ cs)

-- The day of an item that is not resolved and has a valid date.
abbrev pub due_day : (Text → Option ℤ) → Item → Option ℤ
due_day midnight item = if awaits item.status then day_on midnight item.deadline.date else none

module _ (compare : Text → Text → ℤ) where
  -- A deadline of the day `d` with the title `t` is not after one of the day `e` with the title
  -- `u`.
  abbrev pub Comes : ℤ → Text → ℤ → Text → Type 0
  Comes d t e u = (lez d e ≡ true) × ((lez e d ≡ false) ⊎ (lez (compare t u) (pos 0) ≡ true))

  -- A deadline, of the day `e` if it has one, does not make the one of the day `d` a wrong choice:
  -- if that one is overdue, so are all, and it is the first of them; otherwise it is the first of
  -- those that are not overdue.
  abbrev pub Follows : ℤ → Bool → ℤ → Text → Option ℤ → Text → Type 0
  Follows today is_overdue d t none u = Unit
  Follows today true d t (some e) u = (lez today e ≡ false) × Comes d t e u
  Follows today false d t (some e) u = (lez today e ≡ false) ⊎ Comes d t e u

  -- What `nextDeadline` promises of its items.
  abbrev pub IsNext : (Text → Option ℤ) → ℤ → List Item → Option NextDeadlineResult → Type 0
  IsNext midnight today items none = All (λ f. due_day midnight f ≡ none) items
  IsNext midnight today items (some r) =
      Memᴰ r.deadline items
      × (day : ℤ) × (due_day midnight r.deadline ≡ some day)
      × (r.is_overdue ≡ not (lez today day))
      × All
          (λ f.
            Follows today r.is_overdue day r.deadline.deadline.title (due_day midnight f)
              f.deadline.title)
          items

  abbrev pub le : Entry → Entry → Bool
  le a b = lez (compare_entries compare a b) (pos 0)

  pub le_days :
      (a b : Entry)
      → le a b ≡ (
          if lez a.day b.day
          then if lez b.day a.day then lez (compare a.title b.title) (pos 0) else true
          else false)
  le_days a b = ground arith

  pub le-Comes : (a b : Entry) → le a b ≡ true → Comes a.day a.title b.day b.title
  le-Comes a b h = elim (Bool-cases (lez b.day a.day)) [
    | inl e ↦ (ground (arith, le_days a b), inr (ground (arith, le_days a b)))
    | inr e ↦ (ground (arith, le_days a b), inl e)
  ]

module _ (midnight : Text → Option ℤ) where
  abbrev pub entry_on : Item → ℤ → Entry
  entry_on item day = record { day = day; title = item.deadline.title; item = item }

  entries-cons :
      (item : Item) (items : List Item)
      → entries midnight (item ∷ items)
        ≡ entry_of item (due_day midnight item) ++ entries midnight items
  unfolding entries
  entries-cons item items = ap (λ l. l ++ entries midnight items) (status item.status)
    where
      date : (o : Option Text) → dated midnight item (truthy o) ≡ entry_of item (day_on midnight o)
      date none = refl
      date (some []) = refl
      date (some (c ∷ cs)) = refl

      status :
          (o : Option String)
          → (if is_resolved o then [] else dated midnight item (truthy item.deadline.date))
            ≡ entry_of item (if awaits o then day_on midnight item.deadline.date else none)
      status none = date item.deadline.date
      status (some s) = elim (Bool-cases (str_eq s "resolved")) [
        | inl e ↦ rw e refl
        | inr e ↦ rw e (date item.deadline.date)
      ]

  -- What holds of every entry holds of every item that is due.
  abbrev pub WhenDue : (Entry → Type 0) → Item → Option ℤ → Type 0
  WhenDue P item none = Unit
  WhenDue P item (some day) = P (entry_on item day)

  module _ (P : Entry → Type 0) where
    pub entries-All :
        (items : List Item)
        → All P (entries midnight items)
        → All (λ f. WhenDue P f (due_day midnight f)) items
    unfolding entries
    entries-All [] _ = tt
    entries-All (f ∷ items) h =
        split (entries-All items) (due_day midnight f) (subst (All P) (entries-cons f items) h)
      where
        split :
            (All P (entries midnight items) → All (λ f. WhenDue P f (due_day midnight f)) items)
            → (o : Option ℤ) → All P (entry_of f o ++ entries midnight items)
            → WhenDue P f o × All (λ f. WhenDue P f (due_day midnight f)) items
        split later none k = (tt, later k)
        split later (some day) (p, k) = (p, later k)

    -- What holds of the entry of every item that is due holds of every entry.
    pub All-entries :
        (items : List Item)
        → All (λ f. (day : ℤ) → due_day midnight f ≡ some day → P (entry_on f day)) items
        → All P (entries midnight items)
    unfolding entries
    All-entries [] _ = tt
    All-entries (f ∷ items) (p, h) =
        subst (All P) (sym (entries-cons f items))
          (join (All-entries items h) (due_day midnight f) refl)
      where
        join :
            All P (entries midnight items)
            → (o : Option ℤ) → due_day midnight f ≡ o
            → All P (entry_of f o ++ entries midnight items)
        join later none e = later
        join later (some day) e = (p day e, later)
