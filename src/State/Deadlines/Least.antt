-- ===== src/State/Deadlines/Least.antt =====
-- Which deadline is the next one.
use open_pm.Common.{
  ℤ, lez, lez_trans, lez_total, Text, Option, none, some, List, [], ◌∷◌, ◌≡◌, refl, sym, ap, subst,
  Bool, true, false, not, ◌⊎◌, inl, inr, Bool-cases, keep, sort_by, sort_by-IsSorted, IsOrder,
  IsSorted, All, All-sort_by, sort_by-All, keep-All, All-kept, All-keep, All-map, All-both,
  All-member, Memᴰ, arith,
}
use open_pm.State.Deadlines.{Item, Entry, entries, compare_entries, first_of, choose, next_deadline}
use open_pm.State.Deadlines.Due.{
  due_day, Comes, Follows, IsNext, le, le_days, le-Comes, entry_on, WhenDue, entries-All,
  All-entries,
}

module _ (compare : Text → Text → ℤ) (order : IsOrder compare) where
  entries_order : IsOrder (compare_entries compare)
  entries_order = record {
    total = λ a b h. ground (
      arith,
      h,
      le_days compare a b,
      le_days compare b a,
      lez_total a.day b.day,
      order.total a.title b.title,
    );
    chain = λ a b c h k. ground (
      arith,
      h,
      k,
      le_days compare a b,
      le_days compare b c,
      le_days compare a c,
      lez_trans a.day b.day c.day,
      lez_trans c.day a.day b.day,
      lez_trans b.day c.day a.day,
      order.chain a.title b.title c.title,
    );
  }

  le_refl : (e : Entry) → le compare e e ≡ true
  le_refl e = elim (Bool-cases (le compare e e)) [ inl h ↦ h | inr h ↦ entries_order.total e e h ]

  -- The first of the sorted entries, with what holds of them all.
  first_of-sort_by :
      (P : Entry → Type 0) (late : Bool) (e : Entry) (es : List Entry)
      → All P (e ∷ es)
      → (f : Entry) × (first_of compare late (sort_by (compare_entries compare) (e ∷ es))
          ≡ some (record { deadline = f.item; is_overdue = late }))
        × P f
        × All (λ g. le compare f g ≡ true) (e ∷ es)
  first_of-sort_by P late e es h =
      first (sort_by (compare_entries compare) (e ∷ es))
        (All-sort_by P (compare_entries compare) (e ∷ es) h)
        (sort_by-IsSorted (compare_entries compare) entries_order (e ∷ es))
        (λ Q k. sort_by-All Q (compare_entries compare) (e ∷ es) k)
    where
      first :
          (sorted : List Entry)
          → All P sorted
          → IsSorted (compare_entries compare) sorted
          → ((Q : Entry → Type 0) → All Q sorted → All Q (e ∷ es))
          → (f : Entry) × (first_of compare late sorted
              ≡ some (record { deadline = f.item; is_overdue = late }))
            × P f
            × All (λ g. le compare f g ≡ true) (e ∷ es)
      first [] _ _ back = absurd (back (λ _. ⊥) tt).0
      first (f ∷ fs) (p, _) (least, _) back =
          (f, refl, p, back (λ g. le compare f g ≡ true) (le_refl f, least))

  module _ (midnight : Text → Option ℤ) (today : ℤ) (items : List Item) where
    abbrev all : List Entry
    all = entries midnight items

    abbrev is_up : Entry → Bool
    is_up e = lez today e.day

    abbrev is_down : Entry → Bool
    is_down e = not (lez today e.day)

    -- The entry is that of one of the items, on its day.
    abbrev IsOf : Entry → Type 0
    IsOf e =
        Memᴰ e.item items
        × (due_day midnight e.item ≡ some e.day)
        × (e.title ≡ e.item.deadline.title)

    All-IsOf : All IsOf all
    All-IsOf = All-entries midnight IsOf items (
        All-map (λ f. (day : ℤ) → due_day midnight f ≡ some day → IsOf (entry_on midnight f day))
          (λ f m day e. (m, e, refl)) items (All-member items))

    Follows-due :
        (late : Bool) (d : ℤ) (t : Text)
        → All (λ g. Follows compare today late d t (some g.day) g.title) all
        → All (λ f. Follows compare today late d t (due_day midnight f) f.deadline.title) items
    Follows-due late d t h =
        let P : Entry → Type 0 = λ g. Follows compare today late d t (some g.day) g.title in
        All-map (λ f. Follows compare today late d t (due_day midnight f) f.deadline.title)
          (λ f k. due f (due_day midnight f) k) items (entries-All midnight P items h)
      where
        due :
            (f : Item) (o : Option ℤ)
            → WhenDue midnight (λ g. Follows compare today late d t (some g.day) g.title) f o
            → Follows compare today late d t o f.deadline.title
        due f none _ = tt
        due f (some day) k = k

    -- An entry that the others follow is the answer.
    found-IsNext :
        (late : Bool) (e : Entry)
        → IsOf e
        → late ≡ not (lez today e.day)
        → All (λ g. Follows compare today late e.day e.title (some g.day) g.title) all
        → IsNext compare midnight today items
            (some (record { deadline = e.item; is_overdue = late }))
    found-IsNext late e (m, due, named) side h = (
      m,
      e.day,
      due,
      side,
      subst
          (λ t.
            All (λ f. Follows compare today late e.day t (due_day midnight f) f.deadline.title)
              items)
          named (Follows-due late e.day e.title h),
    )

    none_kept : (test : Entry → Bool) → keep test all ≡ [] → All (λ e. (test e ≡ false) ⊎ ⊥) all
    none_kept test e = keep-All (λ _. ⊥) test all (subst (All (λ _. ⊥)) (sym e) tt)

    -- What is known of the first of the sorted entries that pass a test.
    first_kept :
        (test : Entry → Bool) (late : Bool) (x : Entry) (xs : List Entry)
        → keep test all ≡ x ∷ xs
        → (e : Entry) × (first_of compare late (sort_by (compare_entries compare) (x ∷ xs))
            ≡ some (record { deadline = e.item; is_overdue = late }))
          × (IsOf e × (test e ≡ true))
          × All (λ g. (test g ≡ false) ⊎ (le compare e g ≡ true)) all
    first_kept test late x xs kept =
        let both =
          All-both IsOf (λ e. test e ≡ true) (keep test all) (All-kept IsOf test all All-IsOf)
            (All-keep test all) in
        let (e, found, known, least) =
          first_of-sort_by (λ e. IsOf e × (test e ≡ true)) late x xs
            (subst (All (λ e. IsOf e × (test e ≡ true))) kept both) in
        let before =
          keep-All (λ g. le compare e g ≡ true) test all
            (subst (All (λ g. le compare e g ≡ true)) (sym kept) least) in
        (e, found, known, before)

    -- The three cases of the choice: nothing is due, everything is overdue, or something is not.
    none-IsNext :
        keep is_up all ≡ [] → keep is_down all ≡ [] → IsNext compare midnight today items none
    none-IsNext no_ups no_downs =
        All-map (λ f. due_day midnight f ≡ none) (λ f k. undue f (due_day midnight f) k) items
          (entries-All midnight (λ _. ⊥) items
            (All-map (λ _. ⊥) (λ e h. neither (is_up e) h) all
              (All-both (λ e. (is_up e ≡ false) ⊎ ⊥) (λ e. (is_down e ≡ false) ⊎ ⊥) all
                (none_kept is_up no_ups) (none_kept is_down no_downs))))
      where
        neither : (b : Bool) → ((b ≡ false) ⊎ ⊥) × ((not b ≡ false) ⊎ ⊥) → ⊥
        neither b (inr h, _) = h
        neither b (inl h, inr k) = k
        neither b (inl h, inl k) = ground (arith, h, k)

        undue : (f : Item) (o : Option ℤ) → WhenDue midnight (λ _. ⊥) f o → o ≡ none
        undue f none _ = refl
        undue f (some day) k = absurd k

    overdue-IsNext :
        (x : Entry) (xs : List Entry)
        → keep is_up all ≡ []
        → keep is_down all ≡ x ∷ xs
        → IsNext compare midnight today items
            (first_of compare true (sort_by (compare_entries compare) (x ∷ xs)))
    overdue-IsNext x xs no_ups downs =
        let (e, found, (of_item, past), before) = first_kept is_down true x xs downs in
        let follows =
          All-map (λ g. Follows compare today true e.day e.title (some g.day) g.title)
            (λ g h. follow e g (is_up g) refl h) all
            (All-both (λ g. (is_up g ≡ false) ⊎ ⊥)
              (λ g. (is_down g ≡ false) ⊎ (le compare e g ≡ true)) all (none_kept is_up no_ups)
              before) in
        subst (IsNext compare midnight today items) (sym found)
          (found-IsNext true e of_item (sym past) follows)
      where
        follow :
            (e g : Entry) (b : Bool)
            → is_up g ≡ b
            → ((is_up g ≡ false) ⊎ ⊥) × ((is_down g ≡ false) ⊎ (le compare e g ≡ true))
            → (is_up g ≡ false) × Comes compare e.day e.title g.day g.title
        follow e g b _ (inr h, _) = absurd h
        follow e g b _ (inl h, inr k) = (h, le-Comes compare e g k)
        follow e g b _ (inl h, inl k) = absurd (ground (arith, h, k))

    upcoming-IsNext :
        (x : Entry) (xs : List Entry)
        → keep is_up all ≡ x ∷ xs
        → IsNext compare midnight today items
            (first_of compare false (sort_by (compare_entries compare) (x ∷ xs)))
    upcoming-IsNext x xs ups =
        let (e, found, (of_item, ahead), before) = first_kept is_up false x xs ups in
        let follows =
          All-map (λ g. Follows compare today false e.day e.title (some g.day) g.title)
            (λ g h. follow e g h) all before in
        subst (IsNext compare midnight today items) (sym found)
          (found-IsNext false e of_item (sym (ap not ahead)) follows)
      where
        follow :
            (e g : Entry)
            → (is_up g ≡ false) ⊎ (le compare e g ≡ true)
            → (is_up g ≡ false) ⊎ Comes compare e.day e.title g.day g.title
        follow e g (inl h) = inl h
        follow e g (inr k) = inr (le-Comes compare e g k)

    choose-IsNext :
        (ups downs : List Entry)
        → keep is_up all ≡ ups
        → keep is_down all ≡ downs
        → IsNext compare midnight today items (choose compare ups downs)
    unfolding sort_by
    choose-IsNext [] [] no_ups no_downs = none-IsNext no_ups no_downs
    choose-IsNext [] (d ∷ ds) no_ups downs = overdue-IsNext d ds no_ups downs
    choose-IsNext (u ∷ us) downs ups _ = upcoming-IsNext u us ups

    -- There is no next deadline exactly when no item is due, that is, not resolved and with a valid
    -- date. Otherwise it is a due item of the list, and it counts as overdue exactly when its day is
    -- before today. One that is not overdue is not after any other due item from today on, by day and
    -- then by title; one that is overdue is chosen only when every due item is overdue, and it is not
    -- after any of them. `localeCompare` is taken to be a total order.
    pub next_deadline_lem :
        IsNext compare midnight today items (next_deadline compare midnight today items)
    unfolding next_deadline
    next_deadline_lem = choose-IsNext (keep is_up all) (keep is_down all) refl refl
