-- ===== src/Conflicts/First.antt =====
-- Which conflict is shown for an item.
use open_pm.Common.{
  String, none, some, List, [], ◌∷◌, ◌++◌, Bool, true, false, ◌||◌, ◌≡◌, refl, str_eq,
  if◌then◌else◌, Json, All, arith,
}
use open_pm.Conflicts.{ConflictSide, Conflict, info_of, find_conflict, conflict_for_item}

abbrev pub mentions : String → Conflict → Bool
mentions item c = str_eq c.a.id item || str_eq c.b.id item

-- The side of a conflict that faces the item.
abbrev pub facing : String → Conflict → ConflictSide
facing item c = if str_eq c.a.id item then c.b else c.a

abbrev pub Unmentioned : String → List Conflict → Type 0
Unmentioned item cs = All (λ c. mentions item c ≡ false) cs

module _ (show : Json → String) where
  find_conflict-append :
      (item : String) (before after : List Conflict) (c : Conflict)
      → Unmentioned item before
      → mentions item c ≡ true
      → find_conflict show item (before ++ c ∷ after) ≡ some (info_of show c (facing item c))
  unfolding find_conflict
  find_conflict-append item [] after c none_before here = ground arith
  find_conflict-append item (d ∷ before) after c (free, none_before) here =
      ground (arith, find_conflict-append item before after c none_before here)

  find_conflict-none :
      (item : String) (cs : List Conflict) → Unmentioned item cs → find_conflict show item cs ≡ none
  unfolding find_conflict
  find_conflict-none item [] free = refl
  find_conflict-none item (c ∷ cs) (free, later) = ground (arith, find_conflict-none item cs later)

-- For an item with a nonempty id, the first of the conflicts that mention it on either side is
-- shown, with the value and the file name of its other side.
pub conflict_for_item-first :
    (show : Json → String) (item : String) (before after : List Conflict) (c : Conflict)
    → str_eq item "" ≡ false
    → Unmentioned item before
    → mentions item c ≡ true
    → conflict_for_item show item (before ++ c ∷ after) ≡ some (info_of show c (facing item c))
unfolding conflict_for_item
conflict_for_item-first show item before after c named none_before here =
    rw named (find_conflict-append show item before after c none_before here)

-- No conflict is shown for an item that no conflict mentions.
pub conflict_for_item-Unmentioned :
    (show : Json → String) (item : String) (conflicts : List Conflict)
    → Unmentioned item conflicts
    → conflict_for_item show item conflicts ≡ none
unfolding conflict_for_item
conflict_for_item-Unmentioned show item conflicts free =
    ground (arith, find_conflict-none show item conflicts free)
