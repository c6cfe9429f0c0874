-- ===== src/Conflicts.antt =====
-- `conflictForItem` of frontend/src/lib/conflicts.ts.
pub mod First
mod Tests
use open_pm.Common.{String, Option, none, some, List, [], ◌∷◌, str_eq, if◌then◌else◌, Json}

pub record ConflictSide : Type 0 where
  pub id : String
  pub side_value : Json
  pub source_document_ids : List String
  pub source_filename : String

pub record Conflict : Type 0 where
  pub kind : String
  pub title : String
  pub field : String
  pub a : ConflictSide
  pub b : ConflictSide

pub record ConflictInfo : Type 0 where
  pub field : String
  pub other_value : String
  pub other_source_filename : String

-- `show` is `String(value)`.
module _ (show : Json → String) where
  abbrev pub info_of : Conflict → ConflictSide → ConflictInfo
  info_of c other = record {
    field = c.field;
    other_value = show other.side_value;
    other_source_filename = other.source_filename;
  }

  -- The loop over the conflicts.
  unfoldable pub find_conflict : String → List Conflict → Option ConflictInfo
  find_conflict item [] = none
  find_conflict item (c ∷ cs) =
      let later = find_conflict item cs in
      if str_eq c.a.id item
      then some (info_of c c.b)
      else if str_eq c.b.id item
      then some (info_of c c.a)
      else later

  unfoldable pub conflict_for_item : String → List Conflict → Option ConflictInfo
  conflict_for_item item conflicts = if str_eq item "" then none else find_conflict item conflicts
