-- ===== src/Conflicts/Tests.antt =====
-- Runs of `conflictForItem`.
use open_pm.Common.{String, [], Json, str}
use open_pm.Conflicts.{Conflict, ConflictSide}

abbrev side : String → ConflictSide
side id = record {
  id = id;
  side_value = str "2026-05-01";
  source_document_ids = [];
  source_filename = "plan.pdf";
}

abbrev between : String → String → Conflict
between a b = record { kind = "date"; title = "Abgabe"; field = "date"; a = side a; b = side b }

abbrev print : Json → String
print j = "2026-05-01"
