-- ===== src/Pipeline/Hydrate/Laws.antt =====
-- What a refetch of the documents changes in the store, and what it leaves alone.
use open_pm.Common.{
  String, Option, none, some, List, [], ◌∷◌, ◌≡◌, refl, arith, lookup, has-lookup, lookup-insert,
  str_eq, eq_iff, if◌then◌else◌, ◌or_else◌,
}
use open_pm.Pipeline.Types.{DocumentRow, PipelineState}
use open_pm.Pipeline.Hydrate.{detail_of_row, hydrate_row, hydrate}

-- The first and the last row of a document.
abbrev pub first_row : String → List DocumentRow → Option DocumentRow
first_row d [] = none
first_row d (r ∷ rs) = if str_eq r.id d then some r else first_row d rs

abbrev pub last_row : String → List DocumentRow → Option DocumentRow
last_row d [] = none
last_row d (r ∷ rs) = last_row d rs or_else (if str_eq r.id d then some r else none)

-- A field of a row that may be missing.
abbrev pub field_of {ℓ} : {A : Type ℓ} → (DocumentRow → A) → Option DocumentRow → Option A
field_of f none = none
field_of f (some r) = some (f r)

module _ (p : String) (r : DocumentRow) (s : PipelineState) (d : String) where
  pipelines-hydrate_row :
      lookup d (hydrate_row p r s).pipelines
      ≡ (lookup d s.pipelines or_else (if str_eq r.id d then some r.processing_status else none))
  unfolding hydrate_row
  pipelines-hydrate_row = ground (
    arith,
    has-lookup r.id s.pipelines,
    lookup-insert r.id d r.processing_status s.pipelines,
    eq_iff r.id d,
  )

  details-hydrate_row :
      lookup d (hydrate_row p r s).details
      ≡ (lookup d s.details or_else (if str_eq r.id d then some (detail_of_row r) else none))
  unfolding hydrate_row
  details-hydrate_row =
      ground (arith, lookup-insert r.id d (detail_of_row r) s.details, eq_iff r.id d)

module _ (p d : String) where
  pipelines-hydrate :
      (rows : List DocumentRow) (s : PipelineState)
      → lookup d (hydrate p rows s).pipelines
        ≡ (lookup d s.pipelines or_else field_of (λ r. r.processing_status) (first_row d rows))
  unfolding hydrate
  pipelines-hydrate [] s = ground arith
  pipelines-hydrate (r ∷ rs) s =
      ground (arith, pipelines-hydrate rs (hydrate_row p r s), pipelines-hydrate_row p r s d)

  details-hydrate :
      (rows : List DocumentRow) (s : PipelineState)
      → lookup d (hydrate p rows s).details
        ≡ (lookup d s.details or_else field_of detail_of_row (first_row d rows))
  unfolding hydrate
  details-hydrate [] s = ground arith
  details-hydrate (r ∷ rs) s =
      ground (arith, details-hydrate rs (hydrate_row p r s), details-hydrate_row p r s d)

  doc_project-hydrate :
      (rows : List DocumentRow) (s : PipelineState)
      → lookup d (hydrate p rows s).doc_project
        ≡ (field_of (λ r. p) (first_row d rows) or_else lookup d s.doc_project)
  unfolding hydrate hydrate_row
  doc_project-hydrate [] s = refl
  doc_project-hydrate (r ∷ rs) s =
      ground
        (arith, doc_project-hydrate rs (hydrate_row p r s), lookup-insert r.id d p s.doc_project)

  doc_names-hydrate :
      (rows : List DocumentRow) (s : PipelineState)
      → lookup d (hydrate p rows s).doc_names
        ≡ (field_of (λ r. r.original_filename) (last_row d rows) or_else lookup d s.doc_names)
  unfolding hydrate hydrate_row
  doc_names-hydrate [] s = refl
  doc_names-hydrate (r ∷ rs) s = ground (
    arith,
    doc_names-hydrate rs (hydrate_row p r s),
    lookup-insert r.id d r.original_filename s.doc_names,
  )

-- What `d` has in the store `t` that a refetch of `rows` for the project `p` makes of `s`.
pub record FillsGaps (p d : String) (rows : List DocumentRow) (s t : PipelineState) : Type 0 where
  pub status :
      lookup d t.pipelines
      ≡ (lookup d s.pipelines or_else field_of (λ r. r.processing_status) (first_row d rows))
  pub detail :
      lookup d t.details ≡ (lookup d s.details or_else field_of detail_of_row (first_row d rows))
  pub project :
      lookup d t.doc_project ≡ (field_of (λ r. p) (first_row d rows) or_else lookup d s.doc_project)
  pub name :
      lookup d t.doc_names
      ≡ (field_of (λ r. r.original_filename) (last_row d rows) or_else lookup d s.doc_names)

-- A refetch keeps the status and the details that a document has in the store, takes them from the
-- document's first row where the store has none, and sets its project, and its name from the
-- document's last row, wherever there is a row of it.
pub hydrate-FillsGaps :
    (p d : String) (rows : List DocumentRow) (s : PipelineState)
    → FillsGaps p d rows s (hydrate p rows s)
hydrate-FillsGaps p d rows s = record {
  status = pipelines-hydrate p d rows s;
  detail = details-hydrate p d rows s;
  project = doc_project-hydrate p d rows s;
  name = doc_names-hydrate p d rows s;
}
