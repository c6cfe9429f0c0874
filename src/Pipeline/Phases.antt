-- ===== src/Pipeline/Phases.antt =====
-- frontend/src/lib/pipeline-phases.ts: the labels and the phases of the backend's steps.
pub mod Labels
use Prim.Native.Char.{Char, code}
use Prim.Native.String
use mathlib.Core.Option
use open_pm.Common.{
  ℕ, suc, String, Option, none, some, List, [], ◌∷◌, Dict, Bool, true, false, not, lookup, ◌==◌,
  if◌then◌else◌, ◌otherwise◌,
}
use open_pm.Pipeline.Store.{truthy}

pub data PipelinePhase : Type 0 where
  read analyze merge index : PipelinePhase

abbrev pub pipeline_step_labels : Dict String
pipeline_step_labels =
    ("transcribe", "Transkribieren")
    ∷ ("queued", "Wird vorbereitet")
    ∷ ("parsing", "Datei wird gelesen")
    ∷ ("summarize_extract", "Inhalt wird analysiert")
    ∷ ("state_merge", "Mit Projektstatus zusammenführen")
    ∷ ("state_persist", "Status wird gespeichert")
    ∷ ("changelog", "Änderung protokollieren")
    ∷ ("git_commit", "Version festschreiben")
    ∷ ("embed", "Für Suche indizieren")
    ∷ ("briefing", "Briefing aktualisieren")
    ∷ ("enrich", "Für Suche indizieren")
    ∷ ("complete", "Abgeschlossen")
    ∷ []

abbrev pub pipeline_phase_label : PipelinePhase → String
pipeline_phase_label read = "Datei wird gelesen"
pipeline_phase_label analyze = "Inhalt wird analysiert"
pipeline_phase_label merge = "Status wird zusammengeführt"
pipeline_phase_label index = "Wird durchsuchbar gemacht"

abbrev pub step_to_phase : Dict PipelinePhase
step_to_phase =
    ("transcribe", read)
    ∷ ("queued", read)
    ∷ ("parsing", read)
    ∷ ("summarize_extract", analyze)
    ∷ ("state_merge", merge)
    ∷ ("state_persist", merge)
    ∷ ("changelog", merge)
    ∷ ("git_commit", merge)
    ∷ ("embed", index)
    ∷ ("briefing", index)
    ∷ ("enrich", index)
    ∷ []

abbrev pub phase_order : List PipelinePhase
phase_order = read ∷ analyze ∷ merge ∷ index ∷ []

abbrev pub same_phase : PipelinePhase → PipelinePhase → Bool
same_phase read read = true
same_phase analyze analyze = true
same_phase merge merge = true
same_phase index index = true
same_phase _ _ = false

-- `order.indexOf(phase)`; `none` stands for -1.
unfoldable pub index_of : PipelinePhase → List PipelinePhase → Option ℕ
index_of p [] = none
index_of p (q ∷ qs) =
    let later = Option.map suc (index_of p qs) in if same_phase q p then some 0 else later

unfoldable pub phase_index_for_step : Option String → Option ℕ
phase_index_for_step none = some 0
phase_index_for_step (some raw) =
    if not (truthy (some raw))
    then some 0
    else elim (lookup raw step_to_phase) [ none ↦ some 0 | some p ↦ index_of p phase_order ]

-- `raw.replaceAll("_", " ")`.
unfoldable pub replace_underscores : String → String
replace_underscores String.[] = String.[]
replace_underscores (String.◌∷◌ c s) =
    String.◌∷◌ (if code c == b'_' then " " else c) (replace_underscores s)

unfoldable pub label_for_pipeline_step : Option String → String
label_for_pipeline_step none = "Aktivität"
label_for_pipeline_step (some raw) =
    if not (truthy (some raw))
    then "Aktivität"
    else lookup raw pipeline_step_labels otherwise replace_underscores raw

unfoldable pub label_for_pipeline_phase : Option String → String
label_for_pipeline_phase none = "Aktivität"
label_for_pipeline_phase (some raw) =
    if not (truthy (some raw)) then "Aktivität" else elim (lookup raw step_to_phase) [
      | some p ↦ pipeline_phase_label p
      | none ↦ lookup raw pipeline_step_labels otherwise replace_underscores raw
    ]
