-- ===== src/Pipeline/Phases/Labels.antt =====
-- What the labels and phase numbers shown in the browser can be.
use Prim.Native.Char.{Char, code}
use open_pm.Common.{
  ℕ, String, Option, none, some, [], ◌∷◌, ◌≡◌, refl, Bool, true, false, Dict, lookup, str_eq,
  eq_iff, if◌then◌else◌, ◌otherwise◌, ◌==◌, Bool-cases, All, not, ◌&&◌, get_elem?, inl, inr,
}
use open_pm.Pipeline.Phases.{
  PipelinePhase, read, analyze, merge, index, pipeline_step_labels, pipeline_phase_label,
  step_to_phase, phase_order, index_of, phase_index_for_step, replace_underscores,
  label_for_pipeline_step, label_for_pipeline_phase,
}

-- No character of the text is an underscore.
unfoldable pub no_underscore : String → Bool
no_underscore String.[] = true
no_underscore (String.◌∷◌ c s) = not (code c == b'_') && no_underscore s

plain_char : (c : Char) → not (code (if code c == b'_' then " " else c) == b'_') ≡ true
plain_char c = elim (Bool-cases (code c == b'_')) [ inl e ↦ rw e refl | inr e ↦ rw e (rw e refl) ]

no_underscore-replace_underscores : (s : String) → no_underscore (replace_underscores s) ≡ true
unfolding replace_underscores no_underscore
no_underscore-replace_underscores String.[] = refl
no_underscore-replace_underscores (String.◌∷◌ c s) =
    rw (plain_char c, no_underscore-replace_underscores s)

-- What holds of every value of a table and of a fallback holds of what is found.
lookup-All {ℓ} :
    {V : Type ℓ} (P : V → Type 0) (k : String) (m : Dict V) (d : V)
    → All (λ (e : String × V). P e.1) m
    → P d
    → P (lookup k m otherwise d)
unfolding lookup
lookup-All P k [] d h p = p
lookup-All {V} P k ((j, v) ∷ m) d (here, later) p = branch (str_eq j k) (lookup-All P k m d later p)
  where
    branch :
        (b : Bool) → P (lookup k m otherwise d) → P ((if b then some v else lookup k m) otherwise d)
    branch true after = here
    branch false after = after

step_labels_plain : All (λ (e : String × String). no_underscore e.1 ≡ true) pipeline_step_labels
unfolding no_underscore
step_labels_plain = (
  refl,
  (refl, (refl, (refl, (refl, (refl, (refl, (refl, (refl, (refl, (refl, (refl, tt))))))))))),
)

phase_label_plain : (p : PipelinePhase) → no_underscore (pipeline_phase_label p) ≡ true
unfolding no_underscore
phase_label_plain read = refl
phase_label_plain analyze = refl
phase_label_plain merge = refl
phase_label_plain index = refl

step_label_plain :
    (raw : String)
    → no_underscore (lookup raw pipeline_step_labels otherwise replace_underscores raw) ≡ true
step_label_plain raw =
    lookup-All (λ l. no_underscore l ≡ true) raw pipeline_step_labels (replace_underscores raw)
      step_labels_plain (no_underscore-replace_underscores raw)

step_plain : (raw : Option String) → no_underscore (label_for_pipeline_step raw) ≡ true
unfolding label_for_pipeline_step no_underscore
step_plain none = refl
step_plain (some raw) = elim (Bool-cases (str_eq raw "")) [
  | inl e ↦ rw e refl
  | inr e ↦ rw e (step_label_plain raw)
]

phase_plain : (raw : Option String) → no_underscore (label_for_pipeline_phase raw) ≡ true
unfolding label_for_pipeline_phase no_underscore
phase_plain none = refl
phase_plain (some raw) = elim (Bool-cases (str_eq raw "")) [
  | inl e ↦ rw e refl
  | inr e ↦ rw e (known (lookup raw step_to_phase))
]
  where
    known :
        (o : Option PipelinePhase)
        → no_underscore (elim o [
          | some p ↦ pipeline_phase_label p
          | none ↦ lookup raw pipeline_step_labels otherwise replace_underscores raw
        ])
          ≡ true
    known (some p) = phase_label_plain p
    known none = step_label_plain raw

-- Whatever step the backend reports, neither label shows an underscore of a technical name.
pub labels_plain :
    (raw : Option String)
    → (no_underscore (label_for_pipeline_step raw) ≡ true)
      × (no_underscore (label_for_pipeline_phase raw) ≡ true)
labels_plain raw = (step_plain raw, phase_plain raw)

abbrev pub phase_of : Option String → PipelinePhase
phase_of none = read
phase_of (some raw) = lookup raw step_to_phase otherwise read

-- The phase number of a step is the place of its phase in the order of the chips, and that of
-- "Datei wird gelesen" for a missing, empty or unknown step.
pub phase_index_for_step_lem :
    (raw : Option String)
    → (i : ℕ) × (phase_index_for_step raw ≡ some i)
      × (get_elem? phase_order i ≡ some (phase_of raw))
unfolding phase_index_for_step index_of lookup
phase_index_for_step_lem none = (0, refl, refl)
phase_index_for_step_lem (some raw) = elim (Bool-cases (str_eq raw "")) [
  | inl e ↦ rw ((eq_iff raw "").0 e) (0, refl, refl)
  | inr e ↦ rw e (known (lookup raw step_to_phase))
]
  where
    known :
        (o : Option PipelinePhase)
        → (i : ℕ) × (elim o as (λ _. Option ℕ) [ none ↦ some 0 | some p ↦ index_of p phase_order ]
            ≡ some i)
          × (get_elem? phase_order i ≡ some (o otherwise read))
    known none = (0, refl, refl)
    known (some read) = (0, refl, refl)
    known (some analyze) = (1, refl, refl)
    known (some merge) = (2, refl, refl)
    known (some index) = (3, refl, refl)
