-- ===== src/Upload/Flow/Once.antt =====
-- Every upload ends with one call of the caller.
use open_pm.Common.{
  ℕ, suc, List, [], ◌∷◌, Bool, true, not, ◌&&◌, ◌||◌, ltb, if◌then◌else◌, ◌≡◌, arith,
}
use open_pm.Upload.Response.Typed.{is_resolved, is_duplicate}
use open_pm.Upload.Flow.{
  Effect, upload, on_success, on_error, Options, World, max_size, after_second, after_error,
  start_upload_with_flow,
}

-- How often the effects call `onSuccess`, call `onError`, and force a duplicate.
abbrev pub successes : List Effect → ℕ
successes [] = 0
successes (on_success ∷ es) = suc (successes es)
successes (_ ∷ es) = successes es

abbrev pub failures : List Effect → ℕ
failures [] = 0
failures (on_error f ∷ es) = suc (failures es)
failures (_ ∷ es) = failures es

abbrev pub forced : List Effect → ℕ
forced [] = 0
forced (upload true ∷ es) = suc (forced es)
forced (_ ∷ es) = forced es

-- The file is small enough, was refused as a duplicate, and the user wants it all the same.
abbrev pub is_forced : Options → World → Bool
is_forced o w = not (ltb max_size o.file_size) && (is_duplicate w.first && w.confirmed)

abbrev pub is_accepted : Options → World → Bool
is_accepted o w =
    not (ltb max_size o.file_size)
    && (is_resolved w.first || (is_duplicate w.first && w.confirmed && is_resolved w.second))

-- An upload ends with one call, of `onSuccess` or of `onError`: of `onSuccess` exactly if the file
-- has at most 50 MB and either the first attempt succeeds, or it fails as a duplicate, the user
-- confirms, and the second attempt succeeds. A duplicate is forced, once, exactly if the file has
-- at most 50 MB, the first attempt fails as a duplicate, and the user confirms.
pub start_upload_with_flow_lem :
    (o : Options) (w : World)
    → (successes (start_upload_with_flow o w) ≡ (if is_accepted o w then 1 else 0))
      × (failures (start_upload_with_flow o w) ≡ (if is_accepted o w then 0 else 1))
      × (forced (start_upload_with_flow o w) ≡ (if is_forced o w then 1 else 0))
unfolding start_upload_with_flow after_error after_second
start_upload_with_flow_lem o w = ground arith
