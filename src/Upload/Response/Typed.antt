-- ===== src/Upload/Response/Typed.antt =====
-- When an upload succeeds, and when its error is that of a duplicate.
use open_pm.Common.{
  ℕ, String, Bool, true, false, ◌&&◌, ◌||◌, ◌==◌, leb, ltb, is_some, str_eq, ◌otherwise◌, ◌≡◌, refl,
  arith, str, get_field,
}
use open_pm.Upload.Response.{
  Ending, load, network_error, aborted, duplicate, unsupported, Upload, resolved, rejected,
  detail_object, is_text, classify, upload_file,
}

abbrev pub is_resolved : Upload → Bool
is_resolved (resolved j) = true
is_resolved (rejected e) = false

abbrev pub is_duplicate : Upload → Bool
is_duplicate (rejected (duplicate id name detail)) = true
is_duplicate _ = false

abbrev pub is_unsupported : Upload → Bool
is_unsupported (rejected (unsupported allowed hint detail)) = true
is_unsupported _ = false

abbrev pub is_success : Ending → Bool
is_success (load a) =
    leb 200 a.status && ltb a.status 300 && (str_eq a.response_text "" || is_some a.parsed)
is_success _ = false

-- The answer has the status `n`, and `code` where its body carries the code of an error.
abbrev pub names : ℕ → String → Ending → Bool
names n code (load a) =
    a.status == n
    && is_text code (get_field "code" (detail_object (a.parsed otherwise str a.response_text)))
names n code _ = false

-- An upload succeeds exactly if it is answered with a status from 200 to 299 and a body that is
-- empty or JSON. It fails as a duplicate exactly if it is answered 409 with the code "duplicate",
-- and as unsupported exactly if it is answered 415 with the code "unsupported_media_type".
pub upload_file_lem :
    (file_name : String) (e : Ending)
    → (is_resolved (upload_file file_name e) ≡ is_success e)
      × (is_duplicate (upload_file file_name e) ≡ names 409 "duplicate" e)
      × (is_unsupported (upload_file file_name e) ≡ names 415 "unsupported_media_type" e)
unfolding upload_file classify
upload_file_lem file_name (load a) = ground arith
upload_file_lem file_name network_error = (refl, refl, refl)
upload_file_lem file_name aborted = (refl, refl, refl)
