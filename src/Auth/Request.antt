-- ===== src/Auth/Request.antt =====
-- `request` of frontend/src/lib/api.ts. The environment gives the answers: that of `fetch` (`none`
-- where it throws), that of the refresh, and that of the second `fetch`.
pub mod Answers
use open_pm.Common.{
  Text, ℕ, String, Option, none, some, List, [], ◌∷◌, ◌++◌, Bool, true, false, not, ◌&&◌, ◌==◌, leb,
  ltb, is_some, str_eq, if◌then◌else◌, ◌otherwise◌, ◌or_else◌, Dict, insert, Json, null, str,
  get_field, json_truthy, empty_object, ◌&◌,
}
use open_pm.Lines.{strip_prefix}

pub record ApiError : Type 0 where
  pub status : ℕ
  pub message : Json
  pub detail : Option Json

-- An answer of the server; its body is `none` if it is no JSON.
pub record Response : Type 0 where
  pub status : ℕ
  pub body : Option Json

-- How the promise ends. `exception` is an error that is no `ApiError`: of the network, of
-- `res.json()`, or of reading a field of `null`.
pub data Outcome : Type 0 where
  value : Json → Outcome
  undefined : Outcome
  api_error : ApiError → Outcome
  exception : Outcome

pub data Effect : Type 0 where
  fetch : Dict String → Effect
  refresh : Effect
  clear_auth : Effect
  toast : String → Effect
  go_to_login : Effect

pub record Call : Type 0 where
  pub path : Text
  pub headers : Dict String
  pub has_form_data : Bool
  pub auth_token : Option String

pub record World : Type 0 where
  pub stored_token : Option String
  pub first : Option Response
  pub new_token : Option String
  pub second : Option Response

pub record Result : Type 0 where
  pub effects : List Effect
  pub outcome : Outcome

-- "/api/auth/".
abbrev pub auth_prefix : Text
auth_prefix = 47 ∷ 97 ∷ 112 ∷ 105 ∷ 47 ∷ 97 ∷ 117 ∷ 116 ∷ 104 ∷ 47 ∷ []

abbrev pub is_auth_path : Text → Bool
is_auth_path path = is_some (strip_prefix auth_prefix path)

abbrev pub with_bearer : Option String → Dict String → Dict String
with_bearer none headers = headers
with_bearer (some token) headers =
    if str_eq token "" then headers else insert "Authorization" ("Bearer " & token) headers

abbrev pub with_type : Bool → Dict String → Dict String
with_type has_form_data headers =
    if has_form_data then headers else insert "Content-Type" "application/json" headers

-- `res.ok`.
abbrev pub is_ok : ℕ → Bool
is_ok status = leb 200 status && ltb status 300

-- `await res.json()`.
abbrev pub read_body : Response → Outcome
read_body r = elim r.body [ none ↦ exception | some j ↦ value j ]

-- `body.detail || "Request failed"`.
abbrev pub message_of : Option Json → Json
message_of none = str "Request failed"
message_of (some d) = if json_truthy d then d else str "Request failed"

abbrev pub fail_with : ℕ → Json → Outcome
fail_with status null = exception
fail_with status body =
    let detail = get_field "detail" body in
    api_error (record { status = status; message = message_of detail; detail = detail })

-- `res.json().catch(() => ({}))`, and the error made of it.
abbrev pub request_failed : Response → Outcome
request_failed r = fail_with r.status (r.body otherwise empty_object)

abbrev pub plain_error : ℕ → String → Outcome
plain_error status message =
    api_error (record { status = status; message = str message; detail = none })

abbrev pub session_lost : List Effect → Result
session_lost before = record {
  effects =
      before ++ clear_auth ∷ toast "Sitzung abgelaufen — bitte neu einloggen" ∷ go_to_login ∷ [];
  outcome = plain_error 401 "Unauthorized";
}

-- What follows the answer to the second request.
unfoldable pub after_retry : List Effect → Option Response → Result
after_retry before none = record { effects = before; outcome = exception }
after_retry before (some r) =
    if r.status == 401
    then session_lost before
    else if r.status == 204
    then record { effects = before; outcome = undefined }
    else if is_ok r.status
    then record { effects = before; outcome = read_body r }
    else record { effects = before; outcome = request_failed r }

-- A 401 on a path outside "/api/auth/".
unfoldable pub retry : Call → World → List Effect → Result
retry c w before = elim w.new_token [
  | none ↦ session_lost (before ++ refresh ∷ [])
  | some token ↦
      if str_eq token ""
      then session_lost (before ++ refresh ∷ [])
      else after_retry
          (before
            ++ refresh
              ∷ fetch
                  (with_type c.has_form_data (insert "Authorization" ("Bearer " & token) c.headers))
              ∷ [])
          w.second
]

abbrev pub stop_with : List Effect → String → Outcome → Result
stop_with before text outcome = record { effects = before ++ toast text ∷ []; outcome = outcome }

-- Any other answer.
unfoldable pub after_first : List Effect → Response → Result
after_first before r =
    if r.status == 401
    then record { effects = before; outcome = plain_error 401 "Unauthorized" }
    else if r.status == 403
    then stop_with before "Keine Berechtigung" (plain_error 403 "Forbidden")
    else if r.status == 413
    then stop_with before "Datei zu groß (max. 50MB)" (plain_error 413 "File too large")
    else if leb 500 r.status && not (r.status == 503)
    then stop_with before "Serverfehler, bitte erneut versuchen"
        (plain_error r.status "Server error")
    else if not (is_ok r.status)
    then record { effects = before; outcome = request_failed r }
    else if r.status == 204
    then record { effects = before; outcome = undefined }
    else record { effects = before; outcome = read_body r }

unfoldable pub request : Call → World → Result
request c w =
    let sent =
      fetch
        (with_type c.has_form_data (with_bearer (c.auth_token or_else w.stored_token) c.headers))
      ∷ [] in
    elim w.first [
      | none ↦ record { effects = sent; outcome = exception }
      | some r ↦
          if r.status == 401 && not (is_auth_path c.path)
          then retry c w sent
          else after_first sent r
    ]
