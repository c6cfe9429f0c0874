-- ===== src/Auth/Request/Answers.antt =====
-- When a request ends the session, and when it succeeds.
use open_pm.Common.{
  Bool-cases, inl, inr, insert, ◌&◌, ◌or_else◌, ℕ, suc, String, Option, none, some, List, [], ◌∷◌,
  ◌++◌, Bool, false, not, ◌&&◌, ◌||◌, ◌==◌, str_eq, if◌then◌else◌, ◌≡◌, refl, arith, Json,
}
use open_pm.Auth.Request.{
  Response, Outcome, value, exception, Effect, fetch, refresh, clear_auth, Call, World, Result,
  is_auth_path, is_ok, with_type, with_bearer, session_lost, after_retry, retry, after_first,
  request,
}

-- How often the effects clear the stored session, and how often they send a request.
abbrev pub cleared : List Effect → ℕ
cleared [] = 0
cleared (clear_auth ∷ es) = suc (cleared es)
cleared (_ ∷ es) = cleared es

abbrev pub fetches : List Effect → ℕ
fetches [] = 0
fetches (fetch headers ∷ es) = suc (fetches es)
fetches (_ ∷ es) = fetches es

-- The status of an answer is `n`.
abbrev pub has_status : ℕ → Option Response → Bool
has_status n none = false
has_status n (some r) = r.status == n

abbrev pub has_token : Option String → Bool
has_token none = false
has_token (some token) = not (str_eq token "")

-- The first answer is a 401 on a path outside "/api/auth/".
abbrev pub is_challenged : Call → World → Bool
is_challenged c w = has_status 401 w.first && not (is_auth_path c.path)

-- The request clears the session, once, exactly if it is answered 401 on a path outside
-- "/api/auth/" and the refresh gives no token or the second request is answered 401 as well.
pub request-session :
    (c : Call) (w : World)
    → cleared (request c w).effects ≡ (
        if is_challenged c w && (not (has_token w.new_token) || has_status 401 w.second)
        then 1
        else 0)
unfolding request retry after_retry after_first
request-session c w = ground arith

-- A request is sent twice exactly if its first answer is a 401 on a path outside "/api/auth/" and
-- the refresh gives a token, and once otherwise.
pub request-fetches :
    (c : Call) (w : World)
    → fetches (request c w).effects ≡ (if is_challenged c w && has_token w.new_token then 2 else 1)
unfolding request retry after_retry after_first
request-fetches c w = ground arith

-- The answer that decides: the second one if the request was sent twice.
abbrev pub last_response : Call → World → Option Response
last_response c w = if is_challenged c w && has_token w.new_token then w.second else w.first

abbrev pub value_of : Outcome → Option Json
value_of (value j) = some j
value_of _ = none

-- The body of a success other than 204.
abbrev pub success_body : Option Response → Option Json
success_body none = none
success_body (some r) = if is_ok r.status && not (r.status == 204) then r.body else none

after_first-value :
    (before : List Effect) (r : Response)
    → value_of (after_first before r).outcome ≡ success_body (some r)
unfolding after_first
after_first-value before r = ground arith

after_retry-value :
    (before : List Effect) (o : Option Response)
    → value_of (after_retry before o).outcome ≡ success_body o
unfolding after_retry
after_retry-value before none = refl
after_retry-value before (some r) = ground arith

retry-value :
    (c : Call) (w : World) (before : List Effect) (r : Response)
    → r.status ≡ 401
    → value_of (retry c w before).outcome
      ≡ success_body (if has_token w.new_token then w.second else some r)
unfolding retry
retry-value c w before r e = cases w.new_token
  where
    lost : none ≡ success_body (some r)
    lost = ground arith

    cases :
        (o : Option String)
        → value_of
            (elim o as (λ _. Result) [
              | none ↦ session_lost (before ++ refresh ∷ [])
              | some token ↦
                  if str_eq token ""
                  then session_lost (before ++ refresh ∷ [])
                  else after_retry
                      (before
                        ++ refresh
                          ∷ fetch (
                              with_type c.has_form_data
                                (insert "Authorization" ("Bearer " & token) c.headers))
                          ∷ [])
                      w.second
            ]).outcome
          ≡ success_body (if has_token o then w.second else some r)
    cases none = lost
    cases (some token) = elim (Bool-cases (str_eq token "")) [
      | inl empty ↦ rw empty lost
      | inr filled ↦ rw filled (after_retry-value _ w.second)
    ]

-- The request gives a value exactly if the answer that decides, the second one if the request was
-- sent twice and the first one otherwise, is a success other than 204 whose body is JSON, and the
-- value is that body.
pub request-value :
    (c : Call) (w : World) → value_of (request c w).outcome ≡ success_body (last_response c w)
unfolding request
request-value c w = cases w.first
  where
    sent : List Effect
    sent =
        fetch
          (with_type c.has_form_data (with_bearer (c.auth_token or_else w.stored_token) c.headers))
        ∷ []

    cases :
        (o : Option Response)
        → value_of
            (elim o as (λ _. Result) [
              | none ↦ record { effects = sent; outcome = exception }
              | some r ↦
                  if r.status == 401 && not (is_auth_path c.path)
                  then retry c w sent
                  else after_first sent r
            ]).outcome
          ≡ success_body (
              if (has_status 401 o && not (is_auth_path c.path)) && has_token w.new_token
              then w.second
              else o)
    cases none = ground arith
    cases (some r) = elim (Bool-cases (r.status == 401 && not (is_auth_path c.path))) [
      | inl challenged ↦ rw challenged (retry-value c w sent r (ground arith))
      | inr passed ↦ rw passed (after_first-value sent r)
    ]
