-- ===== src/Auth/Tests.antt =====
-- Runs of the refresh and of a request.
use open_pm.Common.{
  ℕ, ◌≤◌, ◌+◌, String, has, none, some, List, [], ◌∷◌, ◌≡◌, refl, true, false, not, ◌&&◌, ◌||◌,
  if◌then◌else◌, str, units,
}
use open_pm.Lines.{strip_prefix}
use open_pm.Auth.Store.{User, AuthState}
use open_pm.Auth.Refresh.{
  Tokens, requesting, Client, Step, call, answer, finish, own_message, initial, run,
}
use open_pm.Auth.Refresh.Single.{open_attempts, held, interruptions, run-IsSingle}
use open_pm.Auth.Refresh.Twice.{own_message-doubles}
use open_pm.Auth.Pending.{PendingMessage, Storage}
use open_pm.Auth.Pending.Take.{Distinct}
use open_pm.Auth.Request.{Call, World, request}
use open_pm.Auth.Request.Answers.{
  cleared, has_status, has_token, is_challenged, last_response, success_body, request-session,
}

abbrev ann : User
ann = record { id = "u1"; email = "ann@example.org"; name = none; created_at = "t0" }

abbrev signed_in : AuthState
signed_in = record {
  user = some ann;
  token = some "a1";
  refresh_token = some "r1";
  has_hydrated = true;
}

abbrev fresh : Tokens
fresh = record { access_token = "a2"; refresh_token = "r2" }

abbrev steps : List Step
steps = call ∷ call ∷ answer 0 (some fresh) ∷ call ∷ finish 0 ∷ call ∷ own_message ∷ call ∷ []

run-IsSingle_example :
    let start = record initial { auth = signed_in } in
    open_attempts (run steps start).attempts ≤ interruptions steps start + held (run steps start)
run-IsSingle_example = run-IsSingle steps signed_in

abbrev refreshing : Client
refreshing = record {
  auth = signed_in;
  in_flight = some 0;
  attempts = requesting ann ∷ [];
  sent = "r1" ∷ [];
  broadcasts = [];
  inbox = [];
}

own_message-doubles_example :
    let after =
      run (answer 0 (some fresh) ∷ finish 0 ∷ call ∷ own_message ∷ call ∷ []) refreshing in
    (open_attempts after.attempts ≡ 2) × (after.sent ≡ "r1" ∷ "r2" ∷ "r2" ∷ [])
own_message-doubles_example = own_message-doubles 0 ann fresh refreshing refl refl refl

-- "/api/x".
abbrev get_x : Call
get_x = record {
  path = 47 ∷ 97 ∷ 112 ∷ 105 ∷ 47 ∷ 120 ∷ [];
  headers = [];
  has_form_data = false;
  auth_token = none;
}

abbrev expired : World
expired = record {
  stored_token = some "a1";
  first = some (record { status = 401; body = none });
  new_token = some "a2";
  second = some (record { status = 200; body = some (str "x") });
}

request-session_example : cleared (request get_x expired).effects ≡ (
    if is_challenged get_x expired
      && (not (has_token expired.new_token) || has_status 401 expired.second)
    then 1
    else 0)
request-session_example = request-session get_x expired

answers_test : success_body (last_response get_x expired) ≡ some (str "x")
unfolding strip_prefix
answers_test = refl

abbrev message : String → ℕ → PendingMessage
message project ts = record {
  project_id = project;
  session_id = none;
  content = units "Status?";
  ts = ts;
}

abbrev buffered : Storage
buffered = record {
  is_writable = true;
  messages =
      ("p:none:9", message "p" 9) ∷ ("q:none:7", message "q" 7) ∷ ("p:none:4", message "p" 4) ∷ [];
}

buffered-Distinct : Distinct buffered.messages
unfolding has
buffered-Distinct = (refl, (refl, (refl, tt)))
