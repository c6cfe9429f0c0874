-- ===== src/Auth/Refresh.antt =====
-- `refreshAccessToken` of frontend/src/lib/authClient.ts as a state machine. Each run of `_doRefresh`
-- is an attempt, known by its place in the order of the runs; `_refreshInFlight` holds one of them.
-- The browser is taken to have a `BroadcastChannel`, and the listener to be started. A message goes
-- to every other channel object of its name, also to that of the listener of the tab that posts it.
pub mod Single
pub mod Twice
use open_pm.Common.{
  ℕ, zero, suc, String, Option, none, some, List, [], ◌∷◌, ◌++◌, length, str_eq, if◌then◌else◌,
}
use open_pm.Auth.Store.{User, AuthState, set_auth, signed_out}

pub record Tokens : Type 0 where
  pub access_token : String
  pub refresh_token : String

-- Where an attempt stands: its request is under way, for the user read before it; its promise is
-- resolved, but `finally` has not run; or both are over.
pub data Progress : Type 0 where
  requesting : User → Progress
  resolved : Option String → Progress
  settled : Option String → Progress

pub record Client : Type 0 where
  pub auth : AuthState
  pub in_flight : Option ℕ
  pub attempts : List Progress
  -- The refresh tokens that requests have sent, and what was posted to the channel.
  pub sent : List String
  pub broadcasts : List Tokens
  -- The messages of this tab that its own listener has not handled yet, oldest first.
  pub inbox : List Tokens

pub data Step : Type 0 where
  -- A call of `refreshAccessToken`.
  call : Step
  -- The request of an attempt is answered; `none` is a failure of any kind.
  answer : ℕ → Option Tokens → Step
  -- The `finally` of an attempt runs.
  finish : ℕ → Step
  -- Another tab has broadcast its tokens.
  adopt : Tokens → Step
  -- The listener handles the oldest message that this tab has posted itself.
  own_message : Step

unfoldable pub initial : Client
unfolding signed_out
initial = record {
  auth = signed_out;
  in_flight = none;
  attempts = [];
  sent = [];
  broadcasts = [];
  inbox = [];
}

abbrev pub start_attempt : Client → Progress → List String → Client
start_attempt c p sent = record c {
  in_flight = some (length c.attempts);
  attempts = c.attempts ++ p ∷ [];
  sent = c.sent ++ sent;
}

-- `_doRefresh` up to its first `await`: with no refresh token or no user it is resolved at once.
abbrev pub do_refresh : Option User → Option String → Client → Client
do_refresh none _ c = start_attempt c (resolved none) []
do_refresh (some user) none c = start_attempt c (resolved none) []
do_refresh (some user) (some token) c =
    if str_eq token ""
    then start_attempt c (resolved none) []
    else start_attempt c (requesting user) (token ∷ [])

-- `if (_refreshInFlight) return _refreshInFlight`.
unfoldable pub refresh_access_token : Client → Client
refresh_access_token c = elim c.in_flight [
  | some p ↦ c
  | none ↦ do_refresh c.auth.user c.auth.refresh_token c
]

-- The same list with `p` at place `i`, if it is that long.
abbrev pub put : ℕ → Progress → List Progress → List Progress
put i p [] = []
put zero p (q ∷ qs) = p ∷ qs
put (suc i) p (q ∷ qs) = q ∷ put i p qs

abbrev pub progress_of : List Progress → ℕ → Option Progress
progress_of [] i = none
progress_of (p ∷ ps) zero = some p
progress_of (p ∷ ps) (suc i) = progress_of ps i

-- The rest of `_doRefresh` after the answer to the request of attempt `i`.
abbrev pub receive : ℕ → User → Option Tokens → Client → Client
receive i user none c = record c { attempts = put i (resolved none) c.attempts }
receive i user (some t) c = record c {
  auth = set_auth user t.access_token (some t.refresh_token) c.auth;
  attempts = put i (resolved (some t.access_token)) c.attempts;
  broadcasts = c.broadcasts ++ t ∷ [];
  inbox = c.inbox ++ t ∷ [];
}

unfoldable pub on_answer : ℕ → Option Tokens → Client → Client
on_answer i tokens c = elim (progress_of c.attempts i) [
  | some (requesting user) ↦ receive i user tokens c
  | some (resolved r) ↦ c
  | some (settled r) ↦ c
  | none ↦ c
]

-- `.finally(() => { _refreshInFlight = null; })`, whichever attempt it belongs to.
unfoldable pub on_finish : ℕ → Client → Client
on_finish i c = elim (progress_of c.attempts i) [
  | some (resolved r) ↦ record c { in_flight = none; attempts = put i (settled r) c.attempts }
  | some (requesting user) ↦ c
  | some (settled r) ↦ c
  | none ↦ c
]

-- The listener of the broadcast channel.
unfoldable pub on_adopt : Tokens → Client → Client
on_adopt t c = elim c.auth.user [
  | none ↦ c
  | some user ↦ record c {
    auth = set_auth user t.access_token (some t.refresh_token) c.auth;
    in_flight = none;
  }
]

-- A message of this tab comes to its own listener, which takes it for one of another tab.
unfoldable pub on_own_message : Client → Client
on_own_message c = elim c.inbox [ [] ↦ c | t ∷ later ↦ on_adopt t (record c { inbox = later }) ]

unfoldable pub step : Step → Client → Client
step call c = refresh_access_token c
step (answer i tokens) c = on_answer i tokens c
step (finish i) c = on_finish i c
step (adopt t) c = on_adopt t c
step own_message c = on_own_message c

unfoldable pub run : List Step → Client → Client
run [] c = c
run (e ∷ es) c = run es (step e c)
