-- ===== src/Auth/Refresh/Twice.antt =====
-- A tab whose own message interrupts its next refresh.
use open_pm.Common.{
  ℕ, zero, suc, String, Option, none, some, List, [], ◌∷◌, ◌++◌, ◌≡◌, refl, ap, ◌∙◌, append_assoc,
  arith, str_eq, false,
}
use open_pm.Auth.Store.{User, set_auth}
use open_pm.Auth.Refresh.{
  Tokens, Progress, requesting, resolved, settled, Client, call, answer, finish, own_message,
  start_attempt, refresh_access_token, put, progress_of, receive, on_answer, on_finish, on_adopt,
  on_own_message, step, run,
}
use open_pm.Auth.Refresh.Single.{open_attempts, open_attempts-append, open_attempts-put}

progress_of-put :
    (i : ℕ) (p q : Progress) (ps : List Progress)
    → progress_of ps i ≡ some q
    → progress_of (put i p ps) i ≡ some p
progress_of-put i p q [] h = cc
progress_of-put zero p q (r ∷ ps) h = refl
progress_of-put (suc i) p q (r ∷ ps) h = progress_of-put i p q ps h

on_answer-requesting :
    (i : ℕ) (user : User) (t : Tokens) (c : Client)
    → progress_of c.attempts i ≡ some (requesting user)
    → on_answer i (some t) c ≡ receive i user (some t) c
unfolding on_answer
on_answer-requesting i user t c h = rw (on_answer, h) refl

on_finish-resolved :
    (i : ℕ) (r : Option String) (c : Client)
    → progress_of c.attempts i ≡ some (resolved r)
    → on_finish i c ≡ record c { in_flight = none; attempts = put i (settled r) c.attempts }
unfolding on_finish
on_finish-resolved i r c h = rw (on_finish, h) refl

-- A call of a client that is signed in with a refresh token and refreshes nothing.
call-starts :
    (user : User) (token : String) (c : Client)
    → c.auth.user ≡ some user
    → c.auth.refresh_token ≡ some token
    → str_eq token "" ≡ false
    → c.in_flight ≡ none
    → refresh_access_token c ≡ start_attempt c (requesting user) (token ∷ [])
unfolding refresh_access_token
call-starts user token c known filled some_text free = rw (free, known, filled, some_text) refl

on_own_message-first :
    (user : User) (t : Tokens) (c : Client)
    → c.auth.user ≡ some user
    → c.inbox ≡ t ∷ []
    → on_own_message c ≡ record c {
      auth = set_auth user t.access_token (some t.refresh_token) c.auth;
      in_flight = none;
      inbox = [];
    }
unfolding on_own_message on_adopt set_auth
on_own_message-first user t c known waiting = rw (waiting, known) refl

module _ (i : ℕ) (user : User) (t : Tokens) (c : Client) where
  -- The client after each of the steps below.
  abbrev answered : Client
  answered = receive i user (some t) c

  abbrev settled_client : Client
  settled_client = record answered {
    in_flight = none;
    attempts = put i (settled (some t.access_token)) answered.attempts;
  }

  abbrev calling : Client
  calling = start_attempt settled_client (requesting user) (t.refresh_token ∷ [])

  abbrev adopted : Client
  adopted = record calling {
    auth = set_auth user t.access_token (some t.refresh_token) calling.auth;
    in_flight = none;
    inbox = [];
  }

  abbrev calling_again : Client
  calling_again = start_attempt adopted (requesting user) (t.refresh_token ∷ [])

  module _ (found : progress_of c.attempts i ≡ some (requesting user))
      (filled : str_eq t.refresh_token "" ≡ false) (empty : c.inbox ≡ []) where
    run-calling_again :
        run (answer i (some t) ∷ finish i ∷ call ∷ own_message ∷ call ∷ []) c ≡ calling_again
    unfolding run step set_auth
    run-calling_again =
        ap (λ d. refresh_access_token (on_own_message (refresh_access_token (on_finish i d))))
          (on_answer-requesting i user t c found)
        ∙ ap (λ d. refresh_access_token (on_own_message (refresh_access_token d)))
            (on_finish-resolved i (some t.access_token) answered (
              progress_of-put i (resolved (some t.access_token)) (requesting user) c.attempts
                found))
        ∙ ap (λ d. refresh_access_token (on_own_message d))
            (call-starts user t.refresh_token settled_client refl refl filled refl)
        ∙ ap refresh_access_token
            (on_own_message-first user t calling refl (ap (λ ms. ms ++ t ∷ []) empty))
        ∙ call-starts user t.refresh_token adopted refl refl filled refl

    open_attempts-calling_again :
        open_attempts calling_again.attempts ≡ suc (open_attempts c.attempts)
    open_attempts-calling_again =
        let one = requesting user in
        let r = some t.access_token in
        omega (
          arith,
          open_attempts-append calling.attempts one,
          open_attempts-append settled_client.attempts one,
          open_attempts-put i (settled r) (resolved r) answered.attempts
              (progress_of-put i (resolved r) one c.attempts found),
          open_attempts-put i (resolved r) one c.attempts found,
        )

    -- If a refresh that is under way succeeds with a refresh token that is not empty while no message
    -- of the tab waits for its own listener, the next call comes before the listener handles the
    -- message of that refresh, and a further call comes after it, then two refreshes are under way in
    -- place of the one that is over, with no message of another tab, and both have sent the same
    -- refresh token.
    pub own_message-doubles :
        let after = run (answer i (some t) ∷ finish i ∷ call ∷ own_message ∷ call ∷ []) c in
        (open_attempts after.attempts ≡ suc (open_attempts c.attempts))
        × (after.sent ≡ c.sent ++ t.refresh_token ∷ t.refresh_token ∷ [])
    own_message-doubles = (
      ap (λ d. open_attempts d.attempts) run-calling_again ∙ open_attempts-calling_again,
      ap (λ (d : Client). d.sent) run-calling_again
          ∙ append_assoc c.sent (t.refresh_token ∷ []) (t.refresh_token ∷ []),
    )
