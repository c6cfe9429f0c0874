-- ===== src/Auth/Refresh/Single.antt =====
-- How many refreshes are under way at a time.
use open_pm.Common.{
  ℕ, zero, suc, ◌+◌, ◌≤◌, String, Option, none, some, List, [], ◌∷◌, ◌++◌, ◌≡◌, refl, arith,
  is_some, some_inj, if◌then◌else◌, str_eq, Bool-cases, inl, inr, ap,
}
use open_pm.Auth.Store.{User, AuthState, set_auth}
use open_pm.Auth.Refresh.{
  Tokens, Progress, requesting, resolved, settled, Client, Step, call, answer, finish, adopt,
  own_message, initial, do_refresh, refresh_access_token, put, progress_of, receive, on_answer,
  on_finish, on_adopt, on_own_message, step, run,
}

-- How many attempts are not over yet.
abbrev pub open_attempts : List Progress → ℕ
open_attempts [] = 0
open_attempts (requesting user ∷ ps) = suc (open_attempts ps)
open_attempts (resolved r ∷ ps) = suc (open_attempts ps)
open_attempts (settled r ∷ ps) = open_attempts ps

abbrev pub is_open : Progress → ℕ
is_open p = open_attempts (p ∷ [])

pub open_attempts-append :
    (ps : List Progress) (p : Progress)
    → open_attempts (ps ++ p ∷ []) ≡ open_attempts ps + is_open p
open_attempts-append [] p = omega arith
open_attempts-append (requesting user ∷ ps) p = omega (arith, open_attempts-append ps p)
open_attempts-append (resolved r ∷ ps) p = omega (arith, open_attempts-append ps p)
open_attempts-append (settled r ∷ ps) p = open_attempts-append ps p

open_attempts-cons :
    (p : Progress) (ps : List Progress) → open_attempts (p ∷ ps) ≡ is_open p + open_attempts ps
open_attempts-cons (requesting user) ps = omega arith
open_attempts-cons (resolved r) ps = omega arith
open_attempts-cons (settled r) ps = omega arith

pub open_attempts-put :
    (i : ℕ) (p q : Progress) (ps : List Progress)
    → progress_of ps i ≡ some q
    → open_attempts (put i p ps) + is_open q ≡ open_attempts ps + is_open p
open_attempts-put i p q [] h = cc
open_attempts-put zero p q (r ∷ ps) h =
    omega
      (arith, open_attempts-cons p ps, open_attempts-cons r ps, ap (λ x. is_open x) (some_inj h))
open_attempts-put (suc i) p q (requesting user ∷ ps) h = omega (arith, open_attempts-put i p q ps h)
open_attempts-put (suc i) p q (resolved r ∷ ps) h = omega (arith, open_attempts-put i p q ps h)
open_attempts-put (suc i) p q (settled r ∷ ps) h = open_attempts-put i p q ps h

-- How many attempts `in_flight` holds.
abbrev pub held : Client → ℕ
held c = if is_some c.in_flight then 1 else 0

-- Whether the step handles a message of the channel, of this tab or another one, while a refresh is
-- in flight, as a number.
abbrev pub interrupts : Step → Client → ℕ
interrupts (adopt t) c = held c
interrupts own_message c = elim c.inbox [ [] ↦ 0 | t ∷ later ↦ held c ]
interrupts _ c = 0

-- How often that happens in a run.
abbrev pub interruptions : List Step → Client → ℕ
interruptions [] c = 0
interruptions (e ∷ es) c = interrupts e c + interruptions es (step e c)

-- At most `n` attempts are not over besides the one in flight.
abbrev IsWithin : ℕ → Client → Type 0
IsWithin n c = open_attempts c.attempts ≤ n + held c

module _ (n : ℕ) where
  start-IsWithin :
      (p : Progress) (c : Client)
      → is_open p ≡ 1
      → c.in_flight ≡ none
      → IsWithin n c
      → open_attempts (c.attempts ++ p ∷ []) ≤ n + 1
  start-IsWithin p c one free h = ground (arith, open_attempts-append c.attempts p)

  do_refresh-IsWithin :
      (user : Option User) (token : Option String) (c : Client)
      → c.in_flight ≡ none
      → IsWithin n c
      → IsWithin n (do_refresh user token c)
  do_refresh-IsWithin none token c free h = start-IsWithin (resolved none) c refl free h
  do_refresh-IsWithin (some user) none c free h = start-IsWithin (resolved none) c refl free h
  do_refresh-IsWithin (some user) (some token) c free h = elim (Bool-cases (str_eq token "")) [
    | inl e ↦ rw e (start-IsWithin (resolved none) c refl free h)
    | inr e ↦ rw e (start-IsWithin (requesting user) c refl free h)
  ]

  call-IsWithin : (c : Client) → IsWithin n c → IsWithin n (refresh_access_token c)
  unfolding refresh_access_token
  call-IsWithin c h = cases c.in_flight refl
    where
      cases :
          (o : Option ℕ)
          → c.in_flight ≡ o
          → IsWithin n (elim o as (λ _. Client) [
            | some p ↦ c
            | none ↦ do_refresh c.auth.user c.auth.refresh_token c
          ])
      cases none free = do_refresh-IsWithin c.auth.user c.auth.refresh_token c free h
      cases (some p) busy = h

  receive-IsWithin :
      (i : ℕ) (user : User) (tokens : Option Tokens) (c : Client)
      → progress_of c.attempts i ≡ some (requesting user)
      → IsWithin n c
      → IsWithin n (receive i user tokens c)
  receive-IsWithin i user none c e h =
      ground (arith, open_attempts-put i (resolved none) (requesting user) c.attempts e)
  receive-IsWithin i user (some t) c e h =
      ground
        (arith, open_attempts-put i (resolved (some t.access_token)) (requesting user) c.attempts e)

  answer-IsWithin :
      (i : ℕ) (tokens : Option Tokens) (c : Client)
      → IsWithin n c
      → IsWithin n (on_answer i tokens c)
  unfolding on_answer
  answer-IsWithin i tokens c h = cases (progress_of c.attempts i) refl
    where
      cases :
          (o : Option Progress)
          → progress_of c.attempts i ≡ o
          → IsWithin n (elim o as (λ _. Client) [
            | some (requesting user) ↦ receive i user tokens c
            | some (resolved r) ↦ c
            | some (settled r) ↦ c
            | none ↦ c
          ])
      cases none e = h
      cases (some (requesting user)) e = receive-IsWithin i user tokens c e h
      cases (some (resolved r)) e = h
      cases (some (settled r)) e = h

  finish-IsWithin : (i : ℕ) (c : Client) → IsWithin n c → IsWithin n (on_finish i c)
  unfolding on_finish
  finish-IsWithin i c h = cases (progress_of c.attempts i) refl
    where
      cases :
          (o : Option Progress)
          → progress_of c.attempts i ≡ o
          → IsWithin n (elim o as (λ _. Client) [
            | some (resolved r) ↦ record c {
              in_flight = none;
              attempts = put i (settled r) c.attempts;
            }
            | some (requesting user) ↦ c
            | some (settled r) ↦ c
            | none ↦ c
          ])
      cases none e = h
      cases (some (requesting user)) e = h
      cases (some (resolved r)) e =
          let gone : open_attempts (put i (settled r) c.attempts) + 1
              ≡ open_attempts c.attempts + 0 =
            open_attempts-put i (settled r) (resolved r) c.attempts e in
          ground arith
      cases (some (settled r)) e = h

  adopt-IsWithin : (t : Tokens) (c : Client) → IsWithin n c → IsWithin (held c + n) (on_adopt t c)
  unfolding on_adopt
  adopt-IsWithin t c h = cases c.auth.user
    where
      cases :
          (o : Option User)
          → IsWithin (held c + n) (elim o as (λ _. Client) [
            | none ↦ c
            | some user ↦ record c {
              auth = set_auth user t.access_token (some t.refresh_token) c.auth;
              in_flight = none;
            }
          ])
      cases none = omega (arith, h)
      cases (some user) = omega (arith, h)

  own_message-IsWithin :
      (c : Client) → IsWithin n c → IsWithin (interrupts own_message c + n) (on_own_message c)
  unfolding on_own_message
  own_message-IsWithin c h = cases c.inbox
    where
      cases :
          (ms : List Tokens)
          → IsWithin ((elim ms [ [] ↦ 0 | t ∷ later ↦ held c ]) + n) (elim ms as (λ _. Client) [
            | [] ↦ c
            | t ∷ later ↦ on_adopt t (record c { inbox = later })
          ])
      cases [] = omega (arith, h)
      cases (t ∷ later) = adopt-IsWithin t (record c { inbox = later }) h

  step-IsWithin : (e : Step) (c : Client) → IsWithin n c → IsWithin (interrupts e c + n) (step e c)
  unfolding step
  step-IsWithin call c h = omega (arith, call-IsWithin c h)
  step-IsWithin (answer i tokens) c h = omega (arith, answer-IsWithin i tokens c h)
  step-IsWithin (finish i) c h = omega (arith, finish-IsWithin i c h)
  step-IsWithin (adopt t) c h = adopt-IsWithin t c h
  step-IsWithin own_message c h = own_message-IsWithin c h

run-from-IsWithin :
    (es : List Step) (n : ℕ) (c : Client)
    → IsWithin n c
    → IsWithin (interruptions es c + n) (run es c)
unfolding run
run-from-IsWithin [] n c h = omega (arith, h)
run-from-IsWithin (e ∷ es) n c h =
    let later = run-from-IsWithin es (interrupts e c + n) (step e c) (step-IsWithin n e c h) in
    omega (arith, later)

-- However the calls, the answers, the ends of the attempts and the messages of the channel follow
-- each other, if the client starts with the session `auth`: the attempts that are not over are at
-- most one while one is in flight, and none otherwise, but for one more for each message, of this tab
-- or another one, that was handled while a refresh was in flight.
pub run-IsSingle :
    (es : List Step) (auth : AuthState)
    → let start = record initial { auth = auth } in
      open_attempts (run es start).attempts ≤ interruptions es start + held (run es start)
unfolding initial
run-IsSingle es auth =
    let start = record initial { auth = auth } in
    omega (arith, run-from-IsWithin es 0 start (omega arith))
