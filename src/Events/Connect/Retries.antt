-- ===== src/Events/Connect/Retries.antt =====
-- How often and how fast the loop reconnects, and how it reports that it has stopped.
use open_pm.Common.{
  ℕ, zero, suc, ◌+◌, ◌*◌, ◌^◌, ◌≤◌, Option, none, some, List, [], ◌∷◌, ◌++◌, ◌≡◌, refl, sym, ap,
  ◌∙◌, Bool, true, false, arith, All, All-append, min, ltb, if◌then◌else◌, pow-suc, length,
  Bool-cases, inl, inr, leb, leb→le, Option-cases,
}
use open_pm.Pipeline.Types.{ConnectionState, connecting, open_stream, disconnected}
use open_pm.Events.Connect.{
  max_retries, base_delay_ms, max_delay_ms, Outcome, unauthorized, refused, ended, broken, Round,
  Signal, set_state, pause, Next, after_try, after_throw, prefix, round, connect,
}

-- A pause is between two and thirty seconds.
abbrev pub IsTimely : Signal → Type 0
IsTimely (set_state c) = Unit
IsTimely (pause ms) = (2000 ≤ ms) × (ms ≤ 30000)

abbrev pub Bounded : Option ℕ → Type 0
Bounded none = Unit
Bounded (some retries) = retries ≤ max_retries

two_pow : (n : ℕ) → 2 ≤ 2 ^ suc n
two_pow zero = omega arith
two_pow (suc n) = let h = two_pow n in rw (pow-suc 2 (suc n)) (omega arith)

delay-IsTimely : (n : ℕ) → IsTimely (pause (min (base_delay_ms * 2 ^ suc n) max_delay_ms))
delay-IsTimely n = let h = two_pow n in (omega arith, omega arith)

-- Timely signals, and retries within their bound.
abbrev Paced : Next → Type 0
Paced n = All IsTimely n.signals × Bounded n.retries

after_try-Paced : (c l : Bool) (n : ℕ) → n ≤ max_retries → Paced (after_try c l n)
unfolding after_try
after_try-Paced true l n h = (tt, tt)
after_try-Paced false l n h = elim (Bool-cases (ltb max_retries (suc n))) [
  | inl e ↦ rw e ((tt, tt), tt)
  | inr e ↦ rw e ((tt, (delay-IsTimely n, tt)), bounded l (ground arith))
]
  where
    bounded : (b : Bool) → suc n ≤ max_retries → Bounded (if b then none else some (suc n))
    bounded true k = tt
    bounded false k = k

after_throw-Paced : (c l : Bool) (n : ℕ) → n ≤ max_retries → Paced (after_throw c l n)
unfolding after_throw
after_throw-Paced true l n h = ((tt, tt), tt)
after_throw-Paced false l n h = after_try-Paced false l n h

round-Paced : (r : Round) (n : ℕ) → n ≤ max_retries → Paced (round r n)
unfolding round
round-Paced r n h = by_outcome r.outcome
  where
    by_outcome :
        (o : Outcome)
        → Paced (elim o [
          | unauthorized ↦ record {
            signals = set_state connecting ∷ set_state disconnected ∷ [];
            retries = none;
          }
          | refused ↦
              prefix (set_state connecting ∷ []) (after_throw r.cancelled r.cancelled_later n)
          | ended ↦
              prefix
                (set_state connecting ∷ set_state open_stream ∷ [])
                (after_try r.cancelled r.cancelled_later 0)
          | broken ↦
              prefix
                (set_state connecting ∷ set_state open_stream ∷ [])
                (after_throw r.cancelled r.cancelled_later 0)
        ])
    by_outcome unauthorized = ((tt, (tt, tt)), tt)
    by_outcome refused =
        let p = after_throw-Paced r.cancelled r.cancelled_later n h in ((tt, p.0), p.1)
    by_outcome ended =
        let p = after_try-Paced r.cancelled r.cancelled_later 0 (omega arith) in
        ((tt, (tt, p.0)), p.1)
    by_outcome broken =
        let p = after_throw-Paced r.cancelled r.cancelled_later 0 (omega arith) in
        ((tt, (tt, p.0)), p.1)

connect-Paced :
    (rs : List Round) (retries : Option ℕ) → Bounded retries → Paced (connect rs retries)
unfolding connect
connect-Paced [] retries h = (tt, h)
connect-Paced (r ∷ rs) none h = (tt, tt)
connect-Paced (r ∷ rs) (some n) h =
    let here = round-Paced r n h in
    let later = connect-Paced rs (round r n).retries here.1 in
    (All-append IsTimely _ _ here.0 later.0, later.1)

-- Whatever the server does, every pause before a reconnect lasts between 2 and 30 seconds, and the
-- loop never counts more than 6 retries.
pub connect-IsTimely :
    (rs : List Round)
    → All IsTimely (connect rs (some 0)).signals × Bounded (connect rs (some 0)).retries
connect-IsTimely rs = connect-Paced rs (some 0) (omega arith)

-- The connection state that the signals leave, if it was `c`.
abbrev pub last_state : List Signal → ConnectionState → ConnectionState
last_state [] c = c
last_state (set_state c ∷ signals) _ = last_state signals c
last_state (pause ms ∷ signals) c = last_state signals c

last_state-append :
    (xs ys : List Signal) (c : ConnectionState)
    → last_state (xs ++ ys) c ≡ last_state ys (last_state xs c)
last_state-append [] ys c = refl
last_state-append (set_state d ∷ xs) ys c = last_state-append xs ys d
last_state-append (pause ms ∷ xs) ys c = last_state-append xs ys c

abbrev pub IsUncancelled : Round → Type 0
IsUncancelled r = (r.cancelled ≡ false) × (r.cancelled_later ≡ false)

abbrev pub Fails : Round → Type 0
Fails r = (r.outcome ≡ refused) × IsUncancelled r

signals-connect-none : (rs : List Round) → (connect rs none).signals ≡ []
unfolding connect
signals-connect-none [] = refl
signals-connect-none (r ∷ rs) = refl

round_stops :
    (r : Round) (n : ℕ) (c : ConnectionState)
    → IsUncancelled r
    → (round r n).retries ≡ none
    → last_state (round r n).signals c ≡ disconnected
unfolding round after_throw after_try
round_stops r n c u e = ground arith

connect_stops :
    (rs : List Round) (n : ℕ) (c : ConnectionState)
    → All IsUncancelled rs
    → (connect rs (some n)).retries ≡ none
    → last_state (connect rs (some n)).signals c ≡ disconnected
unfolding connect
connect_stops [] n c u e = cc
connect_stops (r ∷ rs) n c (here, later) e = elim (Option-cases (round r n).retries) [
  | inl stop ↦
      last_state-append (round r n).signals (connect rs (round r n).retries).signals c
      ∙ ap (λ o. last_state (connect rs o).signals (last_state (round r n).signals c)) stop
      ∙ ap (λ l. last_state l (last_state (round r n).signals c)) (signals-connect-none rs)
      ∙ round_stops r n c here stop
  | inr (m, more) ↦
      last_state-append (round r n).signals (connect rs (round r n).retries).signals c
      ∙ ap (λ o. last_state (connect rs o).signals (last_state (round r n).signals c)) more
      ∙ connect_stops rs m (last_state (round r n).signals c) later
          (ap (λ o. (connect rs o).retries) (sym more) ∙ e)
]

-- If a loop that is never cancelled has stopped, then the connection state that it leaves is
-- "disconnected", whatever the state was before.
pub connect-disconnected :
    (rs : List Round) (c : ConnectionState)
    → All IsUncancelled rs
    → (connect rs (some 0)).retries ≡ none
    → last_state (connect rs (some 0)).signals c ≡ disconnected
connect-disconnected rs c u e = connect_stops rs 0 c u e

round-Fails :
    (r : Round) (n : ℕ)
    → Fails r
    → (round r n).retries ≡ (if leb (suc n) max_retries then some (suc n) else none)
unfolding round after_throw after_try
round-Fails r n f = ground arith

retries-connect-none : (rs : List Round) → (connect rs none).retries ≡ none
unfolding connect
retries-connect-none [] = refl
retries-connect-none (r ∷ rs) = refl

connect-Fails :
    (rs : List Round) (n : ℕ)
    → All Fails rs
    → n ≤ max_retries
    → (connect rs (some n)).retries
      ≡ (if leb (n + length rs) max_retries then some (n + length rs) else none)
unfolding connect
connect-Fails [] n f h = ground arith
connect-Fails (r ∷ rs) n (here, later) h = elim (Bool-cases (leb (suc n) max_retries)) [
  | inl e ↦
      let next : (round r n).retries ≡ some (suc n) = round-Fails r n here ∙ rw e in
      ap (λ o. (connect rs o).retries) next
      ∙ connect-Fails rs (suc n) later (leb→le _ _ e)
      ∙ ap (λ k. if leb k max_retries then some k else none) (omega arith)
  | inr e ↦
      let next : (round r n).retries ≡ none = round-Fails r n here ∙ rw e in
      let far : leb (n + suc (length rs)) max_retries ≡ false = ground arith in
      ap (λ o. (connect rs o).retries) next
      ∙ retries-connect-none rs
      ∙ sym (ap (λ b. if b then some (n + suc (length rs)) else none) far)
]

-- After k failed requests and nothing else, with no cancellation, the loop is at retry k, up to
-- k = 6; the seventh ends it.
pub connect-gives_up :
    (rs : List Round)
    → All Fails rs
    → (connect rs (some 0)).retries
      ≡ (if leb (length rs) max_retries then some (length rs) else none)
connect-gives_up rs f =
    connect-Fails rs 0 f (omega arith)
    ∙ ap (λ k. if leb k max_retries then some k else none) (omega arith)
