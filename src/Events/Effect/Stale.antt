-- ===== src/Events/Effect/Stale.antt =====
-- What becomes of the loop of the old project when the hook is given another project.
use open_pm.Common.{
  ℕ, zero, suc, ◌<◌, String, List, [], ◌∷◌, ◌++◌, ◌≡◌, refl, ap, sym, ◌∙◌, length, true, false,
  arith, some, get_elem?, some_inj,
}
use open_pm.Events.Connect.{after_throw, after_try, max_retries}
use open_pm.Events.Effect.{
  requesting, pausing, returned, Loop, Hook, mount, unmount, switch_project, throw, wake, at,
  throw_at, wake_at,
}

get_elem?-at :
    (i : ℕ) (f : Loop → Loop) (ls : List Loop) {l : Loop}
    → get_elem? ls i ≡ some l
    → get_elem? (at i f ls) i ≡ some (f l)
get_elem?-at i f [] h = cc
get_elem?-at zero f (l ∷ ls) h = ap (λ l. some (f l)) (some_inj h)
get_elem?-at (suc i) f (l ∷ ls) h = get_elem?-at i f ls h

get_elem?-append :
    (i : ℕ) (xs ys : List Loop) {l : Loop}
    → get_elem? xs i ≡ some l
    → get_elem? (xs ++ ys) i ≡ some l
get_elem?-append i [] ys h = cc
get_elem?-append zero (x ∷ xs) ys h = h
get_elem?-append (suc i) (x ∷ xs) ys h = get_elem?-append i xs ys h

throw_pauses :
    (p : String) (n : ℕ)
    → n < max_retries
    → throw false (record { project = p; phase = requesting n })
      ≡ record { project = p; phase = pausing (suc n) }
unfolding throw after_throw after_try
throw_pauses p n h = ground arith

-- A loop that is there stays before those that were started after it.
at-append :
    (i : ℕ) (f : Loop → Loop) (xs ys : List Loop) {l : Loop}
    → get_elem? xs i ≡ some l
    → at i f (xs ++ ys) ≡ at i f xs ++ ys
at-append i f [] ys h = cc
at-append zero f (x ∷ xs) ys h = refl
at-append (suc i) f (x ∷ xs) ys h = ap (λ l. x ∷ l) (at-append i f xs ys h)

length-at : (i : ℕ) (f : Loop → Loop) (ls : List Loop) → length (at i f ls) ≡ length ls
length-at i f [] = refl
length-at zero f (l ∷ ls) = refl
length-at (suc i) f (l ∷ ls) = ap suc (length-at i f ls)

get_elem?-last : (xs : List Loop) (y : Loop) → get_elem? (xs ++ y ∷ []) (length xs) ≡ some y
get_elem?-last [] y = refl
get_elem?-last (x ∷ xs) y = get_elem?-last xs y

-- Two changes of a loop that is there leave the loop after all of them.
get_elem?-at-at :
    (i : ℕ) (f g : Loop → Loop) (ls : List Loop) (y : Loop) {l : Loop}
    → get_elem? ls i ≡ some l
    → get_elem? (at i g (at i f (ls ++ y ∷ []))) (length ls) ≡ some y
get_elem?-at-at i f g ls y h =
    let first = at-append i f ls (y ∷ []) h in
    let second = at-append i g (at i f ls) (y ∷ []) (get_elem?-at i f ls h) in
    let same = length-at i g (at i f ls) ∙ length-at i f ls in
    ap (λ xs. get_elem? (at i g xs) (length ls)) first
    ∙ ap (λ xs. get_elem? xs (length ls)) second
    ∙ ap (λ n. get_elem? (at i g (at i f ls) ++ y ∷ []) n) (sym same)
    ∙ get_elem?-last (at i g (at i f ls)) y

-- If the project changes while a loop requests the old project's events, with a retry left, then the
-- abort of that request does not end the loop: after its pause it requests the events of the old
-- project again, while the loop of the new project, which the change has started, requests those of
-- the new project.
pub switch_project-stale :
    (i n : ℕ) (p q : String) (h : Hook)
    → get_elem? h.loops i ≡ some (record { project = p; phase = requesting n })
    → n < max_retries
    → let after = wake_at i (throw_at i (switch_project q h)) in
      (get_elem? after.loops i ≡ some (record { project = p; phase = requesting (suc n) }))
      × (get_elem? after.loops (length h.loops)
          ≡ some (record { project = q; phase = requesting 0 }))
unfolding wake_at throw_at switch_project mount unmount wake
switch_project-stale i n p q h found few = (
  get_elem?-at i (wake false) _ (
      get_elem?-at i (throw false) _ (get_elem?-append i h.loops _ found)
      ∙ ap some (throw_pauses p n few)),
  get_elem?-at-at i (throw false) (wake false) h.loops _ found,
)

-- If the hook is unmounted with no new mount while a loop requests events, then the abort of that
-- request ends the loop.
pub unmount-ends :
    (i n : ℕ) (p : String) (h : Hook)
    → get_elem? h.loops i ≡ some (record { project = p; phase = requesting n })
    → get_elem? (throw_at i (unmount h)).loops i ≡ some (record { project = p; phase = returned })
unfolding throw_at unmount throw after_throw
unmount-ends i n p h found = get_elem?-at i (throw true) _ found
