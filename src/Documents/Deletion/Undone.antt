-- ===== src/Documents/Deletion/Undone.antt =====
-- The deletions of a view, over any course of clicks, timers and answers.
use open_pm.Common.{
  ℕ, zero, suc, ◌+◌, Option, none, some, List, [], ◌∷◌, ◌++◌, ◌≡◌, refl, sym, subst, Bool, true,
  false, not, ◌||◌, if◌then◌else◌, ◌==◌, get_elem?, lookup, arith, Bool-cases, inl, inr, some_inj,
  ◌&◌,
}
use open_pm.Documents.Deletion.{
  Deletion, Effect, toast, delete_document, restore_document, invalidate_documents,
  invalidate_state, Deletions, update_at, request_delete, clear_timer, undo_of, undo, fire_of, fire,
  Step, requested, undone, elapsed, step, run,
}

-- How often call `n` has deleted its document.
abbrev pub deletions : ℕ → List Effect → ℕ
deletions n [] = 0
deletions n (delete_document m id ∷ es) =
    let rest = deletions n es in if m == n then suc rest else rest
deletions n (e ∷ es) = deletions n es

deletions-append :
    (n : ℕ) (xs ys : List Effect) → deletions n (xs ++ ys) ≡ deletions n xs + deletions n ys
deletions-append n [] ys = omega arith
deletions-append n (delete_document m id ∷ xs) ys = ground (arith, deletions-append n xs ys)
deletions-append n (toast t ∷ xs) ys = deletions-append n xs ys
deletions-append n (restore_document id ∷ xs) ys = deletions-append n xs ys
deletions-append n (invalidate_documents ∷ xs) ys = deletions-append n xs ys
deletions-append n (invalidate_state ∷ xs) ys = deletions-append n xs ys

-- Call `n` has been made, and can delete nothing any more: it is undone, or its time is over.
abbrev pub is_over : ℕ → List Deletion → Bool
is_over n [] = false
is_over zero (c ∷ cs) = c.cancelled || not c.waiting
is_over (suc n) (c ∷ cs) = is_over n cs

is_over-append : (n : ℕ) (cs ds : List Deletion) → is_over n cs ≡ true → is_over n (cs ++ ds) ≡ true
is_over-append n [] ds h = absurd (ground arith)
is_over-append zero (c ∷ cs) ds h = h
is_over-append (suc n) (c ∷ cs) ds h = is_over-append n cs ds h

is_over-update_at :
    (n m : ℕ) (change : Deletion → Deletion) (cs : List Deletion)
    → ((c : Deletion)
        → (c.cancelled || not c.waiting) ≡ true
        → ((change c).cancelled || not (change c).waiting) ≡ true)
    → is_over n cs ≡ true
    → is_over n (update_at m change cs) ≡ true
unfolding update_at
is_over-update_at n m change [] k h = h
is_over-update_at zero zero change (c ∷ cs) k h = k c h
is_over-update_at zero (suc m) change (c ∷ cs) k h = h
is_over-update_at (suc n) zero change (c ∷ cs) k h = h
is_over-update_at (suc n) (suc m) change (c ∷ cs) k h = is_over-update_at n m change cs k h

is_over-get_elem :
    (n : ℕ) (c : Deletion) (cs : List Deletion)
    → is_over n cs ≡ true
    → get_elem? cs n ≡ some c
    → (c.cancelled || not c.waiting) ≡ true
is_over-get_elem n c [] h e = absurd (ground arith)
is_over-get_elem zero c (d ∷ cs) h e =
    subst (λ x. (x.cancelled || not x.waiting) ≡ true) (some_inj e) h
is_over-get_elem (suc n) c (d ∷ cs) h e = is_over-get_elem n c cs h e

is_over-stop :
    (n : ℕ) (c : Deletion) (cs : List Deletion)
    → get_elem? cs n ≡ some c
    → is_over n (update_at n (λ d. record d { waiting = false }) cs) ≡ true
unfolding update_at
is_over-stop n c [] e = absurd (ground (arith, e))
is_over-stop zero c (d ∷ cs) e = ground arith
is_over-stop (suc n) c (d ∷ cs) e = is_over-stop n c cs e

-- The undoing makes it over.
is_over-cancel :
    (n : ℕ) (c : Deletion) (cs : List Deletion)
    → get_elem? cs n ≡ some c
    → is_over n (update_at n (λ d. record d { cancelled = true }) cs) ≡ true
unfolding update_at
is_over-cancel n c [] e = absurd (ground (arith, e))
is_over-cancel zero c (d ∷ cs) e = refl
is_over-cancel (suc n) c (d ∷ cs) e = is_over-cancel n c cs e

module _ (n : ℕ) where
  -- Call `n` is over, after `k` deletions.
  record Over (k : ℕ) (s : Deletions) : Type 0 where
    over : is_over n s.calls ≡ true
    count : deletions n s.log ≡ k

  clear_timer-over :
      (t : Option ℕ) (cs : List Deletion)
      → is_over n cs ≡ true
      → is_over n (clear_timer t cs) ≡ true
  clear_timer-over none cs h = h
  clear_timer-over (some t) cs h = is_over-update_at n t _ cs (λ c k. ground (arith, k)) h

  undo_of-Over : (k m : ℕ) (o : Option Deletion) (s : Deletions) → Over k s → Over k (undo_of m o s)
  undo_of-Over k m none s v = v
  undo_of-Over k m (some c) s v = record {
    over =
        clear_timer-over (lookup c.doc_id s.pending) _
          (is_over-update_at n m _ s.calls (λ d h. ground (arith, h)) v.over);
    count = ground (
      arith,
      v.count,
      deletions-append n s.log
          (restore_document c.doc_id ∷ invalidate_documents ∷ invalidate_state ∷ []),
    );
  }

  fire_of-Over :
      (k m : ℕ) (o : Option Deletion) (s : Deletions)
      → get_elem? s.calls m ≡ o
      → Over k s
      → Over k (fire_of m o s)
  fire_of-Over k m none s e v = v
  fire_of-Over k m (some c) s e v = elim (Bool-cases c.waiting) [
    | inr w ↦ rw w v
    | inl w ↦ elim (Bool-cases c.cancelled) [
      | inl f ↦ rw (w, f) (record { over = stopped; count = v.count })
      | inr f ↦
          let other : (m == n) ≡ false = apart w f in
          rw (w, f)
            (record {
              over = stopped;
              count = ground (
                arith,
                v.count,
                other,
                deletions-append n s.log (delete_document m c.doc_id ∷ []),
              );
            })
    ]
  ]
    where
      stopped : is_over n (update_at m (λ d. record d { waiting = false }) s.calls) ≡ true
      stopped = is_over-update_at n m _ s.calls (λ d h. ground (arith, h)) v.over

      apart : c.waiting ≡ true → c.cancelled ≡ false → (m == n) ≡ false
      apart w f = elim (Bool-cases (m == n)) [
        | inl same ↦
            let is : m ≡ n = ground (arith, same) in
            let done =
              is_over-get_elem n c s.calls v.over
                (subst (λ x. get_elem? s.calls x ≡ some c) is e) in
            absurd (ground (arith, w, f, done))
        | inr differ ↦ differ
      ]

  step-Over : (k : ℕ) (e : Step) (s : Deletions) → Over k s → Over k (step e s)
  unfolding step request_delete undo fire
  step-Over k (requested doc) s v = record {
    over = is_over-append n s.calls _ v.over;
    count = ground (
      arith,
      v.count,
      deletions-append n s.log (toast (doc.original_filename & " wird gelöscht…") ∷ []),
    );
  }
  step-Over k (undone m) s v = undo_of-Over k m (get_elem? s.calls m) s v
  step-Over k (elapsed m) s v = fire_of-Over k m (get_elem? s.calls m) s refl v

  run-Over : (k : ℕ) (es : List Step) (s : Deletions) → Over k s → Over k (run es s)
  unfolding run
  run-Over k [] s v = v
  run-Over k (e ∷ es) s v = run-Over k es (step e s) (step-Over k e s v)

  undo-Over :
      (c : Deletion) (s : Deletions)
      → get_elem? s.calls n ≡ some c
      → Over (deletions n s.log) (undo n s)
  unfolding undo
  undo-Over c s e =
      subst (λ o. Over (deletions n s.log) (undo_of n o s)) (sym e)
        (record {
          over = clear_timer-over (lookup c.doc_id s.pending) _ (is_over-cancel n c s.calls e);
          count = ground (
            arith,
            deletions-append n s.log
                (restore_document c.doc_id ∷ invalidate_documents ∷ invalidate_state ∷ []),
          );
        })

  -- Once a call of `requestDelete` has been undone, nothing that follows (its timer, other deletions
  -- and undoings, also of the same document) makes it delete its document: it has done so as often
  -- as before the undoing.
  pub run-undone :
      (c : Deletion) (s : Deletions) (es : List Step)
      → get_elem? s.calls n ≡ some c
      → deletions n (run es (undo n s)).log ≡ deletions n s.log
  run-undone c s es e = (run-Over (deletions n s.log) es (undo n s) (undo-Over c s e)).count
