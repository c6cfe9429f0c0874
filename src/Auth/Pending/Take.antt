-- ===== src/Auth/Pending/Take.antt =====
-- What is taken from the buffer, and what stays in it.
use open_pm.Common.{
  ℕ, ◌≤◌, Text, String, Option, List, [], ◌∷◌, ◌≡◌, refl, ap, ◌∙◌, Bool, true, false, not, leb,
  arith, str_eq, eq_iff, eq_refl, Dict, has, insert, delete, map, Perm, All, Bool-cases, inl, inr,
}
use mathlib.Core.List.Perm
use open_pm.Auth.Pending.{
  PendingMessage, Storage, Taken, write_buffer, buffer_pending_message, matching, delete_all,
  taken_of, place_by_ts, sort_by_ts, is_of, take_pending_messages,
}

-- No key occurs twice.
abbrev pub Distinct : Dict PendingMessage → Type 0
Distinct [] = Unit
Distinct ((key, v) ∷ later) = (has key later ≡ false) × Distinct later

-- The times do not fall, from `lo` on.
abbrev pub Ascending : ℕ → List Taken → Type 0
Ascending lo [] = Unit
Ascending lo (t ∷ ts) = (lo ≤ t.ts) × Ascending t.ts ts

abbrev KeyedApart : String → Dict PendingMessage → Type 0
KeyedApart key m = All (λ (e : String × PendingMessage). str_eq key e.0 ≡ false) m

delete-absent : (key : String) (m : Dict PendingMessage) → has key m ≡ false → delete key m ≡ m
unfolding delete has
delete-absent key [] h = refl
delete-absent key ((here, v) ∷ later) h = ground (arith, delete-absent key later)

matching-KeyedApart :
    (key : String) (test : PendingMessage → Bool) (m : Dict PendingMessage)
    → has key m ≡ false
    → KeyedApart key (matching test m)
unfolding has matching
matching-KeyedApart key test [] h = tt
matching-KeyedApart key test ((here, v) ∷ later) h =
    let others : KeyedApart key (matching test later) =
      matching-KeyedApart key test later (ground arith) in
    let other : str_eq key here ≡ false = ground (arith, eq_iff here key, eq_iff key here) in
    elim (Bool-cases (test v)) [ inl e ↦ rw e (other, others) | inr e ↦ rw e others ]

delete_all-cons :
    (key : String) (v : PendingMessage) (gone m : Dict PendingMessage)
    → KeyedApart key gone
    → delete_all gone ((key, v) ∷ m) ≡ (key, v) ∷ delete_all gone m
unfolding delete_all delete
delete_all-cons key v [] m h = refl
delete_all-cons key v ((here, w) ∷ later) m (ne, apart) =
    rw ne (delete_all-cons key v later (delete here m) apart)

delete_first :
    (key : String) (v : PendingMessage) (gone m : Dict PendingMessage)
    → has key m ≡ false
    → delete_all ((key, v) ∷ gone) ((key, v) ∷ m) ≡ delete_all gone m
unfolding delete_all delete
delete_first key v gone m h = rw (eq_refl key) (ap (λ r. delete_all gone r) (delete-absent key m h))

delete_all-matching :
    (test : PendingMessage → Bool) (m : Dict PendingMessage)
    → Distinct m
    → delete_all (matching test m) m ≡ matching (λ v. not (test v)) m
unfolding matching
delete_all-matching test [] d = unfold delete_all in refl
delete_all-matching test ((key, v) ∷ later) (free, d) = elim (Bool-cases (test v)) [
  | inl e ↦
      rw e (delete_first key v (matching test later) later free ∙ delete_all-matching test later d)
  | inr e ↦ rw e (
      delete_all-cons key v (matching test later) later (matching-KeyedApart key test later free)
      ∙ ap (λ r. (key, v) ∷ r) (delete_all-matching test later d))
]

place_by_ts-perm : (t : Taken) (ts : List Taken) → Perm (place_by_ts t ts) (t ∷ ts)
unfolding place_by_ts
place_by_ts-perm t [] = Perm.refl _
place_by_ts-perm t (u ∷ us) = elim (Bool-cases (leb t.ts u.ts)) [
  | inl e ↦ rw e (Perm.refl _)
  | inr e ↦ rw e (Perm.trans (Perm.cons u (place_by_ts-perm t us)) (Perm.swap _ _ _))
]

sort_by_ts-perm : (ts : List Taken) → Perm (sort_by_ts ts) ts
unfolding sort_by_ts
sort_by_ts-perm [] = Perm.refl _
sort_by_ts-perm (t ∷ ts) =
    Perm.trans (place_by_ts-perm t (sort_by_ts ts)) (Perm.cons t (sort_by_ts-perm ts))

Ascending-place_by_ts :
    (lo : ℕ) (t : Taken) (ts : List Taken)
    → lo ≤ t.ts
    → Ascending lo ts
    → Ascending lo (place_by_ts t ts)
unfolding place_by_ts
Ascending-place_by_ts lo t [] h a = (h, tt)
Ascending-place_by_ts lo t (u ∷ us) h (first, a) = elim (Bool-cases (leb t.ts u.ts)) [
  | inl e ↦ rw e (h, (ground arith, a))
  | inr e ↦ rw e (first, Ascending-place_by_ts u.ts t us (ground arith) a)
]

Ascending-sort_by_ts : (ts : List Taken) → Ascending 0 (sort_by_ts ts)
unfolding sort_by_ts
Ascending-sort_by_ts [] = tt
Ascending-sort_by_ts (t ∷ ts) =
    Ascending-place_by_ts 0 t (sort_by_ts ts) (omega arith) (Ascending-sort_by_ts ts)

-- Taking the messages of a project from a writable storage whose keys are distinct gives exactly
-- the messages of that project, oldest first, and leaves exactly those of the other projects, in
-- their order.
pub take_pending_messages_lem :
    (project : String) (s : Storage)
    → s.is_writable ≡ true
    → Distinct s.messages
    → Perm (take_pending_messages project s).0 (map taken_of (matching (is_of project) s.messages))
      × Ascending 0 (take_pending_messages project s).0
      × ((take_pending_messages project s).1.messages
          ≡ matching (λ v. not (is_of project v)) s.messages)
unfolding take_pending_messages write_buffer
take_pending_messages_lem project s w d = (
  sort_by_ts-perm (map taken_of (matching (is_of project) s.messages)),
  Ascending-sort_by_ts (map taken_of (matching (is_of project) s.messages)),
  rw w (delete_all-matching (is_of project) s.messages d),
)

has-insert_other :
    (key other : String) (v : PendingMessage) (m : Dict PendingMessage)
    → str_eq other key ≡ false
    → has other m ≡ false
    → has other (insert key v m) ≡ false
unfolding has insert
has-insert_other key other v [] ne h = ground (arith, eq_iff other key, eq_iff key other)
has-insert_other key other v ((here, w) ∷ later) ne h = ground (
  arith,
  has-insert_other key other v later,
  eq_iff other key,
  eq_iff key other,
  eq_iff here key,
  eq_iff here other,
)

Distinct-insert :
    (key : String) (v : PendingMessage) (m : Dict PendingMessage)
    → Distinct m
    → Distinct (insert key v m)
unfolding insert has
Distinct-insert key v [] d = (refl, tt)
Distinct-insert key v ((here, w) ∷ later) (free, d) = elim (Bool-cases (str_eq here key)) [
  | inl e ↦ rw e (free, d)
  | inr e ↦ rw e (has-insert_other key here v later e free, Distinct-insert key v later d)
]

-- Buffering a message keeps the keys of the storage distinct.
pub buffer_pending_message-Distinct :
    (show : ℕ → String) (key_time ts : ℕ) (project : String) (session : Option String)
    (content : Text) (s : Storage)
    → Distinct s.messages
    → Distinct (buffer_pending_message show key_time ts project session content s).messages
unfolding buffer_pending_message write_buffer
buffer_pending_message-Distinct show key_time ts project session content s d =
    elim (Bool-cases s.is_writable) [
      | inl e ↦ rw e (Distinct-insert _ _ s.messages d)
      | inr e ↦ rw e d
    ]
