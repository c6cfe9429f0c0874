-- ===== src/Documents/Panel/Shown.antt =====
-- The entries of the panel against the documents of the list.
use open_pm.Common.{
  String, Option, none, some, List, [], ◌∷◌, ◌++◌, ◌≡◌, ◌≢◌, refl, ap, sym, ◌∙◌, subst, Bool, true,
  false, not, ◌&&◌, ◌||◌, leb, if◌then◌else◌, str_eq, eq_iff, eq_refl, keep, contains, add,
  contains-add, length, Perm, Bool-cases, inl, inr, arith, some_inj, map, All, All-map, ℤ,
  append_assoc,
}
use mathlib.Core.List.Perm
use mathlib.Core.List.{perm_middle}
use open_pm.Documents.Panel.{
  Document, bulk_upload_threshold, given, in_session, members, RenderEntry, single, group,
  big_session, entry_of, note_group, entries_from, entries, has_parent, top_level_docs, sorted,
  panel,
}

-- The documents that an entry shows.
abbrev pub shown : List RenderEntry → List Document
shown [] = []
shown (single d ∷ es) = d ∷ shown es
shown (group sid ds ∷ es) = ds ++ shown es

shown-append : (xs ys : List RenderEntry) → shown (xs ++ ys) ≡ shown xs ++ shown ys
shown-append [] ys = refl
shown-append (single d ∷ xs) ys = ap (λ l. d ∷ l) (shown-append xs ys)
shown-append (group sid ds ∷ xs) ys =
    ap (λ l. ds ++ l) (shown-append xs ys) ∙ sym (append_assoc ds (shown xs) (shown ys))

-- What passes either of two tests that exclude each other.
keep-either :
    (first second either : Document → Bool) (ds : List Document)
    → ((d : Document) → either d ≡ (first d || second d))
    → ((d : Document) → (first d && second d) ≡ false)
    → Perm (keep first ds ++ keep second ds) (keep either ds)
unfolding keep
keep-either first second either [] h k = Perm.refl _
keep-either first second either (d ∷ ds) h k = elim (Bool-cases (first d)) [
  | inl e ↦
      let n : second d ≡ false = ground (arith, k d) in
      let b : either d ≡ true = ground (arith, h d) in
      rw (e, n, b) (Perm.cons d (keep-either first second either ds h k))
  | inr e ↦ elim (Bool-cases (second d)) [
    | inl f ↦
        let b : either d ≡ true = ground (arith, h d) in
        rw (e, f, b)
          (Perm.trans (perm_middle (keep first ds) (keep second ds))
            (Perm.cons d (keep-either first second either ds h k)))
    | inr f ↦
        let b : either d ≡ false = ground (arith, h d) in
        rw (e, f, b) (keep-either first second either ds h k)
  ]
]

none≢some : {A : Type 0} {a : A} → none ≢ some a
none≢some = λ e. cc

module _ (docs : List Document) where
  abbrev big_of : Document → Option String
  big_of d = big_session docs (given d.change_session_id)

  -- The document is not in a group that is out.
  abbrev waits : List String → Option String → Bool
  waits emitted none = true
  waits emitted (some sid) = not (contains sid emitted)

  waits_nothing : (o : Option String) → waits [] o ≡ true
  unfolding contains
  waits_nothing none = refl
  waits_nothing (some sid) = refl

  abbrev is_waiting : List String → Document → Bool
  is_waiting emitted d = waits emitted (big_of d)

  abbrev IsBig : String → Type 0
  IsBig sid = leb bulk_upload_threshold (length (members sid docs)) ≡ true

  in_session-big_of :
      (sid : String) (d : Document) → in_session sid d ≡ true → IsBig sid → big_of d ≡ some sid
  unfolding big_session
  in_session-big_of sid d h big = cases (given d.change_session_id) refl h
    where
      cases :
          (o : Option String)
          → given d.change_session_id ≡ o
          → (elim o [ none ↦ false | some s ↦ str_eq s sid ]) ≡ true
          → big_session docs o ≡ some sid
      cases none e k = absurd (ground (arith, k))
      cases (some s) e k =
          let same : s ≡ sid = ground (arith, k, eq_iff s sid) in
          ap (λ t. big_session docs (some t)) same ∙ (rw big refl)

  big_of-in_session :
      (sid : String) (d : Document) → big_of d ≡ some sid → (in_session sid d ≡ true) × IsBig sid
  unfolding big_session
  big_of-in_session sid d h = cases (given d.change_session_id) h
    where
      cases :
          (o : Option String)
          → big_session docs o ≡ some sid
          → ((elim o [ none ↦ false | some s ↦ str_eq s sid ]) ≡ true) × IsBig sid
      cases none k = absurd (ground (arith, k))
      cases (some s) k = elim (Bool-cases (leb bulk_upload_threshold (length (members s docs)))) [
        | inl e ↦
            let same : s ≡ sid = some_inj (rw e at k) in
            (ground (arith, same, eq_iff s sid), subst IsBig same e)
        | inr e ↦ absurd (ground (arith, rw e at k))
      ]

  -- The groups that are not out have all their documents in the rest of the list.
  abbrev IsAhead : List String → List Document → Type 0
  IsAhead emitted rest =
      (sid : String)
      → contains sid emitted ≡ false
      → IsBig sid
      → members sid docs ≡ members sid rest

  -- A document that is not of the session `sid` is not in its group.
  apart :
      (sid t : String) (d : Document)
      → big_of d ≡ some t
      → in_session sid d ≡ false
      → str_eq sid t ≡ false
  apart sid t d h e = elim (Bool-cases (str_eq sid t)) [
    | inl f ↦
        let same : t ≡ sid = ground (arith, f, eq_iff sid t) in
        let inside : in_session sid d ≡ true =
          subst (λ s. in_session s d ≡ true) same (big_of-in_session t d h).0 in
        absurd (ground (arith, e, inside))
    | inr f ↦ f
  ]

  -- When a group comes out, its documents stop to wait, and no other ones.
  module _ (sid : String) (emitted : List String) (big : IsBig sid)
      (new : contains sid emitted ≡ false) where
    waits-either :
        (d : Document) → is_waiting emitted d ≡ (in_session sid d || is_waiting (add sid emitted) d)
    waits-either d = elim (Bool-cases (in_session sid d)) [
      | inl e ↦ let o : big_of d ≡ some sid = in_session-big_of sid d e big in rw (o, e, new) refl
      | inr e ↦ cases (big_of d) refl e
    ]
      where
        cases :
            (o : Option String)
            → big_of d ≡ o
            → in_session sid d ≡ false
            → waits emitted o ≡ (in_session sid d || waits (add sid emitted) o)
        cases none h e = rw e refl
        cases (some t) h e =
            let other : str_eq sid t ≡ false = apart sid t d h e in
            ground (arith, e, other, contains-add sid t emitted)

    waits-apart : (d : Document) → (in_session sid d && is_waiting (add sid emitted) d) ≡ false
    waits-apart d = elim (Bool-cases (in_session sid d)) [
      | inl e ↦
          let o : big_of d ≡ some sid = in_session-big_of sid d e big in
          rw (o, e) (ground (arith, contains-add sid sid emitted, eq_refl sid))
      | inr e ↦ rw e refl
    ]

  -- The rest after a document that no group of `emitted'` waits for.
  IsAhead-tail :
      (emitted emitted' : List String) (d : Document) (rest : List Document)
      → IsAhead emitted (d ∷ rest)
      → ((sid : String) → contains sid emitted' ≡ false → contains sid emitted ≡ false)
      → ((sid : String) → contains sid emitted' ≡ false → big_of d ≢ some sid)
      → IsAhead emitted' rest
  unfolding members keep
  IsAhead-tail emitted emitted' d rest ahead fewer other sid new big =
      elim (Bool-cases (in_session sid d)) [
        | inl e ↦ absurd (other sid new (in_session-big_of sid d e big))
        | inr e ↦ rw e at (ahead sid (fewer sid new) big)
      ]

  keep-same :
      (f g : Document → Bool) (ds : List Document)
      → ((d : Document) → f d ≡ g d)
      → keep f ds ≡ keep g ds
  unfolding keep
  keep-same f g [] h = refl
  keep-same f g (d ∷ ds) h = elim (Bool-cases (g d)) [
    | inl e ↦ let k : f d ≡ true = h d ∙ e in rw (e, k) (ap (λ l. d ∷ l) (keep-same f g ds h))
    | inr e ↦ let k : f d ≡ false = h d ∙ e in rw (e, k) (keep-same f g ds h)
  ]

  -- Adding a group that is out changes nothing.
  waits-add :
      (sid : String) (emitted : List String) (o : Option String)
      → contains sid emitted ≡ true
      → waits (add sid emitted) o ≡ waits emitted o
  waits-add sid emitted none h = refl
  waits-add sid emitted (some t) h = ground (arith, contains-add sid t emitted, eq_iff sid t)

  -- The loop shows of the rest what waits in it.
  abbrev IsShown : List String → List Document → Type 0
  IsShown emitted rest =
      Perm (shown (entries_from docs emitted rest)) (keep (is_waiting emitted) rest)

  -- Once the group of a document is noted, the document is in none that is awaited.
  IsAhead-note :
      (emitted : List String) (d : Document) (rest : List Document) (sid : String)
      → big_of d ≡ some sid
      → IsAhead emitted (d ∷ rest)
      → IsAhead (add sid emitted) rest
  IsAhead-note emitted d rest sid h ahead =
      IsAhead-tail emitted (add sid emitted) d rest ahead
        (λ t n. ground (arith, n, contains-add sid t emitted))
        (λ t n k.
          let same : sid ≡ t = some_inj (sym h ∙ k) in
          absurd (ground (arith, n, contains-add sid t emitted, eq_iff sid t, same)))

  members-cons :
      (sid : String) (d : Document) (rest : List Document)
      → in_session sid d ≡ true
      → members sid (d ∷ rest) ≡ d ∷ members sid rest
  unfolding members keep
  members-cons sid d rest h = rw h refl

  group-shown :
      (emitted : List String) (d : Document) (rest : List Document) (sid : String)
      → big_of d ≡ some sid
      → contains sid emitted ≡ false
      → IsAhead emitted (d ∷ rest)
      → IsShown (add sid emitted) rest
      → Perm
          (members sid docs ++ shown (entries_from docs (add sid emitted) rest))
          (d ∷ keep (is_waiting emitted) rest)
  unfolding members
  group-shown emitted d rest sid h new ahead ih =
      let (inside, big) = big_of-in_session sid d h in
      let all : members sid docs ≡ d ∷ members sid rest =
        ahead sid new big ∙ members-cons sid d rest inside in
      let later = shown (entries_from docs (add sid emitted) rest) in
      subst (λ l. Perm (l ++ later) (d ∷ keep (is_waiting emitted) rest)) (sym all)
        (Perm.cons d (
          Perm.trans (Perm.append_left (members sid rest) ih) (
            keep-either (in_session sid) (is_waiting (add sid emitted)) (is_waiting emitted) rest
              (waits-either sid emitted big new) (waits-apart sid emitted big new))))

  round-shown :
      (emitted : List String) (d : Document) (rest : List Document) (o : Option String)
      → big_of d ≡ o
      → IsAhead emitted (d ∷ rest)
      → ((next : List String) → IsAhead next rest → IsShown next rest)
      → Perm (shown (entry_of docs emitted d o ++ entries_from docs (note_group emitted o) rest)) (
          if waits emitted o
          then d ∷ keep (is_waiting emitted) rest
          else keep (is_waiting emitted) rest)
  unfolding entry_of
  round-shown emitted d rest none h ahead ih = Perm.cons d (
      ih emitted
        (IsAhead-tail emitted emitted d rest ahead (λ t n. n) (λ t n k. none≢some (sym h ∙ k))))
  round-shown emitted d rest (some sid) h ahead ih =
      let noted = ih (add sid emitted) (IsAhead-note emitted d rest sid h ahead) in
      elim (Bool-cases (contains sid emitted)) [
        | inl c ↦
            let same =
              keep-same (is_waiting (add sid emitted)) (is_waiting emitted) rest
                (λ x. waits-add sid emitted (big_of x) c) in
            rw c (subst (λ l. Perm (shown (entries_from docs (add sid emitted) rest)) l) same noted)
        | inr c ↦ rw c (group-shown emitted d rest sid h c ahead noted)
      ]

  entries_from-IsShown :
      (rest : List Document) (emitted : List String) → IsAhead emitted rest → IsShown emitted rest
  unfolding entries_from keep
  entries_from-IsShown [] emitted ahead = Perm.refl _
  entries_from-IsShown (d ∷ rest) emitted ahead =
      round-shown emitted d rest (big_of d) refl ahead (entries_from-IsShown rest)

  all_waiting : (ds : List Document) → keep (is_waiting []) ds ≡ ds
  unfolding keep
  all_waiting [] = refl
  all_waiting (d ∷ ds) =
      let free : is_waiting [] d ≡ true = waits_nothing (big_of d) in
      rw free (ap (λ l. d ∷ l) (all_waiting ds))

-- The entries of the list, single documents and the groups of sessions with at least five
-- documents, show every document of the list exactly once.
pub shown-entries : (docs : List Document) → Perm (shown (entries docs)) docs
unfolding entries
shown-entries docs =
    subst (λ l. Perm (shown (entries docs)) l) (all_waiting docs docs)
      (entries_from-IsShown docs docs [] (λ sid n big. refl))

-- A document with a parent is in the set of the attachments.
abbrev Known : List String → Document → Type 0
Known ids d = (not (has_parent d) || contains d.id ids) ≡ true

ids_of : List Document → List String
ids_of ds = map (λ d. d.id) (keep has_parent ds)

attachments-Known : (ds : List Document) → All (Known (ids_of ds)) ds
unfolding keep contains ids_of
attachments-Known [] = tt
attachments-Known (d ∷ ds) = elim (Bool-cases (has_parent d)) [
  | inl e ↦
      let added : ids_of (d ∷ ds) ≡ d.id ∷ ids_of ds = rw e refl in
      subst (λ ids. All (Known ids) (d ∷ ds)) (sym added)
        (
          ground (arith, eq_refl d.id),
          All-map (Known (d.id ∷ ids_of ds)) (λ x h. ground (arith, h)) ds (attachments-Known ds),
        )
  | inr e ↦
      let same : ids_of (d ∷ ds) ≡ ids_of ds = rw e refl in
      subst (λ ids. All (Known ids) (d ∷ ds)) (sym same) (ground (arith, e), attachments-Known ds)
]

Known-apart :
    (ids : List String) (ds : List Document)
    → All (Known ids) ds
    → All (λ d. has_parent d ≡ false) (keep (λ d. not (contains d.id ids)) ds)
unfolding keep
Known-apart ids [] _ = tt
Known-apart ids (d ∷ ds) (k, h) = elim (Bool-cases (contains d.id ids)) [
  | inl e ↦ rw e (Known-apart ids ds h)
  | inr e ↦ rw e (ground (arith, k, e), Known-apart ids ds h)
]

-- Of the documents of a project, whatever the backend sends, the panel shows every one that is
-- listed as top-level exactly once, alone or in a group; and no document with a parent, that is no
-- attachment, is among these.
pub shown-panel :
    (time : String → ℤ) (documents : List Document)
    → Perm (shown (panel time documents)) (top_level_docs (sorted time documents))
      × All (λ d. has_parent d ≡ false) (top_level_docs (sorted time documents))
unfolding panel top_level_docs ids_of
shown-panel time documents =
    let all = sorted time documents in
    let ids = map (λ (d : Document). d.id) (keep has_parent all) in
    (
      shown-entries (keep (λ d. not (contains d.id ids)) all),
      Known-apart ids all (attachments-Known all),
    )
