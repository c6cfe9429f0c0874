-- ===== src/Lines/Crlf.antt =====
-- The reader of the project's events joins "\r\n" to "\n" in its buffer. A pair that two chunks
-- divide is joined too.
use open_pm.Common.{
  Text, ℕ, List, [], ◌∷◌, ◌++◌, ◌≡◌, refl, sym, ap, ◌∙◌, Bool, true, false, ◌&&◌, ◌==◌, arith,
  append-nil, append_assoc, Bool-cases, inl, inr, ◌⊎◌, length, length-append,
}
use open_pm.Lines.{attach, split_lines, starts_lf, join_crlf, feed_crlf, read_chunks}
use open_pm.Lines.Chunks.{concat}

-- The lines of a first part, then those of what it leaves with a second part.
abbrev then_crlf : List Text × Text → Text → List Text × Text
then_crlf (ls, rest) v =
    let (later, last) = split_lines (join_crlf (rest ++ v)) in (ls ++ later, last)

abbrev pair_starts : ℕ → Text → Bool
pair_starts c u = c == 13 && starts_lf u

join_pair : (c : ℕ) (u : Text) → pair_starts c u ≡ true → join_crlf (c ∷ u) ≡ join_crlf u
unfolding join_crlf
join_pair c u e = rw e

join_other : (c : ℕ) (u : Text) → pair_starts c u ≡ false → join_crlf (c ∷ u) ≡ c ∷ join_crlf u
unfolding join_crlf
join_other c u e = rw e

split_lf :
    (c : ℕ) (t : Text)
    → (c == 10) ≡ true
    → split_lines (c ∷ t) ≡ ([] ∷ (split_lines t).0, (split_lines t).1)
unfolding split_lines
split_lf c t e = rw e

split_other :
    (c : ℕ) (t : Text) → (c == 10) ≡ false → split_lines (c ∷ t) ≡ attach c (split_lines t)
unfolding split_lines
split_other c t e = rw e

lf_no_pair : (c : ℕ) (u : Text) → (c == 10) ≡ true → pair_starts c u ≡ false
lf_no_pair c u e = ground arith

pair_lf : (c : ℕ) (u : Text) → pair_starts c u ≡ true → starts_lf u ≡ true
pair_lf c u e = ground arith

-- The joined text of a text that starts with a line feed has a complete line.
lf_complete : (u : Text) {r : Text} → starts_lf u ≡ true → split_lines (join_crlf u) ≡ ([], r) → ⊥
lf_complete [] s h = cc
lf_complete (c ∷ u) s h = cc (
    ap (λ (p : List Text × Text). p.0)
      (sym (split_lf c (join_crlf u) s)
        ∙ ap split_lines (sym (join_other c u (lf_no_pair c u s)))
        ∙ h))

starts_lf-attach :
    (c : ℕ) (p : List Text × Text) (v : Text) {r : Text}
    → attach c p ≡ ([], r)
    → starts_lf (r ++ v) ≡ (c == 10)
starts_lf-attach c ([], rest) v h = ap (λ (p : List Text × Text). starts_lf (p.1 ++ v)) (sym h)
starts_lf-attach c (l ∷ ls, rest) v h = cc (ap (λ (p : List Text × Text). p.0) h)

-- If no line of `u` is complete, what is left of it starts as `u` does.
starts_lf-rest :
    (u v : Text) {r : Text}
    → split_lines (join_crlf u) ≡ ([], r)
    → starts_lf (r ++ v) ≡ starts_lf (u ++ v)
starts_lf-rest [] v h = ap (λ (p : List Text × Text). starts_lf (p.1 ++ v)) (sym h ∙ nothing)
  where
    nothing : split_lines (join_crlf []) ≡ ([], [])
    nothing = unfold split_lines join_crlf in refl
starts_lf-rest (c ∷ u) v {r} h = elim (Bool-cases (pair_starts c u)) [
  | inl e ↦
      absurd (lf_complete u {r = r} (pair_lf c u e) (ap split_lines (sym (join_pair c u e)) ∙ h))
  | inr e ↦ elim (Bool-cases (c == 10)) [
    | inl lf ↦ absurd (lf_complete (c ∷ u) {r = r} lf h)
    | inr other ↦
        starts_lf-attach c (split_lines (join_crlf u)) v
          (sym (split_other c (join_crlf u) other) ∙ ap split_lines (sym (join_other c u e)) ∙ h)
  ]
]

starts_lf-append :
    (u v : Text) {l : Text} {ls : List Text} {r : Text}
    → split_lines (join_crlf u) ≡ (l ∷ ls, r)
    → starts_lf (u ++ v) ≡ starts_lf u
starts_lf-append [] v h = cc (ap (λ (p : List Text × Text). p.0) (sym nothing ∙ h))
  where
    nothing : split_lines (join_crlf []) ≡ ([], [])
    nothing = unfold split_lines join_crlf in refl
starts_lf-append (c ∷ u) v h = refl

pair-append : (c : ℕ) (u v : Text) → pair_starts c u ≡ true → pair_starts c (u ++ v) ≡ true
pair-append c [] v h = ground arith
pair-append c (d ∷ u) v h = h

-- The step of the induction at a character that is no line feed and starts no pair in `u`.
append_other :
    (c : ℕ) (u v : Text) (p : List Text × Text)
    → (c == 10) ≡ false
    → pair_starts c u ≡ false
    → split_lines (join_crlf u) ≡ p
    → split_lines (join_crlf (u ++ v)) ≡ then_crlf p v
    → split_lines (join_crlf (c ∷ (u ++ v))) ≡ then_crlf (attach c p) v
append_other c u v ([], r) lf e h ih = elim (Bool-cases (pair_starts c (u ++ v))) [
  | inl pair ↦
      ap split_lines (join_pair c (u ++ v) pair)
      ∙ ih
      ∙ sym (ap split_lines (join_pair c (r ++ v) (same ∙ pair)))
  | inr other ↦
      ap split_lines (join_other c (u ++ v) other)
      ∙ split_other c (join_crlf (u ++ v)) lf
      ∙ ap (attach c) ih
      ∙ sym (split_other c (join_crlf (r ++ v)) lf)
      ∙ sym (ap split_lines (join_other c (r ++ v) (same ∙ other)))
]
  where
    same : pair_starts c (r ++ v) ≡ pair_starts c (u ++ v)
    same = ap (λ (b : Bool). c == 13 && b) (starts_lf-rest u v h)
append_other c u v (l ∷ ls, r) lf e h ih =
    let other : pair_starts c (u ++ v) ≡ false =
      ap (λ (b : Bool). c == 13 && b) (starts_lf-append u v h) ∙ e in
    ap split_lines (join_other c (u ++ v) other)
    ∙ split_other c (join_crlf (u ++ v)) lf
    ∙ ap (attach c) ih

split_lines-join_crlf-append :
    (u v : Text) → split_lines (join_crlf (u ++ v)) ≡ then_crlf (split_lines (join_crlf u)) v
split_lines-join_crlf-append [] v = unfold split_lines join_crlf in refl
split_lines-join_crlf-append (c ∷ u) v = elim (Bool-cases (pair_starts c u)) [
  | inl pair ↦
      ap split_lines (join_pair c (u ++ v) (pair-append c u v pair))
      ∙ split_lines-join_crlf-append u v
      ∙ ap (λ t. then_crlf (split_lines t) v) (sym (join_pair c u pair))
  | inr other ↦
      ap (λ t. split_lines (join_crlf t)) refl
      ∙ cases other (Bool-cases (c == 10)) (split_lines-join_crlf-append u v)
      ∙ ap (λ t. then_crlf (split_lines t) v) (sym (join_other c u other))
]
  where
    cases :
        pair_starts c u ≡ false
        → ((c == 10) ≡ true) ⊎ ((c == 10) ≡ false)
        → split_lines (join_crlf (u ++ v)) ≡ then_crlf (split_lines (join_crlf u)) v
        → split_lines (join_crlf (c ∷ (u ++ v))) ≡ then_crlf (split_lines (c ∷ join_crlf u)) v
    cases other (inl lf) ih =
        ap split_lines (join_other c (u ++ v) (lf_no_pair c (u ++ v) lf))
        ∙ split_lf c (join_crlf (u ++ v)) lf
        ∙ ap (λ (p : List Text × Text). ([] ∷ p.0, p.1)) ih
        ∙ ap (λ (p : List Text × Text). then_crlf p v) (sym (split_lf c (join_crlf u) lf))
    cases other (inr no_lf) ih =
        append_other c u v (split_lines (join_crlf u)) no_lf other refl ih
        ∙ ap (λ (p : List Text × Text). then_crlf p v) (sym (split_other c (join_crlf u) no_lf))

no_more : (xs ys : List Text) → xs ≡ xs ++ ys → ys ≡ []
no_more xs [] h = refl
no_more xs (y ∷ ys) h = absurd (omega (arith, ap length h, length-append xs (y ∷ ys)))

-- What is left of a joined text is joined, and has no complete line.
rest_joined :
    (u : Text)
    → split_lines (join_crlf (split_lines (join_crlf u)).1) ≡ ([], (split_lines (join_crlf u)).1)
rest_joined u =
    let p = split_lines (join_crlf u) in
    let q = split_lines (join_crlf (p.1 ++ [])) in
    let whole : p ≡ (p.0 ++ q.0, q.1) =
      ap (λ t. split_lines (join_crlf t)) (sym (append-nil u))
      ∙ split_lines-join_crlf-append u [] in
    let parts : q ≡ ([], p.1) = λ i. (
      no_more p.0 q.0 (ap (λ (r : List Text × Text). r.0) whole) i,
      sym (ap (λ (r : List Text × Text). r.1) whole) i,
    ) in
    ap (λ t. split_lines (join_crlf t)) (sym (append-nil p.1)) ∙ parts

read_chunks-feed_crlf-from :
    (buf : Text) (chunks : List Text)
    → split_lines (join_crlf buf) ≡ ([], buf)
    → read_chunks feed_crlf buf chunks ≡ split_lines (join_crlf (buf ++ concat chunks))
unfolding read_chunks feed_crlf
read_chunks-feed_crlf-from buf [] h = rw append-nil (sym h)
read_chunks-feed_crlf-from buf (chunk ∷ chunks) h =
    let here = split_lines (join_crlf (buf ++ chunk)) in
    let later = read_chunks-feed_crlf-from here.1 chunks (rest_joined (buf ++ chunk)) in
    ap (λ (p : List Text × Text). (here.0 ++ p.0, p.1)) later
    ∙ sym (split_lines-join_crlf-append (buf ++ chunk) (concat chunks))
    ∙ ap (λ t. split_lines (join_crlf t)) (append_assoc buf chunk (concat chunks))

-- However the body of the event stream is cut into chunks, even between a carriage return and its
-- line feed, its reader hands on the lines of the whole body with every "\r\n" joined, in order, and
-- keeps what follows the last line feed.
pub read_chunks-feed_crlf :
    (chunks : List Text) → read_chunks feed_crlf [] chunks ≡ split_lines (join_crlf (concat chunks))
read_chunks-feed_crlf chunks =
    read_chunks-feed_crlf-from [] chunks (unfold split_lines join_crlf in refl)
