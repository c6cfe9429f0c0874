-- ===== src/Lines/Chunks.antt =====
-- The lines that a reader hands on do not depend on how the body was cut into chunks.
use open_pm.Common.{
  Text, ℕ, List, [], ◌∷◌, ◌++◌, ◌≡◌, refl, sym, ap, ◌∙◌, false, ◌==◌, append-nil, append_assoc,
  Bool-cases, inl, inr,
}
use open_pm.Lines.{attach, split_lines, feed, read_chunks}

abbrev pub concat : List Text → Text
concat [] = []
concat (c ∷ cs) = c ++ concat cs

-- The lines of a first part, then those of what it leaves with a second part.
abbrev then_lines : List Text × Text → Text → List Text × Text
then_lines (ls, rest) v = let (later, last) = split_lines (rest ++ v) in (ls ++ later, last)

attach-then_lines :
    (c : ℕ) (p : List Text × Text) (v : Text)
    → (c == 10) ≡ false
    → then_lines (attach c p) v ≡ attach c (then_lines p v)
unfolding split_lines
attach-then_lines c ([], rest) v h = rw h
attach-then_lines c (l ∷ ls, rest) v h = refl

split_lines-append : (u v : Text) → split_lines (u ++ v) ≡ then_lines (split_lines u) v
unfolding split_lines
split_lines-append [] v = refl
split_lines-append (c ∷ u) v = elim (Bool-cases (c == 10)) [
  | inl e ↦ rw e (rw (split_lines-append u v))
  | inr e ↦ rw e (rw (split_lines-append u v) (sym (attach-then_lines c (split_lines u) v e)))
]

-- What is left of a text has no complete line.
rest_open : (u : Text) → split_lines (split_lines u).1 ≡ ([], (split_lines u).1)
unfolding split_lines
rest_open [] = refl
rest_open (c ∷ u) = elim (Bool-cases (c == 10)) [
  | inl e ↦ rw e (rest_open u)
  | inr e ↦ rw e (attached (split_lines u) (rest_open u) e)
]
  where
    attached :
        (p : List Text × Text)
        → split_lines p.1 ≡ ([], p.1)
        → (c == 10) ≡ false
        → split_lines (attach c p).1 ≡ ([], (attach c p).1)
    attached ([], rest) h e = rw e (rw h)
    attached (l ∷ ls, rest) h e = h

read_chunks-feed-from :
    (buf : Text) (chunks : List Text)
    → split_lines buf ≡ ([], buf)
    → read_chunks feed buf chunks ≡ split_lines (buf ++ concat chunks)
unfolding read_chunks feed
read_chunks-feed-from buf [] h = rw append-nil (sym h)
read_chunks-feed-from buf (chunk ∷ chunks) h =
    let here = split_lines (buf ++ chunk) in
    let later = read_chunks-feed-from here.1 chunks (rest_open (buf ++ chunk)) in
    ap (λ (p : List Text × Text). (here.0 ++ p.0, p.1)) later
    ∙ sym (split_lines-append (buf ++ chunk) (concat chunks))
    ∙ ap split_lines (append_assoc buf chunk (concat chunks))

-- However the body of a chat answer is cut into chunks, its reader hands on the lines of the whole
-- body, in order, and keeps what follows the last line feed.
pub read_chunks-feed :
    (chunks : List Text) → read_chunks feed [] chunks ≡ split_lines (concat chunks)
unfolding split_lines
read_chunks-feed chunks = read_chunks-feed-from [] chunks refl
