-- ===== src/Chat/Blocks/Laws.antt =====
-- The blocks of an assistant turn hold its whole text and every tool call, each call at its offset.
use open_pm.Common.{
  Text, ℕ, ◌≤◌, List, [], ◌∷◌, ◌++◌, ◌≡◌, ◌≢◌, refl, ap, ◌∙◌, arith, leb, leb→le, length, take,
  drop, min, max, append-nil, All, Bool-cases, inl, inr, Perm, drop-slice, take-slice, take-min,
}
use mathlib.Core.List.Perm
use open_pm.Chat.Types.{ActiveToolCall}
use open_pm.Chat.Blocks.{
  ChatBlock, text, tool, offset_of, place, sort_by_offset, slice, text_block, weave,
  build_chat_blocks,
}

-- The text that the blocks show, and the calls that they show.
abbrev pub prose : List ChatBlock → Text
prose [] = []
prose (text t ∷ bs) = t ++ prose bs
prose (tool c ∷ bs) = prose bs

abbrev pub calls : List ChatBlock → List ActiveToolCall
calls [] = []
calls (text t ∷ bs) = calls bs
calls (tool c ∷ bs) = c ∷ calls bs

abbrev pub IsFilled : ChatBlock → Type 0
IsFilled (text t) = t ≢ []
IsFilled (tool c) = Unit

-- Each call stands where the text before it is the first `offset_of c` code units of `t`.
abbrev pub Placed : Text → Text → List ChatBlock → Type 0
Placed t before [] = Unit
Placed t before (text u ∷ bs) = Placed t (before ++ u) bs
Placed t before (tool c ∷ bs) = (before ≡ take (offset_of c) t) × Placed t before bs

-- The offsets do not fall, from `lo` on.
abbrev pub Ascending : ℕ → List ActiveToolCall → Type 0
Ascending lo [] = Unit
Ascending lo (c ∷ cs) = (lo ≤ offset_of c) × Ascending (offset_of c) cs

prose-text_block : (t : Text) (bs : List ChatBlock) → prose (text_block t bs) ≡ t ++ prose bs
prose-text_block [] bs = refl
prose-text_block (u ∷ us) bs = refl

calls-text_block : (t : Text) (bs : List ChatBlock) → calls (text_block t bs) ≡ calls bs
calls-text_block [] bs = refl
calls-text_block (u ∷ us) bs = refl

All-IsFilled-text_block :
    (t : Text) (bs : List ChatBlock) → All IsFilled bs → All IsFilled (text_block t bs)
All-IsFilled-text_block [] bs h = h
All-IsFilled-text_block (u ∷ us) bs h = ((λ e. cc), h)

Placed-text_block :
    (t before u : Text) (bs : List ChatBlock)
    → Placed t (before ++ u) bs
    → Placed t before (text_block u bs)
Placed-text_block t before [] bs h = rw append-nil at h
Placed-text_block t before (v ∷ vs) bs h = h

cursor_le : (o cursor len : ℕ) → cursor ≤ len → cursor ≤ min (max o cursor) len
cursor_le o cursor len h = omega arith

prose-weave :
    (t : Text) (cursor : ℕ) (cs : List ActiveToolCall)
    → cursor ≤ length t
    → prose (weave t cursor cs) ≡ drop cursor t
unfolding weave
prose-weave t cursor [] h = prose-text_block (drop cursor t) [] ∙ append-nil _
prose-weave t cursor (c ∷ cs) h =
    let off = min (max (offset_of c) cursor) (length t) in
    prose-text_block (slice t cursor off) (tool c ∷ weave t off cs)
    ∙ ap (λ r. slice t cursor off ++ r) (prose-weave t off cs (omega arith))
    ∙ drop-slice t cursor off (cursor_le (offset_of c) cursor (length t) h)

calls-weave : (t : Text) (cursor : ℕ) (cs : List ActiveToolCall) → calls (weave t cursor cs) ≡ cs
unfolding weave
calls-weave t cursor [] = calls-text_block (drop cursor t) []
calls-weave t cursor (c ∷ cs) =
    let off = min (max (offset_of c) cursor) (length t) in
    calls-text_block (slice t cursor off) (tool c ∷ weave t off cs)
    ∙ ap (λ r. c ∷ r) (calls-weave t off cs)

All-IsFilled-weave :
    (t : Text) (cursor : ℕ) (cs : List ActiveToolCall) → All IsFilled (weave t cursor cs)
unfolding weave
All-IsFilled-weave t cursor [] = All-IsFilled-text_block (drop cursor t) [] tt
All-IsFilled-weave t cursor (c ∷ cs) =
    let off = min (max (offset_of c) cursor) (length t) in
    All-IsFilled-text_block (slice t cursor off) _ (tt, All-IsFilled-weave t off cs)

Placed-weave :
    (t : Text) (lo : ℕ) (cs : List ActiveToolCall)
    → Ascending lo cs
    → Placed t (take (min lo (length t)) t) (weave t (min lo (length t)) cs)
unfolding weave
Placed-weave t lo [] h = Placed-text_block t _ (drop (min lo (length t)) t) [] tt
Placed-weave t lo (c ∷ cs) (le, h) =
    let cursor = min lo (length t) in
    let off = min (max (offset_of c) cursor) (length t) in
    let same : off ≡ min (offset_of c) (length t) = omega arith in
    Placed-text_block t (take cursor t) (slice t cursor off) (tool c ∷ weave t off cs) (
      rw (take-slice t cursor off (omega arith))
        (rw same (take-min (offset_of c) t, Placed-weave t (offset_of c) cs h)))

Ascending-place :
    (lo : ℕ) (c : ActiveToolCall) (cs : List ActiveToolCall)
    → lo ≤ offset_of c
    → Ascending lo cs
    → Ascending lo (place c cs)
unfolding place
Ascending-place lo c [] le h = (le, tt)
Ascending-place lo c (d ∷ ds) le (le', h) = elim (Bool-cases (leb (offset_of c) (offset_of d))) [
  | inl e ↦ rw e (le, (leb→le _ _ e, h))
  | inr e ↦ rw e (le', Ascending-place (offset_of d) c ds (ground arith) h)
]

Ascending-sort_by_offset : (cs : List ActiveToolCall) → Ascending 0 (sort_by_offset cs)
unfolding sort_by_offset
Ascending-sort_by_offset [] = tt
Ascending-sort_by_offset (c ∷ cs) =
    Ascending-place 0 c (sort_by_offset cs) (omega arith) (Ascending-sort_by_offset cs)

place-perm : (c : ActiveToolCall) (cs : List ActiveToolCall) → Perm (place c cs) (c ∷ cs)
unfolding place
place-perm c [] = Perm.refl _
place-perm c (d ∷ ds) = elim (Bool-cases (leb (offset_of c) (offset_of d))) [
  | inl e ↦ rw e (Perm.refl _)
  | inr e ↦ rw e (Perm.trans (Perm.cons d (place-perm c ds)) (Perm.swap c d ds))
]

sort_by_offset-perm : (cs : List ActiveToolCall) → Perm (sort_by_offset cs) cs
unfolding sort_by_offset
sort_by_offset-perm [] = Perm.refl _
sort_by_offset-perm (c ∷ cs) =
    Perm.trans (place-perm c (sort_by_offset cs)) (Perm.cons c (sort_by_offset-perm cs))

-- The blocks show the whole text, in order, and none of them is an empty run of text.
pub prose-build_chat_blocks :
    (t : Text) (cs : List ActiveToolCall)
    → (prose (build_chat_blocks t cs) ≡ t) × All IsFilled (build_chat_blocks t cs)
unfolding build_chat_blocks
prose-build_chat_blocks t [] =
    (prose-text_block t [] ∙ append-nil t, All-IsFilled-text_block t [] tt)
prose-build_chat_blocks t (c ∷ cs) = (
  prose-weave t 0 (sort_by_offset (c ∷ cs)) (omega arith),
  All-IsFilled-weave t 0 (sort_by_offset (c ∷ cs)),
)

-- The blocks show every tool call exactly once, in the order of the offsets, and each stands where
-- the text before it is the first `text_offset` code units of the answer (all of it, if the offset
-- lies past its end).
pub calls-build_chat_blocks :
    (t : Text) (cs : List ActiveToolCall)
    → Perm (calls (build_chat_blocks t cs)) cs
      × Ascending 0 (calls (build_chat_blocks t cs))
      × Placed t [] (build_chat_blocks t cs)
unfolding build_chat_blocks
calls-build_chat_blocks t [] = (
  rw (calls-text_block t []) (Perm.refl _),
  rw (calls-text_block t []) tt,
  Placed-text_block t [] t [] tt,
)
calls-build_chat_blocks t (c ∷ cs) =
    let sorted = sort_by_offset (c ∷ cs) in
    (
      rw (calls-weave t 0 sorted) (sort_by_offset-perm (c ∷ cs)),
      rw (calls-weave t 0 sorted) (Ascending-sort_by_offset (c ∷ cs)),
      start sorted (Ascending-sort_by_offset (c ∷ cs)),
    )
  where
    start : (sorted : List ActiveToolCall) → Ascending 0 sorted → Placed t [] (weave t 0 sorted)
    start sorted h =
        let e : min 0 (length t) ≡ 0 = omega arith in rw e at (Placed-weave t 0 sorted h)
