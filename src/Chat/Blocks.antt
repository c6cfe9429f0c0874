-- ===== src/Chat/Blocks.antt =====
-- `buildChatBlocks` of frontend/src/lib/chatBlocks.ts.
pub mod Laws
use open_pm.Common.{
  Text, ℕ, zero, ◌-◌, Option, none, some, List, [], ◌∷◌, ◌++◌, leb, if◌then◌else◌, ◌otherwise◌,
  length, take, drop, min, max,
}
use open_pm.Chat.Types.{ActiveToolCall}

pub data ChatBlock : Type 0 where
  text : Text → ChatBlock
  tool : ActiveToolCall → ChatBlock

-- `call.text_offset ?? 0`.
abbrev pub offset_of : ActiveToolCall → ℕ
offset_of c = c.text_offset otherwise 0

-- `[...invocations].sort((a, b) => offset(a) - offset(b))`, which is stable.
unfoldable pub place : ActiveToolCall → List ActiveToolCall → List ActiveToolCall
place c [] = c ∷ []
place c (d ∷ ds) = if leb (offset_of c) (offset_of d) then c ∷ d ∷ ds else d ∷ place c ds

unfoldable pub sort_by_offset : List ActiveToolCall → List ActiveToolCall
sort_by_offset [] = []
sort_by_offset (c ∷ cs) = place c (sort_by_offset cs)

-- `text.slice(from, to)` for `from` and `to` that are not negative.
abbrev pub slice : Text → ℕ → ℕ → Text
slice t from to = take (to - from) (drop from t)

-- `if (seg) blocks.push({ kind: "text", text: seg })`.
abbrev pub text_block : Text → List ChatBlock → List ChatBlock
text_block [] later = later
text_block (u ∷ us) later = text (u ∷ us) ∷ later

-- The loop over the sorted calls, with what is pushed after it.
unfoldable pub weave : Text → ℕ → List ActiveToolCall → List ChatBlock
weave t cursor [] = text_block (drop cursor t) []
weave t cursor (c ∷ cs) =
    let off = min (max (offset_of c) cursor) (length t) in
    text_block (slice t cursor off) (tool c ∷ weave t off cs)

unfoldable pub build_chat_blocks : Text → List ActiveToolCall → List ChatBlock
build_chat_blocks t [] = text_block t []
build_chat_blocks t (c ∷ cs) = weave t 0 (sort_by_offset (c ∷ cs))
