-- ===== src/Lines.antt =====
-- The framing of an event stream, which the two readers share: the chunks of the body are joined,
-- cut into lines, and the payload of each "data: " line is taken out
-- (frontend/src/hooks/useProjectSSE.ts and frontend/src/hooks/useChatStream.ts).
pub mod Chunks
pub mod Crlf
mod Tests
use open_pm.Common.{
  Text, ℕ, Option, none, some, List, [], ◌∷◌, ◌++◌, Bool, true, false, ◌&&◌, ◌||◌, ◌==◌, leb,
  if◌then◌else◌, reverse,
}

-- `const lines = buf.split("\n"); buf = lines.pop()`: the complete lines, and what is left.
abbrev pub attach : ℕ → List Text × Text → List Text × Text
attach c ([], rest) = ([], c ∷ rest)
attach c (l ∷ ls, rest) = ((c ∷ l) ∷ ls, rest)

unfoldable pub split_lines : Text → List Text × Text
split_lines [] = ([], [])
split_lines (c ∷ cs) =
    let (ls, rest) = split_lines cs in if c == 10 then ([] ∷ ls, rest) else attach c (ls, rest)

abbrev pub starts_lf : Text → Bool
starts_lf [] = false
starts_lf (c ∷ cs) = c == 10

-- `buf.replace(/\r\n/g, "\n")`.
unfoldable pub join_crlf : Text → Text
join_crlf [] = []
join_crlf (c ∷ cs) = let rest = join_crlf cs in if c == 13 && starts_lf cs then rest else c ∷ rest

-- A round of the reader of the chat stream: the lines to handle, and the new buffer.
unfoldable pub feed : Text → Text → List Text × Text
feed buf chunk = split_lines (buf ++ chunk)

-- A round of the reader of the project's events.
unfoldable pub feed_crlf : Text → Text → List Text × Text
feed_crlf buf chunk = split_lines (join_crlf (buf ++ chunk))

-- All rounds of a reader, over the chunks of a body.
unfoldable pub read_chunks : (Text → Text → List Text × Text) → Text → List Text → List Text × Text
read_chunks feed buf [] = ([], buf)
read_chunks feed buf (chunk ∷ chunks) =
    let (ls, buf') = feed buf chunk in
    let (later, last) = read_chunks feed buf' chunks in (ls ++ later, last)

-- The characters that `trim` removes.
abbrev pub is_space : ℕ → Bool
is_space c =
    (leb 9 c && leb c 13)
    || c == 32
    || c == 160
    || c == 5760
    || (leb 8192 c && leb c 8202)
    || c == 8232
    || c == 8233
    || c == 8239
    || c == 8287
    || c == 12288
    || c == 65279

unfoldable pub trim_start : Text → Text
trim_start [] = []
trim_start (c ∷ cs) = if is_space c then trim_start cs else c ∷ cs

unfoldable pub trim : Text → Text
trim t = reverse (trim_start (reverse (trim_start t)))

-- `line.startsWith(prefix)`, with the rest of the line.
unfoldable pub strip_prefix : Text → Text → Option Text
strip_prefix [] line = some line
strip_prefix (p ∷ ps) [] = none
strip_prefix (p ∷ ps) (c ∷ cs) = if p == c then strip_prefix ps cs else none

-- "data: ".
abbrev pub data_prefix : Text
data_prefix = 100 ∷ 97 ∷ 116 ∷ 97 ∷ 58 ∷ 32 ∷ []

-- `line.startsWith("data: ")` and `line.slice(6).trim()`.
unfoldable pub payload : Text → Option Text
payload line = elim (strip_prefix data_prefix line) [ none ↦ none | some rest ↦ some (trim rest) ]
