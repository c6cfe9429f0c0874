-- ===== src/Lines/Tests.antt =====
-- Runs of the line readers.
use open_pm.Common.{Text, List, [], ◌∷◌, ◌≡◌, refl, some, none}
use open_pm.Lines.{
  feed, feed_crlf, read_chunks, split_lines, join_crlf, payload, strip_prefix, trim, trim_start,
}
use open_pm.Lines.Chunks.{concat, read_chunks-feed}
use open_pm.Lines.Crlf.{read_chunks-feed_crlf}

-- "a", "b\r", "\nc\n" and "d".
abbrev chunks : List Text
chunks = (97 ∷ []) ∷ (98 ∷ 13 ∷ []) ∷ (10 ∷ 99 ∷ 10 ∷ []) ∷ (100 ∷ []) ∷ []

read_chunks-feed_example : read_chunks feed [] chunks ≡ split_lines (concat chunks)
read_chunks-feed_example = read_chunks-feed chunks

read_chunks-feed_crlf_example :
    read_chunks feed_crlf [] chunks ≡ split_lines (join_crlf (concat chunks))
read_chunks-feed_crlf_example = read_chunks-feed_crlf chunks

feed_tests :
    (read_chunks feed [] chunks ≡ ((97 ∷ 98 ∷ 13 ∷ []) ∷ (99 ∷ []) ∷ [], 100 ∷ []))
    × (read_chunks feed_crlf [] chunks ≡ ((97 ∷ 98 ∷ []) ∷ (99 ∷ []) ∷ [], 100 ∷ []))
unfolding read_chunks feed feed_crlf split_lines join_crlf
feed_tests = (refl, refl)

-- "data:  x " and "event: x".
payload_tests :
    (payload (100 ∷ 97 ∷ 116 ∷ 97 ∷ 58 ∷ 32 ∷ 32 ∷ 120 ∷ 32 ∷ []) ≡ some (120 ∷ []))
    × (payload (101 ∷ 118 ∷ 58 ∷ []) ≡ none)
unfolding payload strip_prefix trim trim_start
payload_tests = (refl, refl)
