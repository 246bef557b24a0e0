-- ===== src/Lines/Examples.antt =====
-- packages/core/src/lineReader.ts: chunks as a device sends them.
use pinout.Prelude.{◌≤◌, ◌≡◌, refl, none, List, [], ◌∷◌, ◌++◌, arith, concat, length, inl}
use pinout.Prelude.Text.{Text, trim}
use pinout.Lines.{
  max_protocol_line_bytes, yields, oversize, cut_newline, strip_return, newline, carriage_return,
  hand_over, drain_lines, read_chunk, read_end, read_on, read_lines, new_reader,
}
use pinout.Lines.Split.{split_lines}
use pinout.Lines.Promise.{lines_of, all_lines}
use pinout.Lines.Chunks.{read_chunk-buffer, read_lines-all_lines}
use pinout.Lines.Encoded.{late_newline_drops_line}

-- `ok`, a carriage return and a newline, `re` | `ady`, a newline, ` v` | `1 ` and a return.
abbrev pieces : List Text
pieces =
    (111 ∷ 107 ∷ 13 ∷ 10 ∷ 114 ∷ 101 ∷ [])
    ∷ (97 ∷ 100 ∷ 121 ∷ 10 ∷ 32 ∷ 118 ∷ [])
    ∷ (49 ∷ 32 ∷ 13 ∷ [])
    ∷ []

abbrev ready : Text
ready = 114 ∷ 101 ∷ 97 ∷ 100 ∷ 121 ∷ []

reads_pieces :
    lines_of (read_lines max_protocol_line_bytes [] pieces)
    ≡ (111 ∷ 107 ∷ []) ∷ ready ∷ (118 ∷ 49 ∷ []) ∷ []
unfolding read_lines read_on read_chunk drain_lines read_end hand_over cut_newline strip_return trim
reads_pieces = refl

-- A chunk with a line that is too long tells so once for its beginning.
tells_oversize :
    read_lines 2 [] ((49 ∷ 50 ∷ 51 ∷ []) ∷ (52 ∷ 10 ∷ 53 ∷ 10 ∷ []) ∷ [])
    ≡ oversize 3 ∷ yields (53 ∷ []) ∷ []
unfolding read_lines read_on read_chunk drain_lines read_end hand_over cut_newline strip_return trim
tells_oversize = refl

-- A line of the limit's length is read in one chunk.
crlf_in_one_chunk : read_lines 2 [] ((49 ∷ 50 ∷ 13 ∷ 10 ∷ []) ∷ []) ≡ yields (49 ∷ 50 ∷ []) ∷ []
unfolding read_lines read_on read_chunk drain_lines read_end hand_over cut_newline strip_return trim
crlf_in_one_chunk = refl

read_lines-all_lines_example :
    lines_of (read_lines 5 [] pieces) ≡ all_lines 5 [] (split_lines (concat pieces))
unfolding split_lines
read_lines-all_lines_example =
    read_lines-all_lines 5 [] pieces (inl (omega arith), (inl (omega arith), tt))

read_chunk-buffer_example :
    (cut_newline (read_chunk 5 new_reader (114 ∷ 10 ∷ 97 ∷ [])).0.buffer ≡ none)
    × (length (read_chunk 5 new_reader (114 ∷ 10 ∷ 97 ∷ [])).0.buffer ≤ 5)
read_chunk-buffer_example = read_chunk-buffer 5 new_reader (114 ∷ 10 ∷ 97 ∷ [])

late_newline_drops_line_example :
    (lines_of (read_lines 5 [] ((ready ++ carriage_return ∷ newline ∷ []) ∷ [])) ≡ ready ∷ [])
    × (read_lines 5 [] ((ready ++ carriage_return ∷ []) ∷ (newline ∷ []) ∷ []) ≡ oversize 6 ∷ [])
unfolding cut_newline
late_newline_drops_line_example = late_newline_drops_line 5 ready refl refl (omega arith)
