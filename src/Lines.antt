-- ===== src/Lines.antt =====
-- packages/core/src/lineReader.ts: the lines of a stream that comes in chunks.
-- A text is the list of its UTF-16 code units. The chunks are the texts that the stream's
-- `TextDecoder` makes of them, and `flush` is what `decoder.decode()` adds at the end.
mod Split
pub mod Promise
mod Drained
pub mod Chunks
pub mod Encoded
mod Examples
use pinout.Prelude.Text.{Text, trim}
use pinout.Prelude.{
  ℕ, zero, suc, ◌+◌, Bool, true, false, not, ◌&&◌, ◌||◌, Option, none, some, List, [], ◌∷◌, ◌++◌,
  if◌then◌else◌, ltb, leb, nat_beq, length,
}

abbrev pub newline : ℕ
newline = 10

abbrev pub carriage_return : ℕ
carriage_return = 13

-- The default of `maxLineBytes`.
abbrev pub max_protocol_line_bytes : ℕ
max_protocol_line_bytes = 1024

pub record LineReader : Type 0 where
  pub buffer : Text
  pub discarding_oversize_line : Bool

-- What a consumer gets: a line, or a call of `onOversize`.
pub data Event : Type 0 where
  yields : Text → Event
  oversize : ℕ → Event

abbrev pub on_first : ℕ → Option (Text × Text) → Option (Text × Text)
on_first c none = none
on_first c (some (line, rest)) = some (c ∷ line, rest)

-- What stands before the first newline, and what behind it.
unfoldable pub cut_newline : Text → Option (Text × Text)
cut_newline [] = none
cut_newline (c ∷ cs) =
    let later = cut_newline cs in if nat_beq c newline then some ([], cs) else on_first c later

-- `replace(/\r$/, '')`.
unfoldable pub strip_return : Text → Text
strip_return [] = []
strip_return (c ∷ []) = if nat_beq c carriage_return then [] else c ∷ []
strip_return (c ∷ d ∷ cs) = c ∷ strip_return (d ∷ cs)

-- The body of the loop over the lines, and likewise the end of the stream.
unfoldable pub hand_over : ℕ → Bool → Text → List Event
hand_over max_line_bytes discarding line =
    if not discarding && leb (length line) max_line_bytes && ltb 0 (length line)
    then yields line ∷ []
    else if ltb max_line_bytes (length line)
    then oversize (length line) ∷ []
    else []

abbrev pub Turn : Type 0
Turn = LineReader × List Event

abbrev pub after : List Event → Turn → Turn
after events (reader, more) = (reader, events ++ more)

-- The loop over the lines in the buffer, which each takes at least its newline from it.
unfoldable pub drain_lines : ℕ → ℕ → LineReader → Turn
drain_lines max_line_bytes zero reader = (reader, [])
drain_lines max_line_bytes (suc fuel) reader = elim (cut_newline reader.buffer) [
  | none ↦ (reader, [])
  | some (line, rest) ↦
      after (hand_over max_line_bytes reader.discarding_oversize_line (strip_return line))
        (drain_lines max_line_bytes fuel record { buffer = rest; discarding_oversize_line = false })
]

abbrev pub cap_buffer : ℕ → Turn → Turn
cap_buffer max_line_bytes (reader, events) =
    if ltb max_line_bytes (length reader.buffer)
    then (
      record { buffer = []; discarding_oversize_line = true },
      events ++ oversize (length reader.buffer) ∷ [],
    )
    else (reader, events)

-- One round of the loop over the chunks.
unfoldable pub read_chunk : ℕ → LineReader → Text → Turn
read_chunk max_line_bytes reader chunk =
    let buffer = reader.buffer ++ chunk in
    cap_buffer max_line_bytes
      (drain_lines max_line_bytes (length buffer) record reader { buffer = buffer })

unfoldable pub read_end : ℕ → Text → LineReader → List Event
read_end max_line_bytes flush reader =
    hand_over max_line_bytes reader.discarding_oversize_line
      (trim (strip_return (reader.buffer ++ flush)))

unfoldable pub read_on : ℕ → Text → LineReader → List Text → List Event
read_on max_line_bytes flush reader [] = read_end max_line_bytes flush reader
read_on max_line_bytes flush reader (chunk ∷ chunks) =
    let (next, events) = read_chunk max_line_bytes reader chunk in
    events ++ read_on max_line_bytes flush next chunks

abbrev pub new_reader : LineReader
new_reader = record { buffer = []; discarding_oversize_line = false }

unfoldable pub read_lines : ℕ → Text → List Text → List Event
read_lines max_line_bytes flush chunks = read_on max_line_bytes flush new_reader chunks

abbrev pub ends_with_newline : Text → Bool
ends_with_newline [] = false
ends_with_newline (c ∷ []) = nat_beq c newline
ends_with_newline (c ∷ d ∷ cs) = ends_with_newline (d ∷ cs)

-- `encodeLine` up to the `TextEncoder`.
unfoldable pub encode_line : Text → Text
encode_line text = if ends_with_newline text then text else text ++ newline ∷ []
