-- ===== src/Lines/Chunks.antt =====
-- packages/core/src/lineReader.ts: the loop over the chunks against the lines of the whole text.
use pinout.Prelude.{
  ℕ, ◌≤◌, ◌<◌, ◌≡◌, refl, sym, ap, subst, ◌∙◌, Bool, true, false, none, List, [], ◌∷◌, ◌++◌, arith,
  if◌then◌else◌, ltb, length, length-append, concat, inl, inr, Bool-cases, All,
}
use mathlib.Core.List.{append-nil, append_assoc}
use pinout.Prelude.Text.{Text, trim}
use pinout.Lines.{
  LineReader, oversize, Turn, cut_newline, strip_return, drain_lines, cap_buffer, read_chunk,
  read_end, read_on, read_lines, new_reader,
}
use pinout.Lines.Split.{Split, split_lines, onto_first, HasNoNewline, split_lines-append}
use pinout.Lines.Promise.{
  lines_of, lines_of-append, if_readable, readable, tail_line, all_lines, expected, FitsAsItIs, Fit,
  hand_over-lines,
}
use pinout.Lines.Drained.{IsKept, drain_lines-free, drain_lines-IsKept}

module _ (max_line_bytes : ℕ) where
  lost_line :
      (flush : Text) (d : Bool) (text : Text) (s : Split)
      → max_line_bytes < length text
      → Fit max_line_bytes d (onto_first text s)
      → (expected max_line_bytes flush true s ≡ expected max_line_bytes flush d (onto_first text s))
        × Fit max_line_bytes true s
  lost_line flush true text ([], tail) p h = (refl, tt)
  lost_line flush true text (line ∷ lines, tail) p h = (refl, h)
  lost_line flush false text ([], tail) p h = (ground (arith, p, length-append text tail), tt)
  lost_line flush false text (line ∷ lines, tail) p (fits, h) =
      let unreadable : if_readable max_line_bytes (strip_return (text ++ line)) ≡ [] =
        ground (arith, p, fits, length-append text line) in
      (
        ap (λ ls. (ls ++ readable max_line_bytes lines) ++ tail_line max_line_bytes flush tail)
            (sym unreadable),
        h,
      )

  cap_buffer-IsKept :
      (flush more : Text) (reader : LineReader) (turn : Turn)
      → HasNoNewline turn.0.buffer
      → IsKept max_line_bytes flush more reader turn
      → IsKept max_line_bytes flush more reader (cap_buffer max_line_bytes turn)
  cap_buffer-IsKept flush more reader (next, events) n k =
      elim (Bool-cases (ltb max_line_bytes (length next.buffer))) [
        | inr f ↦ rw (f) k
        | inl t ↦
            let s = split_lines more in
            let d = next.discarding_oversize_line in
            let whole = split_lines-append next.buffer more n in
            let (lost, fits) =
              lost_line flush d next.buffer s (ground (arith, t))
                (subst (Fit max_line_bytes d) whole k.fit) in
            let late = oversize (length next.buffer) ∷ [] in
            rw (t) record {
              lines =
                  ap (λ ls. ls ++ expected max_line_bytes flush true s)
                    (lines_of-append events late ∙ append-nil (lines_of events))
                  ∙ ap (λ ls. lines_of events ++ ls)
                      (lost ∙ sym (ap (expected max_line_bytes flush d) whole))
                  ∙ k.lines;
              fit = fits;
            }
      ]

  cap_buffer-buffer :
      (turn : Turn)
      → HasNoNewline turn.0.buffer
      → (cut_newline (cap_buffer max_line_bytes turn).0.buffer ≡ none)
        × (length (cap_buffer max_line_bytes turn).0.buffer ≤ max_line_bytes)
  unfolding cut_newline
  cap_buffer-buffer (next, events) n = elim (Bool-cases (ltb max_line_bytes (length next.buffer))) [
    | inl t ↦ rw (t) (refl, omega arith)
    | inr f ↦ rw (f) (n, ground arith)
  ]

  -- The loop over the lines of a chunk comes to its end: behind any chunk, and from any buffer, no
  -- newline is left in the buffer, and the buffer is no longer than a line may be.
  pub read_chunk-buffer :
      (reader : LineReader) (chunk : Text)
      → (cut_newline (read_chunk max_line_bytes reader chunk).0.buffer ≡ none)
        × (length (read_chunk max_line_bytes reader chunk).0.buffer ≤ max_line_bytes)
  unfolding read_chunk
  read_chunk-buffer reader chunk =
      let full = record reader { buffer = reader.buffer ++ chunk } in
      let fuel = length full.buffer in
      cap_buffer-buffer (drain_lines max_line_bytes fuel full)
        (drain_lines-free max_line_bytes fuel full (omega arith))

  read_chunk-IsKept :
      (flush chunk more : Text) (reader : LineReader)
      → Fit max_line_bytes reader.discarding_oversize_line
          (split_lines ((reader.buffer ++ chunk) ++ more))
      → IsKept max_line_bytes flush more
          record reader { buffer = reader.buffer ++ chunk }
          (read_chunk max_line_bytes reader chunk)
  unfolding read_chunk
  read_chunk-IsKept flush chunk more reader h =
      let full = record reader { buffer = reader.buffer ++ chunk } in
      let fuel = length full.buffer in
      cap_buffer-IsKept flush more full (drain_lines max_line_bytes fuel full)
        (drain_lines-free max_line_bytes fuel full (omega arith))
        (drain_lines-IsKept max_line_bytes flush more fuel full (omega arith) h)

  only_tail :
      (flush : Text) (d : Bool) (tail : Text)
      → length tail ≤ max_line_bytes
      → (if d then [] else if_readable max_line_bytes (trim (strip_return (tail ++ flush))))
        ≡ expected max_line_bytes flush d ([], tail)
  only_tail flush false tail p = ground (arith, p)
  only_tail flush true tail p = refl

  read_end-expected :
      (flush : Text) (reader : LineReader)
      → length reader.buffer ≤ max_line_bytes
      → HasNoNewline reader.buffer
      → lines_of (read_end max_line_bytes flush reader)
        ≡ expected max_line_bytes flush reader.discarding_oversize_line (split_lines reader.buffer)
  unfolding read_end split_lines
  read_end-expected flush reader p n =
      let line = trim (strip_return (reader.buffer ++ flush)) in
      let whole : split_lines reader.buffer ≡ ([], reader.buffer) =
        ap split_lines (sym (append-nil reader.buffer))
        ∙ split_lines-append reader.buffer [] n
        ∙ ap (λ b. ([], b)) (append-nil reader.buffer) in
      hand_over-lines max_line_bytes reader.discarding_oversize_line line
      ∙ only_tail flush reader.discarding_oversize_line reader.buffer p
      ∙ sym (ap (expected max_line_bytes flush reader.discarding_oversize_line) whole)

  read_on-expected :
      (flush : Text) (reader : LineReader) (chunks : List Text)
      → length reader.buffer ≤ max_line_bytes
      → HasNoNewline reader.buffer
      → Fit max_line_bytes reader.discarding_oversize_line
          (split_lines (reader.buffer ++ concat chunks))
      → lines_of (read_on max_line_bytes flush reader chunks)
        ≡ expected max_line_bytes flush reader.discarding_oversize_line
            (split_lines (reader.buffer ++ concat chunks))
  unfolding read_on read_chunk
  read_on-expected flush reader [] p n h =
      read_end-expected flush reader p n
      ∙ sym (
          ap (λ b. expected max_line_bytes flush reader.discarding_oversize_line (split_lines b))
            (append-nil reader.buffer))
  read_on-expected flush reader (chunk ∷ chunks) p n h =
      let more = concat chunks in
      let together = append_assoc reader.buffer chunk more in
      let (next, events) = read_chunk max_line_bytes reader chunk in
      let k = read_chunk-IsKept flush chunk more reader (
        subst (λ b. Fit max_line_bytes reader.discarding_oversize_line (split_lines b))
          (sym together) h) in
      let (free, short) = read_chunk-buffer reader chunk in
      lines_of-append events (read_on max_line_bytes flush next chunks)
      ∙ ap (λ ls. lines_of events ++ ls) (read_on-expected flush next chunks short free k.fit)
      ∙ k.lines
      ∙ ap (λ b. expected max_line_bytes flush reader.discarding_oversize_line (split_lines b))
          together

  -- Wherever the stream is cut into chunks, `readLines` yields the lines of the whole text that are
  -- within the limit and not empty, in order and less the carriage return at their end, and what is
  -- behind the last newline, trimmed, if it is within the limit. No line may be within the limit
  -- only for its carriage return.
  pub read_lines-all_lines :
      (flush : Text) (chunks : List Text)
      → All (FitsAsItIs max_line_bytes) (split_lines (concat chunks)).0
      → lines_of (read_lines max_line_bytes flush chunks)
        ≡ all_lines max_line_bytes flush (split_lines (concat chunks))
  unfolding read_lines cut_newline
  read_lines-all_lines flush chunks h =
      read_on-expected flush new_reader chunks (omega arith) refl h
