-- ===== src/Lines/Drained.antt =====
-- packages/core/src/lineReader.ts: the loop over the lines in the buffer loses nothing.
use pinout.Prelude.{
  ℕ, zero, suc, ◌≤◌, ◌≡◌, refl, sym, ap, subst, ◌∙◌, false, List, [], ◌++◌, arith, length, inl, inr,
  Option-cases,
}
use mathlib.Core.List.{append_assoc}
use pinout.Prelude.Text.{Text}
use pinout.Lines.{LineReader, Event, Turn, after, cut_newline, strip_return, hand_over, drain_lines}
use pinout.Lines.Split.{split_lines, HasNoNewline, HasNoNewline-empty, cut_newline-split}
use pinout.Lines.Promise.{
  lines_of, lines_of-append, expected, Fit, expected-line_first, Fit-line_first,
}

module _ (max_line_bytes : ℕ) where
  -- What a turn leaves: nothing is lost that was to be read.
  pub record IsKept (flush more : Text) (reader : LineReader) (turn : Turn) : Type 0 where
    pub lines :
        lines_of turn.1
          ++ expected max_line_bytes flush turn.0.discarding_oversize_line
              (split_lines (turn.0.buffer ++ more))
        ≡ expected max_line_bytes flush reader.discarding_oversize_line
            (split_lines (reader.buffer ++ more))
    pub fit :
        Fit max_line_bytes turn.0.discarding_oversize_line (split_lines (turn.0.buffer ++ more))

  pub drain_lines-free :
      (fuel : ℕ) (reader : LineReader)
      → length reader.buffer ≤ fuel
      → HasNoNewline (drain_lines max_line_bytes fuel reader).0.buffer
  unfolding drain_lines
  drain_lines-free zero reader p = HasNoNewline-empty reader.buffer p
  drain_lines-free (suc fuel) reader p = elim (Option-cases (cut_newline reader.buffer)) [
    | inl n ↦ rw (n, drain_lines) n
    | inr ((line, rest), e) ↦
        let (_, less) = cut_newline-split reader.buffer line rest [] e in
        rw (e, drain_lines)
          (drain_lines-free fuel record { buffer = rest; discarding_oversize_line = false }
            (omega (arith, p, less)))
  ]

  stay-IsKept :
      (flush more : Text) (reader : LineReader)
      → Fit max_line_bytes reader.discarding_oversize_line (split_lines (reader.buffer ++ more))
      → IsKept flush more reader (reader, [])
  stay-IsKept flush more reader h = record { lines = refl; fit = h }

  after-IsKept :
      (flush more : Text) (reader next : LineReader) (events : List Event) (turn : Turn)
      → lines_of events
          ++ expected max_line_bytes flush next.discarding_oversize_line
              (split_lines (next.buffer ++ more))
        ≡ expected max_line_bytes flush reader.discarding_oversize_line
            (split_lines (reader.buffer ++ more))
      → IsKept flush more next turn
      → IsKept flush more reader (after events turn)
  after-IsKept flush more reader next events turn e k = record {
    lines =
        ap (λ ls. ls ++ left_over) (lines_of-append events turn.1)
        ∙ append_assoc (lines_of events) (lines_of turn.1) left_over
        ∙ ap (λ ls. lines_of events ++ ls) k.lines
        ∙ e;
    fit = k.fit;
  }
    where
      left_over : List Text
      left_over =
          expected max_line_bytes flush turn.0.discarding_oversize_line
            (split_lines (turn.0.buffer ++ more))

  pub drain_lines-IsKept :
      (flush more : Text) (fuel : ℕ) (reader : LineReader)
      → length reader.buffer ≤ fuel
      → Fit max_line_bytes reader.discarding_oversize_line (split_lines (reader.buffer ++ more))
      → IsKept flush more reader (drain_lines max_line_bytes fuel reader)
  unfolding drain_lines
  drain_lines-IsKept flush more zero reader p h = stay-IsKept flush more reader h
  drain_lines-IsKept flush more (suc fuel) reader p h =
      elim (Option-cases (cut_newline reader.buffer)) [
        | inl n ↦ rw (n, drain_lines) (stay-IsKept flush more reader h)
        | inr ((line, rest), e) ↦
            let next : LineReader = record { buffer = rest; discarding_oversize_line = false } in
            let events =
              hand_over max_line_bytes reader.discarding_oversize_line (strip_return line) in
            let (cut, less) = cut_newline-split reader.buffer line rest more e in
            let fits =
              Fit-line_first max_line_bytes reader.discarding_oversize_line line
                (split_lines (rest ++ more))
                (subst (Fit max_line_bytes reader.discarding_oversize_line) cut h) in
            let same : lines_of events
                  ++ expected max_line_bytes flush false (split_lines (rest ++ more))
                ≡ expected max_line_bytes flush reader.discarding_oversize_line
                    (split_lines (reader.buffer ++ more)) =
              sym (
                ap (expected max_line_bytes flush reader.discarding_oversize_line) cut
                ∙ expected-line_first max_line_bytes flush reader.discarding_oversize_line line
                    (split_lines (rest ++ more))) in
            rw (e, drain_lines)
              (after-IsKept flush more reader next events (drain_lines max_line_bytes fuel next)
                same (drain_lines-IsKept flush more fuel next (omega (arith, p, less)) fits))
      ]
