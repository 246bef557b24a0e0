-- ===== src/Lines/Promise.antt =====
-- packages/core/src/lineReader.ts: what it promises of a whole text, and what the loop over its lines
-- hands over of it.
use pinout.Prelude.{
  ℕ, ◌≤◌, ◌<◌, ◌≡◌, refl, sym, ap, ◌∙◌, Bool, true, false, ◌&&◌, List, [], ◌∷◌, ◌++◌, arith,
  if◌then◌else◌, ltb, leb, length, All,
}
use mathlib.Core.Logic.{◌⊎◌}
use mathlib.Core.List.{append_assoc}
use pinout.Prelude.Text.{Text, trim}
use pinout.Lines.{Event, yields, oversize, strip_return, hand_over}
use pinout.Lines.Split.{Split, line_first}

-- The lines among the events.
abbrev pub lines_of : List Event → List Text
lines_of [] = []
lines_of (yields line ∷ events) = line ∷ lines_of events
lines_of (oversize n ∷ events) = lines_of events

pub lines_of-append :
    (events more : List Event) → lines_of (events ++ more) ≡ lines_of events ++ lines_of more
lines_of-append [] more = refl
lines_of-append (yields line ∷ events) more = ap (λ ls. line ∷ ls) (lines_of-append events more)
lines_of-append (oversize n ∷ events) more = lines_of-append events more

module _ (max_line_bytes : ℕ) where
  -- A line within the limit that is not empty.
  abbrev pub if_readable : Text → List Text
  if_readable line =
      if leb (length line) max_line_bytes && ltb 0 (length line) then line ∷ [] else []

  abbrev pub readable : List Text → List Text
  readable [] = []
  readable (line ∷ lines) = if_readable (strip_return line) ++ readable lines

  abbrev pub tail_line : Text → Text → List Text
  tail_line flush tail =
      if ltb max_line_bytes (length tail)
      then []
      else if_readable (trim (strip_return (tail ++ flush)))

  -- What `readLines` promises of a whole text: its lines within the cap_buffer, less empty ones, and
  -- what is behind the last newline, trimmed.
  abbrev pub all_lines : Text → Split → List Text
  all_lines flush (lines, tail) = readable lines ++ tail_line flush tail

  -- The same where the first line is already lost.
  abbrev pub expected : Text → Bool → Split → List Text
  expected flush false s = all_lines flush s
  expected flush true ([], tail) = []
  expected flush true (line ∷ lines, tail) = all_lines flush (lines, tail)

  -- A line whose carriage return does not carry it over the limit.
  abbrev pub FitsAsItIs : Text → Type 0
  FitsAsItIs line = (length line ≤ max_line_bytes) ⊎ (max_line_bytes < length (strip_return line))

  abbrev pub Fit : Bool → Split → Type 0
  Fit false (lines, tail) = All FitsAsItIs lines
  Fit true ([], tail) = Unit
  Fit true (line ∷ lines, tail) = All FitsAsItIs lines

  pub hand_over-lines :
      (d : Bool) (line : Text)
      → lines_of (hand_over max_line_bytes d line) ≡ (if d then [] else if_readable line)
  unfolding hand_over
  hand_over-lines false line = ground arith
  hand_over-lines true line = ground arith

  pub expected-line_first :
      (flush : Text) (d : Bool) (line : Text) (s : Split)
      → expected flush d (line_first line s)
        ≡ lines_of (hand_over max_line_bytes d (strip_return line)) ++ expected flush false s
  expected-line_first flush false line (lines, tail) =
      append_assoc (if_readable (strip_return line)) (readable lines) (tail_line flush tail)
      ∙ ap (λ ls. ls ++ all_lines flush (lines, tail))
          (sym (hand_over-lines false (strip_return line)))
  expected-line_first flush true line s =
      ap (λ ls. ls ++ all_lines flush s) (sym (hand_over-lines true (strip_return line)))

  pub Fit-line_first :
      (d : Bool) (line : Text) (s : Split) → Fit d (line_first line s) → Fit false s
  Fit-line_first false line s (p, h) = h
  Fit-line_first true line s h = h
