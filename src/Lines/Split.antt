-- ===== src/Lines/Split.antt =====
-- packages/core/src/lineReader.ts: the lines of a whole text, which the loop over the chunks is
-- compared with, and where they part when texts are put together.
use pinout.Prelude.{
  ℕ, ◌≤◌, ◌<◌, ◌≡◌, refl, sym, false, Option, Option-cases, none, some, List, [], ◌∷◌, ◌++◌, arith,
  if◌then◌else◌, nat_beq, length, inl, inr, Bool-cases,
}
use pinout.Prelude.Text.{Text}
use pinout.Lines.{newline, cut_newline, on_first}

abbrev pub Split : Type 0
Split = List Text × Text

abbrev pub before_first : ℕ → Split → Split
before_first c ([], tail) = ([], c ∷ tail)
before_first c (line ∷ lines, tail) = ((c ∷ line) ∷ lines, tail)

abbrev pub next_line : Split → Split
next_line (lines, tail) = ([] ∷ lines, tail)

-- The lines that end with a newline, and what is behind the last one.
unfoldable pub split_lines : Text → Split
split_lines [] = ([], [])
split_lines (c ∷ cs) =
    let later = split_lines cs in
    if nat_beq c newline then next_line later else before_first c later

-- What goes on behind a piece of text without a newline.
abbrev pub onto_first : Text → Split → Split
onto_first text ([], tail) = ([], text ++ tail)
onto_first text (line ∷ lines, tail) = ((text ++ line) ∷ lines, tail)

abbrev pub line_first : Text → Split → Split
line_first line (lines, tail) = (line ∷ lines, tail)

abbrev pub HasNoNewline : Text → Type 0
HasNoNewline text = cut_newline text ≡ none

pub HasNoNewline-empty : (text : Text) → length text ≤ 0 → HasNoNewline text
unfolding cut_newline
HasNoNewline-empty [] h = refl
HasNoNewline-empty (c ∷ cs) h = absurd (omega arith)

onto_first-nil : (s : Split) → onto_first [] s ≡ s
onto_first-nil ([], tail) = refl
onto_first-nil (line ∷ lines, tail) = refl

onto_first-cons :
    (c : ℕ) (text : Text) (s : Split) → onto_first (c ∷ text) s ≡ before_first c (onto_first text s)
onto_first-cons c text ([], tail) = refl
onto_first-cons c text (line ∷ lines, tail) = refl

none_behind : (c : ℕ) (found : Option (Text × Text)) → on_first c found ≡ none → found ≡ none
none_behind c none h = refl
none_behind c (some found) h = ground (arith, h)

pub HasNoNewline-tail :
    (c : ℕ) (cs : Text) → HasNoNewline (c ∷ cs) → (nat_beq c newline ≡ false) × HasNoNewline cs
unfolding cut_newline
HasNoNewline-tail c cs h = elim (Bool-cases (nat_beq c newline)) [
  | inl t ↦ ground (arith, h, t)
  | inr f ↦ (f, none_behind c (cut_newline cs) (ground (arith, h, f)))
]

pub split_lines-append :
    (text more : Text)
    → HasNoNewline text
    → split_lines (text ++ more) ≡ onto_first text (split_lines more)
unfolding split_lines
split_lines-append [] more h = sym (onto_first-nil (split_lines more))
split_lines-append (c ∷ cs) more h =
    let (ordinary, free) = HasNoNewline-tail c cs h in
    rw (ordinary, split_lines-append cs more free, onto_first-cons c cs (split_lines more)) refl

-- A text with a newline is its first line, the newline and the rest.
pub cut_newline-split :
    (text line rest more : Text)
    → cut_newline text ≡ some (line, rest)
    → (split_lines (text ++ more) ≡ line_first line (split_lines (rest ++ more)))
      × (length rest < length text)
unfolding split_lines cut_newline
cut_newline-split [] line rest more h = ground (arith, h)
cut_newline-split (c ∷ cs) line rest more h = elim (Bool-cases (nat_beq c newline)) [
  | inl t ↦ ground (arith, h, t)
  | inr f ↦ elim (Option-cases (cut_newline cs)) [
    | inl n ↦ ground (arith, h, f, n)
    | inr ((first, behind), e) ↦ ground (arith, h, f, e, cut_newline-split cs first behind more e)
  ]
]
