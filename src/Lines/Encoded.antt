-- ===== src/Lines/Encoded.antt =====
-- packages/core/src/lineReader.ts: lines that `encodeLine` made, and a line of the greatest length
-- whose carriage return and newline come in two chunks.
use pinout.Prelude.{
  ℕ, zero, suc, ◌≤◌, ◌<◌, ◌≡◌, refl, sym, ap, subst, ◌∙◌, Bool, true, false, none, some, List, [],
  ◌∷◌, ◌++◌, arith, length, length-append, concat, map, inl, All,
}
use mathlib.Core.List.{append-nil, append_assoc}
use pinout.Prelude.Text.{Text, trim}
use pinout.Lines.{
  LineReader, Event, oversize, cut_newline, strip_return, newline, carriage_return, hand_over,
  drain_lines, cap_buffer, read_chunk, read_end, read_on, read_lines, new_reader, encode_line,
  ends_with_newline,
}
use pinout.Lines.Split.{split_lines, line_first, HasNoNewline, HasNoNewline-tail, cut_newline-split}
use pinout.Lines.Promise.{lines_of, FitsAsItIs, readable, all_lines}
use pinout.Lines.Chunks.{read_lines-all_lines}

cut_newline-append :
    (text rest : Text)
    → HasNoNewline text
    → cut_newline (text ++ newline ∷ rest) ≡ some (text, rest)
unfolding cut_newline
cut_newline-append [] rest h = refl
cut_newline-append (c ∷ cs) rest h =
    let (ordinary, free) = HasNoNewline-tail c cs h in
    rw (ordinary, cut_newline-append cs rest free) refl

cut_newline-return :
    (text : Text) → HasNoNewline text → cut_newline (text ++ carriage_return ∷ []) ≡ none
unfolding cut_newline
cut_newline-return [] h = refl
cut_newline-return (c ∷ cs) h =
    let (ordinary, free) = HasNoNewline-tail c cs h in
    rw (ordinary, cut_newline-return cs free) refl

strip_return-append : (text : Text) → strip_return (text ++ carriage_return ∷ []) ≡ text
unfolding strip_return
strip_return-append [] = refl
strip_return-append (c ∷ []) = refl
strip_return-append (c ∷ d ∷ cs) = ap (λ l. c ∷ l) (strip_return-append (d ∷ cs))

ends_with_newline-free : (text : Text) → HasNoNewline text → ends_with_newline text ≡ false
unfolding cut_newline
ends_with_newline-free [] h = refl
ends_with_newline-free (c ∷ []) h = (HasNoNewline-tail c [] h).0
ends_with_newline-free (c ∷ d ∷ cs) h =
    ends_with_newline-free (d ∷ cs) (HasNoNewline-tail c (d ∷ cs) h).1

module _ (max_line_bytes : ℕ) where
  -- A text that is one line.
  abbrev pub IsLine : Text → Type 0
  IsLine text =
      HasNoNewline text
      × (strip_return text ≡ text)
      × (0 < length text)
      × (length text ≤ max_line_bytes)

  split_lines-encode_line :
      (text rest : Text)
      → HasNoNewline text
      → split_lines (encode_line text ++ rest) ≡ line_first text (split_lines rest)
  unfolding encode_line
  split_lines-encode_line text rest h =
      rw (ends_with_newline-free text h)
        (cut_newline-split (text ++ newline ∷ []) text [] rest (cut_newline-append text [] h)).0

  split_encoded :
      (texts : List Text)
      → All IsLine texts
      → (split_lines (concat (map encode_line texts)) ≡ (texts, []))
        × (readable max_line_bytes texts ≡ texts)
        × All (FitsAsItIs max_line_bytes) texts
  unfolding split_lines
  split_encoded [] h = (refl, refl, tt)
  split_encoded (text ∷ texts) (v, h) =
      let (whole, all, fit) = split_encoded texts h in
      (
        split_lines-encode_line text (concat (map encode_line texts)) v.0
            ∙ ap (line_first text) whole,
        ground (arith, v, all),
        (inl v.3, fit),
      )

  -- Lines that are encoded one after the other are read as they were, in order and none else,
  -- wherever the stream is cut into chunks.
  pub read_lines-encode_line :
      (texts chunks : List Text)
      → All IsLine texts
      → concat chunks ≡ concat (map encode_line texts)
      → lines_of (read_lines max_line_bytes [] chunks) ≡ texts
  unfolding trim strip_return
  read_lines-encode_line texts chunks h e =
      let (whole, all, fit) = split_encoded texts h in
      let parted = ap split_lines e ∙ whole in
      read_lines-all_lines max_line_bytes [] chunks
        (subst (λ s. All (FitsAsItIs max_line_bytes) s.0) (sym parted) fit)
      ∙ ap (all_lines max_line_bytes []) parted
      ∙ ground (arith, ap (λ ls. ls ++ []) all, append-nil texts)

  drain_lines_empty :
      (fuel : ℕ) (d : Bool)
      → drain_lines max_line_bytes fuel record { buffer = []; discarding_oversize_line = d }
        ≡ (record { buffer = []; discarding_oversize_line = d }, [])
  unfolding drain_lines cut_newline
  drain_lines_empty zero d = refl
  drain_lines_empty (suc fuel) d = refl

  cap_buffer_empty :
      (reader : LineReader) (events : List Event)
      → reader.buffer ≡ []
      → cap_buffer max_line_bytes (reader, events) ≡ (reader, events)
  cap_buffer_empty reader events h = ground (arith, h)

  -- A chunk that ends with the first newline since the reader began a line.
  read_chunk_line :
      (d : Bool) (line : Text)
      → HasNoNewline line
      → read_chunk max_line_bytes
          record { buffer = []; discarding_oversize_line = d }
          (line ++ newline ∷ [])
        ≡ (new_reader, hand_over max_line_bytes d (strip_return line))
  unfolding read_chunk drain_lines
  read_chunk_line d line h =
      let full : LineReader = record {
        buffer = line ++ newline ∷ [];
        discarding_oversize_line = d;
      } in
      let fuel : length (line ++ newline ∷ []) ≡ suc (length line) =
        omega (arith, length-append line (newline ∷ [])) in
      let turned : drain_lines max_line_bytes (suc (length line)) full
          ≡ (new_reader, hand_over max_line_bytes d (strip_return line)) =
        rw (cut_newline-append line [] h, drain_lines, drain_lines_empty (length line) false)
          (ap (λ es. (new_reader, es))
            (append-nil (hand_over max_line_bytes d (strip_return line)))) in
      ap (cap_buffer max_line_bytes) (ap (λ f. drain_lines max_line_bytes f full) fuel ∙ turned)
      ∙ cap_buffer_empty new_reader (hand_over max_line_bytes d (strip_return line)) refl

  drain_lines_none :
      (fuel : ℕ) (reader : LineReader)
      → HasNoNewline reader.buffer
      → drain_lines max_line_bytes fuel reader ≡ (reader, [])
  unfolding drain_lines
  drain_lines_none zero reader h = refl
  drain_lines_none (suc fuel) reader h = rw (h, drain_lines) refl

  -- A chunk that brings one character more than a line may have, and no newline.
  read_chunk_over :
      (text : Text)
      → HasNoNewline text
      → length text ≡ suc max_line_bytes
      → read_chunk max_line_bytes new_reader text ≡ (
        record { buffer = []; discarding_oversize_line = true },
        oversize (suc max_line_bytes) ∷ [],
      )
  unfolding read_chunk
  read_chunk_over text h e =
      ap (cap_buffer max_line_bytes)
        (drain_lines_none (length text) record new_reader { buffer = text } h)
      ∙ ground (arith, e)

  -- A line of exactly the greatest length that ends with a carriage return and a newline is read
  -- if both come in its chunk. If the newline comes in the next chunk, the line is dropped.
  pub late_newline_drops_line :
      (text : Text)
      → HasNoNewline text
      → length text ≡ max_line_bytes
      → 0 < max_line_bytes
      → (lines_of (read_lines max_line_bytes [] ((text ++ carriage_return ∷ newline ∷ []) ∷ []))
          ≡ text ∷ [])
        × (read_lines max_line_bytes [] ((text ++ carriage_return ∷ []) ∷ (newline ∷ []) ∷ [])
            ≡ oversize (suc max_line_bytes) ∷ [])
  unfolding read_lines read_on read_end hand_over cut_newline strip_return trim
  late_newline_drops_line text h e p =
      let with_return = text ++ carriage_return ∷ [] in
      let bare = strip_return-append text in
      let free = cut_newline-return text h in
      let one_chunk : read_chunk max_line_bytes new_reader (text ++ carriage_return ∷ newline ∷ [])
          ≡ (new_reader, hand_over max_line_bytes false text) =
        ap (read_chunk max_line_bytes new_reader)
          (sym (append_assoc text (carriage_return ∷ []) (newline ∷ [])))
        ∙ read_chunk_line false with_return free
        ∙ ap (λ l. (new_reader, hand_over max_line_bytes false l)) bare in
      let first_chunk =
        read_chunk_over with_return free
          (omega (arith, e, length-append text (carriage_return ∷ []))) in
      let second_chunk = read_chunk_line true [] refl in
      (
        ap (λ t. lines_of (t.1 ++ read_end max_line_bytes [] t.0)) one_chunk ∙ ground (arith, e, p),
        ap (λ t. t.1 ++ read_on max_line_bytes [] t.0 ((newline ∷ []) ∷ [])) first_chunk
            ∙ ap (λ t. oversize (suc max_line_bytes) ∷ (t.1 ++ read_end max_line_bytes [] t.0))
                second_chunk
            ∙ ground (arith, p),
      )
