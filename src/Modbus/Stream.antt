-- ===== src/Modbus/Stream.antt =====
-- packages/protocols-modbus/src/tcpClient.ts: the loop that takes the frames out of what the
-- connection brings, in `onData`. Its fuel is the number of bytes, of which each round takes some.
use pinout.Prelude.{
  ℕ, zero, suc, ◌+◌, ◌-◌, ◌≤◌, ◌<◌, ◌≡◌, refl, sym, ap, ◌∙◌, none, some, List, [], ◌∷◌, ◌++◌, arith,
  if◌then◌else◌, ltb, length, length-append, concat, ok, All, Bool-cases, inl, inr,
}
use mathlib.Core.Logic.{◌⊎◌}
use mathlib.Core.List.{append_assoc, append-nil}
use pinout.Prelude.Bytes.{
  take, drop, byte_at, word_at, word_at-append, get_elem?-append, take-append_le, drop-append_le,
  length-drop, drop-append,
}
use pinout.Modbus.Framing.{
  MbapFrame, encode_mbap, decode_mbap, try_decode_mbap, try_decode-encode_mbap,
}
use pinout.Modbus.Receive.{Drained, before_all, drain, first, receive, receive_all}

abbrev frame_of : List ℕ → MbapFrame
frame_of b = record {
  transaction_id = word_at b 0;
  protocol_id = word_at b 2;
  unit_id = byte_at b 6;
  pdu = take (word_at b 4 + 6 - 7) (drop 7 b);
}

abbrev total : List ℕ → ℕ
total b = word_at b 4 + 6

-- All that there is to `tryDecodeMbap`: it throws nothing.
try_decode-eq :
    (b : List ℕ)
    → try_decode_mbap b ≡ (
        if ltb (length b) 7
        then ok none
        else if ltb (length b) (total b)
        then ok none
        else ok (some (frame_of b, total b)))
unfolding try_decode_mbap decode_mbap
try_decode-eq b = ground arith

-- More bytes do not change a frame that is complete.
frame_of-append :
    (b c : List ℕ) → 7 ≤ length b → total b ≤ length b → frame_of (b ++ c) ≡ frame_of b
frame_of-append b c h k =
    let size : word_at (b ++ c) 4 ≡ word_at b 4 = word_at-append b c 4 (omega arith) in
    let body : take (word_at (b ++ c) 4 + 6 - 7) (drop 7 (b ++ c))
        ≡ take (word_at b 4 + 6 - 7) (drop 7 b) =
      ap (λ w. take (w + 6 - 7) (drop 7 (b ++ c))) size
      ∙ ap (take (word_at b 4 + 6 - 7)) (drop-append_le 7 b c h)
      ∙ take-append_le (word_at b 4 + 6 - 7) (drop 7 b) c (omega (arith, length-drop 7 b)) in
    ground (arith, size, body, word_at-append b c 0, word_at-append b c 2, get_elem?-append b c 6)

total-append : (b c : List ℕ) → 7 ≤ length b → total (b ++ c) ≡ total b
total-append b c h = ap (λ w. w + 6) (word_at-append b c 4 (omega arith))

abbrev IsComplete : List ℕ → Type 0
IsComplete b = (7 ≤ length b) × (total b ≤ length b)

IsComplete-cases : (b : List ℕ) → IsComplete b ⊎ (try_decode_mbap b ≡ ok none)
IsComplete-cases b = elim (Bool-cases (ltb (length b) 7)) [
  | inl t ↦ inr (ground (arith, try_decode-eq b))
  | inr f ↦ elim (Bool-cases (ltb (length b) (total b))) [
    | inl t ↦ inr (ground (arith, try_decode-eq b))
    | inr g ↦ inl (ground arith)
  ]
]

try_decode_complete :
    (b : List ℕ) → IsComplete b → try_decode_mbap b ≡ ok (some (frame_of b, total b))
try_decode_complete b h = ground (arith, try_decode-eq b)

drain_incomplete : (fuel : ℕ) (b : List ℕ) → try_decode_mbap b ≡ ok none → drain fuel b ≡ ([], b)
unfolding drain
drain_incomplete zero b h = refl
drain_incomplete (suc fuel) b h = rw (h, drain) refl

drain_complete :
    (fuel : ℕ) (b : List ℕ)
    → IsComplete b
    → drain (suc fuel) b ≡ first (frame_of b) (drain fuel (drop (total b) b))
unfolding drain
drain_complete fuel b h = rw (try_decode_complete b h, drain) refl

-- Enough fuel is as good as more.
drain_fuel : (f g : ℕ) (b : List ℕ) → length b ≤ f → length b ≤ g → drain f b ≡ drain g b
drain_fuel zero g b p q =
    let none_left : try_decode_mbap b ≡ ok none = ground (arith, try_decode-eq b) in
    drain_incomplete zero b none_left ∙ sym (drain_incomplete g b none_left)
drain_fuel (suc f) zero b p q =
    let none_left : try_decode_mbap b ≡ ok none = ground (arith, try_decode-eq b) in
    drain_incomplete (suc f) b none_left ∙ sym (drain_incomplete zero b none_left)
drain_fuel (suc f) (suc g) b p q = elim (IsComplete-cases b) [
  | inr n ↦ drain_incomplete (suc f) b n ∙ sym (drain_incomplete (suc g) b n)
  | inl h ↦
      let rest = drop (total b) b in
      let shorter : length rest ≤ length b - 6 = omega (arith, length-drop (total b) b) in
      drain_complete f b h
      ∙ ap (first (frame_of b))
          (drain_fuel f g rest (omega (arith, shorter)) (omega (arith, shorter)))
      ∙ sym (drain_complete g b h)
]

-- All the frames of some bytes, and what is left.
abbrev pub parse : List ℕ → Drained
parse b = drain (length b) b

parse_complete :
    (b : List ℕ) → IsComplete b → parse b ≡ first (frame_of b) (parse (drop (total b) b))
parse_complete [] h = absurd (omega arith)
parse_complete (x ∷ b) h =
    let rest = drop (total (x ∷ b)) (x ∷ b) in
    let l = length-drop (total (x ∷ b)) (x ∷ b) in
    drain_complete (length b) (x ∷ b) h
    ∙ ap (first (frame_of (x ∷ b)))
        (drain_fuel (length b) (length rest) rest (omega (arith, l)) (omega arith))

-- Bytes that follow are read behind what is left of those before.
parse-append :
    (fuel : ℕ) (b c : List ℕ)
    → length b ≤ fuel
    → parse (b ++ c) ≡ before_all (parse b).0 (parse ((parse b).1 ++ c))
parse-append zero b c p =
    let none_left : try_decode_mbap b ≡ ok none = ground (arith, try_decode-eq b) in
    sym (ap (λ d. before_all d.0 (parse (d.1 ++ c))) (drain_incomplete (length b) b none_left))
parse-append (suc fuel) b c p = elim (IsComplete-cases b) [
  | inr n ↦ sym (ap (λ d. before_all d.0 (parse (d.1 ++ c))) (drain_incomplete (length b) b n))
  | inl h ↦
      let rest = drop (total b) b in
      let size = total-append b c h.0 in
      let whole : IsComplete (b ++ c) =
        (omega (arith, length-append b c), omega (arith, size, length-append b c)) in
      let shorter : length rest ≤ fuel = omega (arith, length-drop (total b) b) in
      let dropped : drop (total (b ++ c)) (b ++ c) ≡ rest ++ c =
        ap (λ n. drop n (b ++ c)) size ∙ drop-append_le (total b) b c h.1 in
      parse_complete (b ++ c) whole
      ∙ ap (λ f. first f (parse (drop (total (b ++ c)) (b ++ c)))) (frame_of-append b c h.0 h.1)
      ∙ ap (λ x. first (frame_of b) (parse x)) dropped
      ∙ ap (first (frame_of b)) (parse-append fuel rest c shorter)
      ∙ sym (ap (λ d. before_all d.0 (parse (d.1 ++ c))) (parse_complete b h))
]

parse-rest : (fuel : ℕ) (b : List ℕ) → length b ≤ fuel → try_decode_mbap (parse b).1 ≡ ok none
parse-rest zero b p =
    let none_left : try_decode_mbap b ≡ ok none = ground (arith, try_decode-eq b) in
    ap (λ d. try_decode_mbap d.1) (drain_incomplete (length b) b none_left) ∙ none_left
parse-rest (suc fuel) b p = elim (IsComplete-cases b) [
  | inr n ↦ ap (λ d. try_decode_mbap d.1) (drain_incomplete (length b) b n) ∙ n
  | inl h ↦
      ap (λ d. try_decode_mbap d.1) (parse_complete b h)
      ∙ parse-rest fuel (drop (total b) b) (omega (arith, length-drop (total b) b))
]

-- Behind a chunk no complete frame is left in the buffer, whatever bytes came, so the loop ends by
-- its own test and not for want of fuel.
pub receive-rest : (buffer chunk : List ℕ) → try_decode_mbap (receive buffer chunk).1 ≡ ok none
unfolding receive
receive-rest buffer chunk = let b = buffer ++ chunk in parse-rest (length b) b (omega arith)

receive_all-parse :
    (buffer : List ℕ) (chunks : List (List ℕ))
    → try_decode_mbap buffer ≡ ok none
    → receive_all buffer chunks ≡ parse (buffer ++ concat chunks)
unfolding receive_all receive
receive_all-parse buffer [] n =
    sym (ap parse (append-nil buffer) ∙ drain_incomplete (length buffer) buffer n)
receive_all-parse buffer (chunk ∷ chunks) n =
    let b = buffer ++ chunk in
    let d = parse b in
    let l = receive_all-parse d.1 chunks (parse-rest (length b) b (omega arith)) in
    ap (before_all d.0) l
    ∙ sym (parse-append (length b) b (concat chunks) (omega arith))
    ∙ ap parse (append_assoc buffer chunk (concat chunks))

abbrev pub IsFrame : MbapFrame → Type 0
IsFrame f =
    (f.transaction_id < 65_536) × (f.protocol_id ≡ 0) × (f.unit_id < 256) × (length f.pdu < 65_535)

abbrev pub encode : MbapFrame → List ℕ
encode f = encode_mbap f.transaction_id f.unit_id f.pdu

abbrev pub encode_all : List MbapFrame → List ℕ
encode_all [] = []
encode_all (f ∷ fs) = encode f ++ encode_all fs

length-encode : (f : MbapFrame) → length (encode f) ≡ length f.pdu + 7
unfolding encode_mbap
length-encode f = omega arith

parse-encode :
    (f : MbapFrame) (tail : List ℕ) → IsFrame f → parse (encode f ++ tail) ≡ first f (parse tail)
parse-encode f tail v =
    let b = encode f ++ tail in
    let read = try_decode-encode_mbap f.transaction_id f.unit_id f.pdu tail v.0 v.2 v.3 in
    elim (IsComplete-cases b) [
      | inr n ↦ absurd (cc (sym n ∙ read))
      | inl h ↦
          let whole = sym (try_decode_complete b h) ∙ read in
          let same : frame_of b ≡ f = ground (arith, whole, v.1) in
          let size : total b ≡ length (encode f) = ground (arith, whole, length-encode f) in
          parse_complete b h
          ∙ ap (λ g. first g (parse (drop (total b) b))) same
          ∙ ap (λ x. first f (parse x)) (ap (λ k. drop k b) size ∙ drop-append (encode f) tail)
    ]

parse-encode_all :
    (frames : List MbapFrame) (rest : List ℕ)
    → All IsFrame frames
    → try_decode_mbap rest ≡ ok none
    → parse (encode_all frames ++ rest) ≡ (frames, rest)
parse-encode_all [] rest h n = drain_incomplete (length rest) rest n
parse-encode_all (f ∷ fs) rest (v, h) n =
    let tail = encode_all fs ++ rest in
    ap parse (append_assoc (encode f) (encode_all fs) rest)
    ∙ parse-encode f tail v
    ∙ ap (first f) (parse-encode_all fs rest h n)

-- One frame that comes in one chunk.
pub receive-encode : (f : MbapFrame) → IsFrame f → receive [] (encode f) ≡ (f ∷ [], [])
unfolding receive
receive-encode f v =
    ap parse (sym (append-nil (encode f)) ∙ sym (append-nil (encode f ++ [])))
    ∙ parse-encode_all (f ∷ []) [] (v, tt) (ground (arith, try_decode-eq []))

-- Frames that are sent one after the other arrive as they were sent, in order and none else,
-- wherever the connection cuts their bytes into chunks, and the bytes of a frame that is not
-- complete stay in the buffer.
pub receive_all-encode_all :
    (frames : List MbapFrame) (rest : List ℕ) (chunks : List (List ℕ))
    → All IsFrame frames
    → try_decode_mbap rest ≡ ok none
    → concat chunks ≡ encode_all frames ++ rest
    → receive_all [] chunks ≡ (frames, rest)
receive_all-encode_all frames rest chunks h n e =
    receive_all-parse [] chunks (ground (arith, try_decode-eq []))
    ∙ ap parse e
    ∙ parse-encode_all frames rest h n
