-- ===== src/Modbus/Words.antt =====
-- wire.ts: values of 16 bits, packed into bytes and read out of them.
use Prim.Native.Nat.{bit_or}
use pinout.Prelude.{
  ℕ, zero, suc, ◌+◌, ◌*◌, ◌^◌, ◌<◌, ◌≡◌, refl, sym, ap, ◌∙◌, List, [], ◌∷◌, ◌++◌, arith, nat_eq,
  length, length-append, All, or_default,
}
use mathlib.Core.List.{append_assoc}
use pinout.Prelude.Bytes.{high_byte, low_byte, byte_at, word_at, get_elem?-append_right}
use pinout.Modbus.{pack_words, read_words}
use pinout.Modbus.Framing.{word_bytes}
use pinout.Modbus.Simulator.{range}

abbrev pub AreWords : List ℕ → Type 0
AreWords vs = All (λ v. v < 65_536) vs

pub length-pack_words : (vs : List ℕ) → length (pack_words vs) ≡ length vs * 2
unfolding pack_words
length-pack_words [] = refl
length-pack_words (v ∷ vs) = omega (arith, length-pack_words vs)

word_at-middle :
    (before after : List ℕ) (a b : ℕ)
    → word_at (before ++ a ∷ b ∷ after) (length before) ≡ bit_or (a * 2 ^ 8) b
unfolding word_at
word_at-middle before after a b =
    let xs = before ++ a ∷ b ∷ after in
    let here : length before ≡ length before + 0 = omega arith in
    let high : byte_at xs (length before) ≡ a =
      ap (byte_at xs) here
      ∙ ap (λ o. or_default o 0) (get_elem?-append_right before (a ∷ b ∷ after) 0) in
    let low : byte_at xs (length before + 1) ≡ b =
      ap (λ o. or_default o 0) (get_elem?-append_right before (a ∷ b ∷ after) 1) in
    ap (λ x. bit_or (x * 2 ^ 8) (byte_at xs (length before + 1))) high ∙ ap (bit_or (a * 2 ^ 8)) low

-- The words that were packed, read from where they begin.
pub read_words-pack_words :
    (before vs : List ℕ)
    → AreWords vs
    → read_words (before ++ pack_words vs) (length before) (length vs) ≡ vs
unfolding read_words pack_words
read_words-pack_words before [] h = refl
read_words-pack_words before (v ∷ vs) (h, k) =
    let pair = high_byte v ∷ low_byte v ∷ [] in
    let behind : length before + 2 ≡ length (before ++ pair) =
      omega (arith, length-append before pair) in
    let one = word_at-middle before (pack_words vs) (high_byte v) (low_byte v) ∙ word_bytes v h in
    let more =
      ap (λ xs. read_words xs (length before + 2) (length vs))
        (sym (append_assoc before pair (pack_words vs)))
      ∙ ap (λ i. read_words ((before ++ pair) ++ pack_words vs) i (length vs)) behind
      ∙ read_words-pack_words (before ++ pair) vs k in
    ap
      (λ w.
        w
        ∷ read_words (before ++ high_byte v ∷ low_byte v ∷ pack_words vs) (length before + 2)
            (length vs))
      one
    ∙ ap (λ l. v ∷ l) more

pub length-range {ℓ} :
    {A : Type ℓ} (read : ℕ → A) (address quantity : ℕ)
    → length (range read address quantity) ≡ quantity
unfolding range
length-range read address zero = refl
length-range read address (suc q) = omega (arith, length-range read (address + 1) q)

pub range-AreWords :
    (read : ℕ → ℕ) (address quantity : ℕ)
    → ((x : ℕ) → read x < 65_536)
    → AreWords (range read address quantity)
unfolding range
range-AreWords read address zero h = tt
range-AreWords read address (suc q) h = (h address, range-AreWords read (address + 1) q h)
