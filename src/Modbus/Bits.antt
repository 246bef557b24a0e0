-- ===== src/Modbus/Bits.antt =====
-- wire.ts and simulator.ts: bits that are packed into bytes, and read out of them.
use Prim.Native.Nat.{bit_and, bit_or}
use pinout.Prelude.{
  ℕ, zero, suc, ◌+◌, ◌-◌, ◌*◌, ◌/◌, ◌%◌, ◌^◌, ◌≤◌, ◌<◌, ◌≡◌, refl, sym, ap, ◌∙◌, Bool, true, false,
  not, ◌&&◌, ◌||◌, List, [], ◌∷◌, ◌++◌, arith, if◌then◌else◌, nat_beq, leb, length, or_default,
  Bool-cases, inl, inr,
}
use pinout.Prelude.Bits.{all_below, all_below-lt}
use pinout.Prelude.Bytes.{IsBytes, get_elem?, put, replicate, low_byte, byte_at}
use pinout.Modbus.{bytes_for, set_bits, pack_bits, bit_at, read_bits}

-- `Boolean(b & (1 << j))`
abbrev test_bit : ℕ → ℕ → Bool
test_bit b j = not (nat_beq (bit_and b (2 ^ j)) 0)

abbrev same : Bool → Bool → Bool
same true b = b
same false b = not b

same-eq : (a b : Bool) → same a b ≡ true → a ≡ b
same-eq true true h = refl
same-eq true false h = absurd (ground arith)
same-eq false true h = absurd (ground arith)
same-eq false false h = refl

abbrev sets_one : ℕ → ℕ → ℕ → Bool
sets_one b k j = same (test_bit (low_byte (bit_or b (2 ^ k))) j) (nat_beq k j || test_bit b j)

or_table : all_below 256 (λ b. all_below 8 (λ k. all_below 8 (λ j. sets_one b k j))) ≡ true
unfolding all_below
or_table = refl

-- `|=` sets one bit of a byte.
test_bit-or :
    (b k j : ℕ)
    → b < 256
    → k < 8
    → j < 8
    → test_bit (low_byte (bit_or b (2 ^ k))) j ≡ (nat_beq k j || test_bit b j)
test_bit-or b k j h l m = same-eq _ _ (
    all_below-lt 8 (λ j. sets_one b k j) j
      (all_below-lt 8 (λ k. all_below 8 (λ j. sets_one b k j)) k
        (all_below-lt 256 (λ b. all_below 8 (λ k. all_below 8 (λ j. sets_one b k j))) b or_table h)
        l)
      m)

byte_at-put :
    (xs : List ℕ) (i v j : ℕ)
    → i < length xs
    → byte_at (put xs i v) j ≡ (if nat_beq i j then v else byte_at xs j)
byte_at-put [] i v j h = absurd (omega arith)
byte_at-put (x ∷ xs) zero v zero h = refl
byte_at-put (x ∷ xs) zero v (suc j) h = ground arith
byte_at-put (x ∷ xs) (suc i) v zero h = ground arith
byte_at-put (x ∷ xs) (suc i) v (suc j) h = ground (arith, byte_at-put xs i v j)

length-put : (xs : List ℕ) (i v : ℕ) → length (put xs i v) ≡ length xs
length-put [] i v = refl
length-put (x ∷ xs) zero v = refl
length-put (x ∷ xs) (suc i) v = omega (arith, length-put xs i v)

put-IsBytes : (xs : List ℕ) (i v : ℕ) → v < 256 → IsBytes xs → IsBytes (put xs i v)
put-IsBytes [] i v h k = tt
put-IsBytes (x ∷ xs) zero v h (k, l) = (h, l)
put-IsBytes (x ∷ xs) (suc i) v h (k, l) = (k, put-IsBytes xs i v h l)

byte_at-lt : (xs : List ℕ) (i : ℕ) → IsBytes xs → byte_at xs i < 256
byte_at-lt [] i h = omega arith
byte_at-lt (x ∷ xs) zero (h, k) = h
byte_at-lt (x ∷ xs) (suc i) (h, k) = byte_at-lt xs i k

-- One round of the loop that packs.
abbrev with_bit : List ℕ → ℕ → List ℕ
with_bit bytes i = put bytes (i / 8) (low_byte (bit_or (byte_at bytes (i / 8)) (2 ^ (i % 8))))

bit_at-with_bit :
    (bytes : List ℕ) (i j : ℕ)
    → IsBytes bytes
    → i / 8 < length bytes
    → bit_at (with_bit bytes i) j ≡ (nat_beq i j || bit_at bytes j)
unfolding bit_at
bit_at-with_bit bytes i j h k =
    let v = low_byte (bit_or (byte_at bytes (i / 8)) (2 ^ (i % 8))) in
    let b = byte_at-put bytes (i / 8) v (j / 8) k in
    elim (Bool-cases (nat_beq (i / 8) (j / 8))) [
      | inl t ↦
          let whole : i / 8 ≡ j / 8 = ground arith in
          let now : byte_at (put bytes (i / 8) v) (j / 8) ≡ v = ground (arith, b) in
          let one =
            test_bit-or (byte_at bytes (i / 8)) (i % 8) (j % 8) (byte_at-lt bytes (i / 8) h)
              (omega arith) (omega arith) in
          let rest = ap (λ k. nat_beq i j || test_bit (byte_at bytes k) (j % 8)) whole in
          let place : nat_beq (i % 8) (j % 8) ≡ nat_beq i j = ground arith in
          ap (λ x. test_bit x (j % 8)) now
          ∙ one
          ∙ ap (λ b. b || test_bit (byte_at bytes (i / 8)) (j % 8)) place
          ∙ rest
      | inr f ↦
          let now : byte_at (put bytes (i / 8) v) (j / 8) ≡ byte_at bytes (j / 8) =
            ground (arith, b) in
          let apart : nat_beq i j ≡ false = ground arith in
          ap (λ x. test_bit x (j % 8)) now
          ∙ sym (ap (λ b. b || test_bit (byte_at bytes (j / 8)) (j % 8)) apart)
    ]

-- The value at an index: the first one, or one of the others.
value_at : (vs : List Bool) (i j : ℕ) → Bool
value_at vs i j = leb i j && or_default (get_elem? vs (j - i)) false

value_at-cons :
    (v : Bool) (vs : List Bool) (i j : ℕ)
    → value_at (v ∷ vs) i j ≡ ((nat_beq i j && v) || value_at vs (i + 1) j)
unfolding value_at
value_at-cons v vs i j = elim (Bool-cases (nat_beq i j)) [
  | inl t ↦
      let here : j - i ≡ 0 = ground arith in
      ground (arith, ap (λ k. or_default (get_elem? (v ∷ vs) k) false) here)
  | inr f ↦ elim (Bool-cases (leb i j)) [
    | inl l ↦
        let next : j - i ≡ suc (j - (i + 1)) = ground arith in
        ground (arith, ap (λ k. or_default (get_elem? (v ∷ vs) k) false) next)
    | inr l ↦ ground arith
  ]
]

-- Behind the loop a bit is set if it was, or if its value is.
bit_at-set_bits :
    (bytes : List ℕ) (i : ℕ) (values : List Bool) (j : ℕ)
    → IsBytes bytes
    → i + length values ≤ length bytes * 8
    → bit_at (set_bits bytes i values) j ≡ (bit_at bytes j || value_at values i j)
unfolding set_bits value_at
bit_at-set_bits bytes i [] j h k = ground arith
bit_at-set_bits bytes i (true ∷ vs) j h k =
    let bytes' = with_bit bytes i in
    let v = low_byte (bit_or (byte_at bytes (i / 8)) (2 ^ (i % 8))) in
    let ih =
      bit_at-set_bits bytes' (i + 1) vs j (put-IsBytes bytes (i / 8) v (omega arith) h)
        (omega (arith, length-put bytes (i / 8) v)) in
    ground (arith, ih, bit_at-with_bit bytes i j h (omega arith), value_at-cons true vs i j)
bit_at-set_bits bytes i (false ∷ vs) j h k =
    ground (arith, bit_at-set_bits bytes (i + 1) vs j h (omega arith), value_at-cons false vs i j)

length-replicate : (n x : ℕ) → length (replicate n x) ≡ n
length-replicate zero x = refl
length-replicate (suc n) x = omega (arith, length-replicate n x)

zeros-IsBytes : (n : ℕ) → IsBytes (replicate n 0)
zeros-IsBytes zero = tt
zeros-IsBytes (suc n) = (omega arith, zeros-IsBytes n)

byte_at-zeros : (n i : ℕ) → byte_at (replicate n 0) i ≡ 0
byte_at-zeros zero i = refl
byte_at-zeros (suc n) zero = refl
byte_at-zeros (suc n) (suc i) = byte_at-zeros n i

zero_table : all_below 8 (λ j. same (test_bit 0 j) false) ≡ true
unfolding all_below
zero_table = refl

zero_bit : (j : ℕ) → j < 8 → test_bit 0 j ≡ false
zero_bit j h = same-eq _ _ (all_below-lt 8 (λ j. same (test_bit 0 j) false) j zero_table h)

-- A bit of what was packed is its value; behind the values it is not set.
pub bit_at-pack_bits :
    (values : List Bool) (j : ℕ)
    → bit_at (pack_bits values) j ≡ or_default (get_elem? values j) false
unfolding pack_bits bit_at value_at
bit_at-pack_bits values j =
    let n = bytes_for (length values) in
    let zeros : List ℕ = replicate n 0 in
    let set =
      bit_at-set_bits zeros 0 values j (zeros-IsBytes n) (omega (arith, length-replicate n 0)) in
    let unset =
      ap (λ b. test_bit b (j % 8)) (byte_at-zeros n (j / 8)) ∙ zero_bit (j % 8) (omega arith) in
    let start : j - 0 ≡ j = omega arith in ground (arith, set, unset, ap (get_elem? values) start)

-- The values and the bits behind them.
abbrev pub padded : List Bool → ℕ → List Bool
padded vs n = vs ++ replicate n false

read_bits-padded :
    (xs : List ℕ) (i : ℕ) (vs : List Bool) (n : ℕ)
    → ((j : ℕ) → bit_at xs (i + j) ≡ or_default (get_elem? vs j) false)
    → read_bits xs i (length vs + n) ≡ padded vs n
unfolding read_bits
read_bits-padded xs i [] zero h = refl
read_bits-padded xs i [] (suc n) h =
    let e : 0 + suc n ≡ suc (0 + n) = omega arith in
    let here : i + 0 ≡ i = omega arith in
    ap (read_bits xs i) e
    ∙ ap (λ b. b ∷ read_bits xs (i + 1) (0 + n)) (sym (ap (bit_at xs) here) ∙ h 0)
    ∙ ap (λ l. false ∷ l) (read_bits-padded xs (i + 1) [] n (λ j. behind j ∙ h (suc j)))
  where
    behind : (j : ℕ) → bit_at xs (i + 1 + j) ≡ bit_at xs (i + suc j)
    behind j = let e : i + 1 + j ≡ i + suc j = omega arith in ap (bit_at xs) e
read_bits-padded xs i (v ∷ vs) n h =
    let e : suc (length vs) + n ≡ suc (length vs + n) = omega arith in
    let here : i + 0 ≡ i = omega arith in
    ap (read_bits xs i) e
    ∙ ap (λ b. b ∷ read_bits xs (i + 1) (length vs + n)) (sym (ap (bit_at xs) here) ∙ h 0)
    ∙ ap (λ l. v ∷ l) (read_bits-padded xs (i + 1) vs n (λ j. behind j ∙ h (suc j)))
  where
    behind : (j : ℕ) → bit_at xs (i + 1 + j) ≡ bit_at xs (i + suc j)
    behind j = let e : i + 1 + j ≡ i + suc j = omega arith in ap (bit_at xs) e

pub read_bits-pack_bits :
    (values : List Bool) (n : ℕ)
    → read_bits (pack_bits values) 0 (length values + n) ≡ padded values n
read_bits-pack_bits values n = read_bits-padded (pack_bits values) 0 values n (λ j.
    let e : 0 + j ≡ j = omega arith in ap (bit_at (pack_bits values)) e ∙ bit_at-pack_bits values j)
