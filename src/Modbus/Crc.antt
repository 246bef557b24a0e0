-- ===== src/Modbus/Crc.antt =====
-- wire.ts: crc16, the checksum of a frame on a serial line.
use Prim.Native.Nat.{bit_and, bit_xor}
use pinout.Prelude.{
  ℕ, zero, suc, ◌/◌, ◌^◌, ◌<◌, ◌≡◌, refl, sym, ◌∙◌, List, [], ◌∷◌, ◌++◌, arith, if◌then◌else◌,
  nat_beq,
}
use pinout.Prelude.Bits.{
  bit_xor-lt, bit_xor_cancel_left, bit_xor_cancel_right, bit_xor_top, bit_and_one,
}
use pinout.Prelude.Bytes.{IsBytes}

-- One round of the inner loop.
unfoldable pub shift_bit : ℕ → ℕ
shift_bit crc = if nat_beq (bit_and crc 1) 0 then crc / 2 else bit_xor (crc / 2) 0xa001

unfoldable pub shift_bits : ℕ → ℕ → ℕ
shift_bits zero crc = crc
shift_bits (suc rounds) crc = shift_bits rounds (shift_bit crc)

unfoldable pub add_byte : ℕ → ℕ → ℕ
add_byte crc byte = shift_bits 8 (bit_xor crc byte)

unfoldable pub add_bytes : ℕ → List ℕ → ℕ
add_bytes crc [] = crc
add_bytes crc (byte ∷ bytes) = add_bytes (add_byte crc byte) bytes

unfoldable pub crc16 : List ℕ → ℕ
crc16 bytes = add_bytes 0xffff bytes

shift_bit-lt : (c : ℕ) → c < 2 ^ 16 → shift_bit c < 2 ^ 16
unfolding shift_bit
shift_bit-lt c h = ground (arith, bit_xor-lt 16 (c / 2) 0xa001)

-- The sum that is shifted out comes back at the top, so a round loses nothing.
shift_bit-injective : (c d : ℕ) → c < 2 ^ 16 → d < 2 ^ 16 → shift_bit c ≡ shift_bit d → c ≡ d
unfolding shift_bit
shift_bit-injective c d h k e = ground (
  arith,
  bit_and_one c,
  bit_and_one d,
  bit_xor_top 15 (c / 2) 0xa001,
  bit_xor_top 15 (d / 2) 0xa001,
  bit_xor_cancel_right (c / 2) (d / 2) 0xa001,
)

shift_bits-lt : (n c : ℕ) → c < 2 ^ 16 → shift_bits n c < 2 ^ 16
unfolding shift_bits
shift_bits-lt zero c h = h
shift_bits-lt (suc n) c h = shift_bits-lt n (shift_bit c) (shift_bit-lt c h)

shift_bits-injective :
    (n c d : ℕ) → c < 2 ^ 16 → d < 2 ^ 16 → shift_bits n c ≡ shift_bits n d → c ≡ d
unfolding shift_bits
shift_bits-injective zero c d h k e = e
shift_bits-injective (suc n) c d h k e =
    shift_bit-injective c d h k
      (shift_bits-injective n (shift_bit c) (shift_bit d) (shift_bit-lt c h) (shift_bit-lt d k) e)

add_byte-lt : (c b : ℕ) → c < 2 ^ 16 → b < 256 → add_byte c b < 2 ^ 16
unfolding add_byte
add_byte-lt c b h k = shift_bits-lt 8 (bit_xor c b) (bit_xor-lt 16 c b h (omega arith))

pub add_bytes-lt : (c : ℕ) (xs : List ℕ) → c < 2 ^ 16 → IsBytes xs → add_bytes c xs < 2 ^ 16
unfolding add_bytes
add_bytes-lt c [] h k = h
add_bytes-lt c (b ∷ xs) h (k, l) = add_bytes-lt (add_byte c b) xs (add_byte-lt c b h k) l

-- The checksum fits the two bytes that hold it.
pub crc16-lt : (xs : List ℕ) → IsBytes xs → crc16 xs < 2 ^ 16
unfolding crc16
crc16-lt xs h = add_bytes-lt 0xffff xs (omega arith) h

add_bytes-injective :
    (c d : ℕ) (xs : List ℕ)
    → c < 2 ^ 16
    → d < 2 ^ 16
    → IsBytes xs
    → add_bytes c xs ≡ add_bytes d xs
    → c ≡ d
unfolding add_bytes add_byte
add_bytes-injective c d [] h k l e = e
add_bytes-injective c d (b ∷ xs) h k (l, m) e =
    let r =
      add_bytes-injective (add_byte c b) (add_byte d b) xs (add_byte-lt c b h l)
        (add_byte-lt d b k l) m e in
    let fit : b < 2 ^ 16 = omega arith in
    bit_xor_cancel_right c d b (
      shift_bits-injective 8 (bit_xor c b) (bit_xor d b) (bit_xor-lt 16 c b h fit)
        (bit_xor-lt 16 d b k fit) r)

-- Two sums that agree behind a byte had the same byte.
add_byte-injective :
    (c b b' : ℕ) → c < 2 ^ 16 → b < 256 → b' < 256 → add_byte c b ≡ add_byte c b' → b ≡ b'
unfolding add_byte
add_byte-injective c b b' h k l e = bit_xor_cancel_left b b' c (
    shift_bits-injective 8 (bit_xor c b) (bit_xor c b') (bit_xor-lt 16 c b h (omega arith))
      (bit_xor-lt 16 c b' h (omega arith)) e)

add_bytes-append : (c : ℕ) (xs ys : List ℕ) → add_bytes c (xs ++ ys) ≡ add_bytes (add_bytes c xs) ys
unfolding add_bytes
add_bytes-append c [] ys = refl
add_bytes-append c (x ∷ xs) ys = add_bytes-append (add_byte c x) xs ys

-- Two texts that differ in one byte have different checksums.
pub crc16-one_byte :
    (before after : List ℕ) (b b' : ℕ)
    → IsBytes before
    → IsBytes after
    → b < 256
    → b' < 256
    → crc16 (before ++ b ∷ after) ≡ crc16 (before ++ b' ∷ after)
    → b ≡ b'
unfolding crc16 add_bytes
crc16-one_byte before after b b' h k l m e =
    let c = add_bytes 0xffff before in
    let fit = add_bytes-lt 0xffff before (omega arith) h in
    let split = add_bytes-append 0xffff before (b ∷ after) in
    let split' = add_bytes-append 0xffff before (b' ∷ after) in
    add_byte-injective c b b' fit l m (
      add_bytes-injective (add_byte c b) (add_byte c b') after (add_byte-lt c b fit l)
        (add_byte-lt c b' fit m) k (sym split ∙ e ∙ split'))
