-- ===== src/Prelude/Bits.antt =====
-- The binary operations of JavaScript on small whole numbers: laws of `|` and `^` at variables, from
-- the recursion on digits that the native operations stand for, and checks over all bytes.
use Prim.Native.Nat.{
  ℕ, zero, suc, ◌+◌, ◌*◌, ◌/◌, ◌%◌, ◌^◌, ◌≤◌, ◌<◌, max, min, digits, differ, bit_and, bit_or,
  bit_xor, bit_and-bitwise, bit_or-bitwise, bit_xor-bitwise,
}
use mathlib.Core.Path.{◌≡◌, refl, sym, ap, ◌∙◌}
use mathlib.Core.Bool.{Bool, true, ◌&&◌}
use native.Mathlib.Nat.{pow-suc}
use native.Mathlib.Omega.{arith}

-- The count of digits to go does not matter, if there are no more digits than that.
module _ (z : ℕ → ℕ) (f : ℕ → ℕ → ℕ) where
  count_is_free : (n m a b : ℕ) → a ≤ n → a ≤ m → digits z f n a b ≡ digits z f m a b
  count_is_free zero zero a b p q = refl
  count_is_free zero (suc m) zero b p q = refl
  count_is_free zero (suc m) (suc a) b p q = absurd (omega arith)
  count_is_free (suc n) zero zero b p q = refl
  count_is_free (suc n) zero (suc a) b p q = absurd (omega arith)
  count_is_free (suc n) (suc m) zero b p q = refl
  count_is_free (suc n) (suc m) (suc a) b p q =
      omega (arith, count_is_free n m (suc a / 2) (b / 2) (omega arith) (omega arith))

zero-bit_xor : (b : ℕ) → bit_xor 0 b ≡ b
zero-bit_xor b = bit_xor-bitwise 0 b

zero-bit_or : (b : ℕ) → bit_or 0 b ≡ b
zero-bit_or b = bit_or-bitwise 0 b

differ-eq : (x y : ℕ) → x < 2 → y < 2 → differ x y ≡ (x + y) % 2
differ-eq zero y p q = omega arith
differ-eq (suc zero) zero p q = refl
differ-eq (suc zero) (suc zero) p q = refl
differ-eq (suc zero) (suc (suc y)) p q = absurd (omega arith)
differ-eq (suc (suc x)) y p q = absurd (omega arith)

-- The lowest digit and the others.
pub bit_xor_digits : (a b : ℕ) → bit_xor a b ≡ bit_xor (a / 2) (b / 2) * 2 + (a % 2 + b % 2) % 2
bit_xor_digits zero b = omega (arith, zero-bit_xor b, zero-bit_xor (b / 2))
bit_xor_digits (suc a) b = omega (
  arith,
  bit_xor-bitwise (suc a) b,
  bit_xor-bitwise (suc a / 2) (b / 2),
  count_is_free (λ b. b) differ a (suc a / 2) (suc a / 2) (b / 2) (omega arith) (omega arith),
  differ-eq (suc a % 2) (b % 2) (omega arith) (omega arith),
)

bit_or_digits : (a b : ℕ) → bit_or a b ≡ bit_or (a / 2) (b / 2) * 2 + max (a % 2) (b % 2)
bit_or_digits zero b = omega (arith, zero-bit_or b, zero-bit_or (b / 2))
bit_or_digits (suc a) b = omega (
  arith,
  bit_or-bitwise (suc a) b,
  bit_or-bitwise (suc a / 2) (b / 2),
  count_is_free (λ b. b) max a (suc a / 2) (suc a / 2) (b / 2) (omega arith) (omega arith),
)

half-bit_xor : (a b : ℕ) → bit_xor a b / 2 ≡ bit_xor (a / 2) (b / 2)
half-bit_xor a b = omega (arith, bit_xor_digits a b)

cancel_below : (n a b : ℕ) → a ≤ n → b ≤ n → bit_xor (bit_xor a b) b ≡ a
cancel_below zero zero zero p q = refl
cancel_below zero (suc a) b p q = absurd (omega arith)
cancel_below zero zero (suc b) p q = absurd (omega arith)
cancel_below (suc n) a b p q = omega (
  arith,
  bit_xor_digits a b,
  bit_xor_digits (bit_xor a b) b,
  ap (λ t. bit_xor t (b / 2)) (half-bit_xor a b),
  cancel_below n (a / 2) (b / 2) (omega arith) (omega arith),
)

pub bit_xor-bit_xor_cancel : (a b : ℕ) → bit_xor (bit_xor a b) b ≡ a
bit_xor-bit_xor_cancel a b = cancel_below (a + b) a b (omega arith) (omega arith)

comm_below : (n a b : ℕ) → a ≤ n → b ≤ n → bit_xor a b ≡ bit_xor b a
comm_below zero zero zero p q = refl
comm_below zero (suc a) b p q = absurd (omega arith)
comm_below zero zero (suc b) p q = absurd (omega arith)
comm_below (suc n) a b p q = omega (
  arith,
  bit_xor_digits a b,
  bit_xor_digits b a,
  comm_below n (a / 2) (b / 2) (omega arith) (omega arith),
)

pub bit_xor_comm : (a b : ℕ) → bit_xor a b ≡ bit_xor b a
bit_xor_comm a b = comm_below (a + b) a b (omega arith) (omega arith)

-- `^` is injective on either side.
pub bit_xor_cancel_right : (a b c : ℕ) → bit_xor a c ≡ bit_xor b c → a ≡ b
bit_xor_cancel_right a b c h =
    sym (bit_xor-bit_xor_cancel a c) ∙ ap (λ t. bit_xor t c) h ∙ bit_xor-bit_xor_cancel b c

pub bit_xor_cancel_left : (a b c : ℕ) → bit_xor c a ≡ bit_xor c b → a ≡ b
bit_xor_cancel_left a b c h = bit_xor_cancel_right a b c (bit_xor_comm a c ∙ h ∙ bit_xor_comm c b)

pub bit_xor-lt : (k a b : ℕ) → a < 2 ^ k → b < 2 ^ k → bit_xor a b < 2 ^ k
bit_xor-lt zero zero zero p q = p
bit_xor-lt zero zero (suc b) p q = absurd (omega arith)
bit_xor-lt zero (suc a) b p q = absurd (omega arith)
bit_xor-lt (suc k) a b p q =
    let e = pow-suc 2 k in
    omega (arith, e, bit_xor_digits a b, bit_xor-lt k (a / 2) (b / 2) (omega arith) (omega arith))

-- The top digit of numbers of `k + 1` digits.
pub bit_xor_top : (k a b : ℕ) → a < 2 ^ k → 2 ^ k ≤ b → b < 2 ^ suc k → 2 ^ k ≤ bit_xor a b
bit_xor_top zero zero b p q r = omega (arith, zero-bit_xor b)
bit_xor_top zero (suc a) b p q r = absurd (omega arith)
bit_xor_top (suc k) a b p q r =
    let e = pow-suc 2 k in
    let e' = pow-suc 2 (suc k) in
    omega (
      arith,
      e,
      e',
      bit_xor_digits a b,
      bit_xor_top k (a / 2) (b / 2) (omega arith) (omega arith) (omega arith),
    )

bit_or-zero_below : (n a : ℕ) → a ≤ n → bit_or a 0 ≡ a
bit_or-zero_below zero zero p = refl
bit_or-zero_below zero (suc a) p = absurd (omega arith)
bit_or-zero_below (suc n) a p =
    omega (arith, bit_or_digits a 0, bit_or-zero_below n (a / 2) (omega arith))

-- `(a << k) | b`, if `b` has no more than `k` digits.
pub bit_or_disjoint : (k a b : ℕ) → b < 2 ^ k → bit_or (a * 2 ^ k) b ≡ a * 2 ^ k + b
bit_or_disjoint zero a zero p =
    let once : a * 2 ^ 0 ≡ a = omega arith in
    omega (arith, once, ap (λ t. bit_or t 0) once, bit_or-zero_below a a (omega arith))
bit_or_disjoint zero a (suc b) p = absurd (omega arith)
bit_or_disjoint (suc k) a b p =
    let e = pow-suc 2 k in
    let twice : a * 2 ^ suc k ≡ 2 * (a * 2 ^ k) = omega (arith, ap (λ (t : ℕ). a * t) e) in
    let half : a * 2 ^ suc k / 2 ≡ a * 2 ^ k = omega (arith, twice) in
    omega (
      arith,
      e,
      twice,
      bit_or_digits (a * 2 ^ suc k) b,
      ap (λ t. bit_or t (b / 2)) half,
      bit_or_disjoint k a (b / 2) (omega arith),
    )

-- A test that holds of all numbers below a limit, by evaluation.
unfoldable pub all_below : ℕ → (ℕ → Bool) → Bool
all_below zero p = true
all_below (suc n) p = p n && all_below n p

pub all_below-lt : (n : ℕ) (p : ℕ → Bool) (x : ℕ) → all_below n p ≡ true → x < n → p x ≡ true
unfolding all_below
all_below-lt zero p x h lt = absurd (omega arith)
all_below-lt (suc n) p x h lt = ground (arith, all_below-lt n p x)

bit_and_digits : (a b : ℕ) → bit_and a b ≡ bit_and (a / 2) (b / 2) * 2 + min (a % 2) (b % 2)
bit_and_digits zero b = omega (arith, bit_and-bitwise 0 b, bit_and-bitwise 0 (b / 2))
bit_and_digits (suc a) b = omega (
  arith,
  bit_and-bitwise (suc a) b,
  bit_and-bitwise (suc a / 2) (b / 2),
  count_is_free (λ b. zero) min a (suc a / 2) (suc a / 2) (b / 2) (omega arith) (omega arith),
)

bit_and-zero_below : (n a : ℕ) → a ≤ n → bit_and a 0 ≡ 0
bit_and-zero_below zero zero p = bit_and-bitwise 0 0
bit_and-zero_below zero (suc a) p = absurd (omega arith)
bit_and-zero_below (suc n) a p =
    omega (arith, bit_and_digits a 0, bit_and-zero_below n (a / 2) (omega arith))

pub bit_and_one : (a : ℕ) → bit_and a 1 ≡ a % 2
bit_and_one a = omega (arith, bit_and_digits a 1, bit_and-zero_below (a / 2) (a / 2) (omega arith))

or_comm_below : (n a b : ℕ) → a ≤ n → b ≤ n → bit_or a b ≡ bit_or b a
or_comm_below zero zero zero p q = refl
or_comm_below zero (suc a) b p q = absurd (omega arith)
or_comm_below zero zero (suc b) p q = absurd (omega arith)
or_comm_below (suc n) a b p q = omega (
  arith,
  bit_or_digits a b,
  bit_or_digits b a,
  or_comm_below n (a / 2) (b / 2) (omega arith) (omega arith),
)

pub bit_or_comm : (a b : ℕ) → bit_or a b ≡ bit_or b a
bit_or_comm a b = or_comm_below (a + b) a b (omega arith) (omega arith)
