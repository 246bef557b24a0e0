-- ===== src/Prelude/Int.antt =====
-- Signed integers over the native numbers, and JavaScript numbers. A finite one is an integer or an
-- odd numerator over a power of two, so that equal numbers are equal values. `Num` is what the
-- program tells apart of a number that it only takes as an integer.
use Prim.Native.Nat.{ℕ, suc, ◌+◌, ◌*◌, ◌^◌, ◌≤◌}
use mathlib.Core.Bool.{Bool, false, ◌&&◌}
use pinout.Prelude.Tests.{ltb, nat_beq}

-- `negsuc n` is -(n + 1).
pub data ℤ : Type 0 where
  pos : ℕ → ℤ
  negsuc : ℕ → ℤ

abbrev pub pos_part : ℤ → ℕ
pos_part (pos n) = n
pos_part (negsuc n) = 0

abbrev pub neg_part : ℤ → ℕ
neg_part (pos n) = 0
neg_part (negsuc n) = suc n

infix 50 ◌≤ℤ◌
abbrev pub ◌≤ℤ◌ : ℤ → ℤ → Type 0
a ≤ℤ b = pos_part a + neg_part b ≤ pos_part b + neg_part a

abbrev pub ltb_ℤ : ℤ → ℤ → Bool
ltb_ℤ a b = ltb (pos_part a + neg_part b) (pos_part b + neg_part a)

pub data Num : Type 0 where
  not_finite : Num
  int : ℤ → Num

-- `fraction (pos n) k` is (2 n + 1) / 2 ^ (k + 1), and `fraction (negsuc n) k` is the negative of it.
pub data Finite : Type 0 where
  whole : ℤ → Finite
  fraction : ℤ → ℕ → Finite

pub data Number : Type 0 where
  infinite_or_nan : Number
  finite : Finite → Number

-- A finite number is (above - below) / scale.
abbrev pub above : Finite → ℕ
above (whole z) = pos_part z
above (fraction (pos n) k) = 2 * n + 1
above (fraction (negsuc n) k) = 0

abbrev pub below : Finite → ℕ
below (whole z) = neg_part z
below (fraction (pos n) k) = 0
below (fraction (negsuc n) k) = 2 * n + 1

abbrev pub scale : Finite → ℕ
scale (whole z) = 1
scale (fraction z k) = 2 ^ (k + 1)

-- `a < b`
abbrev pub less : Finite → Finite → Bool
less a b = ltb (above a * scale b + below b * scale a) (above b * scale a + below a * scale b)

infix 50 ◌≤F◌
abbrev pub ◌≤F◌ : Finite → Finite → Type 0
a ≤F b = above a * scale b + below b * scale a ≤ above b * scale a + below a * scale b

abbrev pub int_beq : ℤ → ℤ → Bool
int_beq (pos a) (pos b) = nat_beq a b
int_beq (negsuc a) (negsuc b) = nat_beq a b
int_beq _ _ = false

-- `a === b`
abbrev pub finite_beq : Finite → Finite → Bool
finite_beq (whole a) (whole b) = int_beq a b
finite_beq (fraction a k) (fraction b l) = int_beq a b && nat_beq k l
finite_beq _ _ = false
