-- ===== src/Prelude/Text.antt =====
-- Texts as lists of UTF-16 code units, and `String.prototype.trim`.
use Prim.Native.Nat.{ℕ}
use mathlib.Core.Bool.{Bool, ◌||◌, ◌&&◌}
use mathlib.Core.List.{List, [], ◌∷◌}
use pinout.Prelude.Tests.{if◌then◌else◌, leb, nat_beq}

abbrev pub Text : Type 0
Text = List ℕ

-- The white space and line terminators that `trim` removes.
abbrev pub is_space : ℕ → Bool
is_space c =
    leb 9 c && leb c 13
    || nat_beq c 0x20
    || nat_beq c 0xa0
    || nat_beq c 0x1680
    || leb 0x2000 c && leb c 0x200a
    || nat_beq c 0x2028
    || nat_beq c 0x2029
    || nat_beq c 0x202f
    || nat_beq c 0x205f
    || nat_beq c 0x3000
    || nat_beq c 0xfeff

abbrev pub trim_start : Text → Text
trim_start [] = []
trim_start (c ∷ cs) = let later = trim_start cs in if is_space c then later else c ∷ cs

abbrev pub before_space : ℕ → Text → Text
before_space c [] = if is_space c then [] else c ∷ []
before_space c (d ∷ ds) = c ∷ d ∷ ds

abbrev pub trim_end : Text → Text
trim_end [] = []
trim_end (c ∷ cs) = before_space c (trim_end cs)

unfoldable pub trim : Text → Text
trim cs = trim_end (trim_start cs)
