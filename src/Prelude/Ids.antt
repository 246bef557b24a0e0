-- ===== src/Prelude/Ids.antt =====
-- Ids of the form `<kind>_<sequence>_<random>`: the pair of the two varying parts. The random part
-- is in base 36 and the sequence in decimal, so the text and the pair determine one another.
use Prim.Native.Nat.{ℕ}
use Prim.Native.String.{String}
use mathlib.Core.Path.{◌≡◌}
use mathlib.Core.Logic.{◌↔◌}
use mathlib.Core.Bool.{Bool, true, ◌&&◌}
use native.Mathlib.Omega.{arith}
use text.Mathlib.TextEquality.{eq_iff}
use pinout.Prelude.Tests.{nat_beq}
use pinout.Prelude.Equality.{Eq, ◌==◌, string_eq}

pub record IssuedId : Type 0 where
  pub sequence : ℕ
  pub suffix : String

abbrev pub issued_id_beq : IssuedId → IssuedId → Bool
issued_id_beq a b = nat_beq a.sequence b.sequence && a.suffix == b.suffix

pub issued_id_beq_iff : (a b : IssuedId) → (issued_id_beq a b ≡ true) ↔ (a ≡ b)
issued_id_beq_iff a b = ground (arith, eq_iff a.suffix b.suffix)

instance abbrev pub issued_id_eq : Eq IssuedId
issued_id_eq = record { equals = issued_id_beq; equals_iff = issued_id_beq_iff }
