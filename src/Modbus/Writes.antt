-- ===== src/Modbus/Writes.antt =====
-- simulator.ts: what the registers hold behind the loop that writes them.
use pinout.Prelude.{
  ℕ, zero, suc, ◌+◌, ◌-◌, ◌*◌, ◌%◌, ◌^◌, ◌≤◌, ◌<◌, ◌≡◌, refl, sym, ap, subst, ◌∙◌, ◌&&◌, List, [],
  ◌∷◌, arith, if◌then◌else◌, nat_beq, nat_eq, ltb, leb, length, or_default, Bool-cases, inl, inr,
}
use pinout.Prelude.Map.{get, set, get-set_self, get-set_ne}
use pinout.Prelude.Bytes.{word_at}
use pinout.Modbus.{pack_words, read_words}
use pinout.Modbus.Simulator.{
  SimulatedModbusServer, get_holding_register, set_holding_register, range, write_words,
}
use pinout.Modbus.Words.{AreWords, read_words-pack_words}

get-set_holding_register :
    (s : SimulatedModbusServer) (a v x : ℕ)
    → get_holding_register (set_holding_register s a v) x
      ≡ (if nat_beq a x then v % 2 ^ 16 else get_holding_register s x)
unfolding get_holding_register set_holding_register
get-set_holding_register s a v x = elim (Bool-cases (nat_beq a x)) [
  | inl t ↦
      let same : a ≡ x = ground arith in
      rw t (
        ap (λ y. or_default (get y (set a (v % 2 ^ 16) s.holding_registers)) 0) (sym same)
        ∙ ap (λ o. or_default o 0) (get-set_self a (v % 2 ^ 16) s.holding_registers))
  | inr f ↦ rw f (
      ap (λ o. or_default o 0)
        (get-set_ne a x (v % 2 ^ 16) s.holding_registers (λ e. ground arith)))
]

-- A register behind the loop that writes: one of those that are written, or as it was.
pub get-write_words :
    (s : SimulatedModbusServer) (address : ℕ) (bytes : List ℕ) (i rounds x : ℕ)
    → get_holding_register (write_words s address bytes i rounds) x ≡ (
        if leb (address + i) x && ltb x (address + i + rounds)
        then word_at bytes ((x - address) * 2) % 2 ^ 16
        else get_holding_register s x)
unfolding write_words
get-write_words s address bytes i zero x = ground arith
get-write_words s address bytes i (suc rounds) x =
    let v = word_at bytes (i * 2) in
    let s' = set_holding_register s (address + i) v in
    let ih = get-write_words s' address bytes (i + 1) rounds x in
    let one = get-set_holding_register s (address + i) v x in
    elim (Bool-cases (nat_beq (address + i) x)) [
      | inl t ↦
          let here : (x - address) * 2 ≡ i * 2 = ground arith in
          let there = ap (word_at bytes) here in ground (arith, ih, one, there)
      | inr f ↦ ground (arith, ih, one)
    ]

range-ext :
    (f g : ℕ → ℕ) (address quantity : ℕ)
    → ((x : ℕ) → address ≤ x → x < address + quantity → f x ≡ g x)
    → range f address quantity ≡ range g address quantity
unfolding range
range-ext f g address zero h = refl
range-ext f g address (suc q) h =
    ap (λ v. v ∷ range f (address + 1) q) (h address (omega arith) (omega arith))
    ∙ ap (λ l. g address ∷ l)
        (range-ext f g (address + 1) q (λ x a b. h x (omega arith) (omega arith)))

-- The loop over the words of some bytes, as a loop over addresses.
range-read_words :
    (bytes : List ℕ) (i address quantity : ℕ)
    → range (λ x. word_at bytes (i + (x - address) * 2)) address quantity
      ≡ read_words bytes i quantity
unfolding range read_words
range-read_words bytes i address zero = refl
range-read_words bytes i address (suc q) =
    let f = λ (x : ℕ). word_at bytes (i + (x - address) * 2) in
    let g = λ (x : ℕ). word_at bytes (i + 2 + (x - (address + 1)) * 2) in
    let here : i + (address - address) * 2 ≡ i = omega arith in
    let next = range-ext f g (address + 1) q (λ x a b.
      let e : i + (x - address) * 2 ≡ i + 2 + (x - (address + 1)) * 2 = omega arith in
      ap (word_at bytes) e) in
    ap (λ k. word_at bytes k ∷ range f (address + 1) q) here
    ∙ ap (λ l. word_at bytes i ∷ l) (next ∙ range-read_words bytes (i + 2) (address + 1) q)

AreWords-mod :
    (f : ℕ → ℕ) (address quantity : ℕ)
    → AreWords (range f address quantity)
    → range (λ x. f x % 2 ^ 16) address quantity ≡ range f address quantity
unfolding range
AreWords-mod f address zero h = refl
AreWords-mod f address (suc q) (h, k) =
    let e : f address % 2 ^ 16 ≡ f address = omega arith in
    ap (λ v. v ∷ range (λ x. f x % 2 ^ 16) (address + 1) q) e
    ∙ ap (λ l. f address ∷ l) (AreWords-mod f (address + 1) q k)

pub range-write_words :
    (s : SimulatedModbusServer) (address : ℕ) (vs : List ℕ)
    → AreWords vs
    → range
        (get_holding_register (write_words s address (pack_words vs) 0 (length vs)))
        address
        (length vs)
      ≡ vs
range-write_words s address vs h =
    let s' = write_words s address (pack_words vs) 0 (length vs) in
    let f = λ (x : ℕ). word_at (pack_words vs) (0 + (x - address) * 2) in
    let plain =
      range-read_words (pack_words vs) 0 address (length vs) ∙ read_words-pack_words [] vs h in
    range-ext (get_holding_register s') (λ x. f x % 2 ^ 16) address (length vs)
      (λ x a b.
        let e : (x - address) * 2 ≡ 0 + (x - address) * 2 = omega arith in
        let there = ap (word_at (pack_words vs)) e in
        ground (arith, get-write_words s address (pack_words vs) 0 (length vs) x, there))
    ∙ AreWords-mod f address (length vs) (subst AreWords (sym plain) h)
    ∙ plain
