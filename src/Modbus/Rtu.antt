-- ===== src/Modbus/Rtu.antt =====
-- wire.ts: what the checksum of a frame on a serial line is good for.
use Prim.Native.Nat.{bit_or}
use pinout.Prelude.{
  ℕ, suc, ◌+◌, ◌-◌, ◌*◌, ◌^◌, ◌≤◌, ◌<◌, ◌≡◌, refl, sym, ap, ◌∙◌, ◌≢◌, List, [], ◌∷◌, ◌++◌, arith,
  if◌then◌else◌, nat_beq, length, length-append, err, All-append, or_default,
}
use mathlib.Core.List.{append_assoc}
use pinout.Prelude.Bits.{bit_or_comm}
use pinout.Prelude.Bytes.{
  IsBytes, put, put-append, take, high_byte, low_byte, byte_at, take-append, get_elem?-append_right,
}
use pinout.Modbus.{wrong_slave, crc_mismatch, decode_pdu}
use pinout.Modbus.Crc.{crc16, crc16-lt, crc16-one_byte}
use pinout.Modbus.Framing.{encode_rtu, decode_rtu, received_crc, word_bytes}

-- A frame as it comes in: an address, a PDU and the two bytes of a checksum.
abbrev pub received_frame : ℕ → List ℕ → ℕ → List ℕ
received_frame address pdu crc = address ∷ pdu ++ low_byte crc ∷ high_byte crc ∷ []

some_byte : (before after : List ℕ) (b : ℕ) → (before ++ b ∷ after) ≢ []
some_byte [] after b = λ q. ground arith
some_byte (x ∷ before) after b = λ q. ground arith

length_pos : (xs : List ℕ) → xs ≢ [] → 0 < length xs
length_pos [] n = absurd (n refl)
length_pos (x ∷ xs) n = omega arith

module _ (address : ℕ) (pdu : List ℕ) (crc : ℕ) where
  length-received : length (received_frame address pdu crc) ≡ length pdu + 3
  length-received = omega (arith, length-append pdu (low_byte crc ∷ high_byte crc ∷ []))

  received_crc-eq : crc < 65_536 → received_crc (received_frame address pdu crc) ≡ crc
  unfolding received_crc
  received_crc-eq h =
      let frame = received_frame address pdu crc in
      let tail = low_byte crc ∷ high_byte crc ∷ [] in
      let at_low : length frame - 2 ≡ length (address ∷ pdu) + 0 = omega (arith, length-received) in
      let at_high : length frame - 1 ≡ length (address ∷ pdu) + 1 =
        omega (arith, length-received) in
      let low : byte_at frame (length frame - 2) ≡ low_byte crc =
        ap (λ k. byte_at frame k) at_low
        ∙ ap (λ o. or_default o 0) (get_elem?-append_right (address ∷ pdu) tail 0) in
      let high : byte_at frame (length frame - 1) ≡ high_byte crc =
        ap (λ k. byte_at frame k) at_high
        ∙ ap (λ o. or_default o 0) (get_elem?-append_right (address ∷ pdu) tail 1) in
      ap (λ b. bit_or b (byte_at frame (length frame - 1) * 2 ^ 8)) low
      ∙ ap (λ b. bit_or (low_byte crc) (b * 2 ^ 8)) high
      ∙ bit_or_comm (low_byte crc) (high_byte crc * 2 ^ 8)
      ∙ word_bytes crc h

  -- How a frame is judged.
  decode_rtu-eq :
      (request expected : ℕ)
      → pdu ≢ []
      → crc < 65_536
      → decode_rtu (received_frame address pdu crc) request expected ≡ (
          if nat_beq address expected
          then (if nat_beq crc (crc16 (address ∷ pdu))
              then decode_pdu pdu request
              else err (crc_mismatch crc (crc16 (address ∷ pdu))))
          else err (wrong_slave address expected))
  unfolding decode_rtu
  decode_rtu-eq request expected n h =
      let frame = received_frame address pdu crc in
      let tail = low_byte crc ∷ high_byte crc ∷ [] in
      let all_but_sum : length frame - 2 ≡ length (address ∷ pdu) =
        omega (arith, length-received) in
      let body_size : length frame - 3 ≡ length pdu = omega (arith, length-received) in
      let body : take (length frame - 3) (pdu ++ tail) ≡ pdu =
        ap (λ k. take k (pdu ++ tail)) body_size ∙ take-append pdu tail in
      let summed : take (length frame - 2) frame ≡ address ∷ pdu =
        ap (λ k. take k frame) all_but_sum ∙ take-append (address ∷ pdu) tail in
      let long : 4 ≤ length frame = omega (arith, length-received, length_pos pdu n) in
      rw (body, summed, received_crc-eq h) (ground (arith, long))

-- A frame that is sent is read as the PDU in it.
pub decode-encode_rtu :
    (slave_address request : ℕ) (pdu : List ℕ)
    → slave_address < 256
    → IsBytes pdu
    → pdu ≢ []
    → decode_rtu (encode_rtu slave_address pdu) request slave_address ≡ decode_pdu pdu request
unfolding encode_rtu
decode-encode_rtu slave_address request pdu s b n =
    let address : low_byte slave_address ≡ slave_address = omega arith in
    let crc = crc16 (low_byte slave_address ∷ pdu) in
    let fits : crc < 65_536 = crc16-lt (low_byte slave_address ∷ pdu) (omega arith, b) in
    decode_rtu-eq (low_byte slave_address) pdu crc request slave_address n fits
    ∙ ground (arith, address)

-- The frame that is sent, with one byte of its PDU changed.
abbrev pub with_byte : ℕ → List ℕ → ℕ → ℕ → List ℕ
with_byte slave_address pdu i byte = put (encode_rtu slave_address pdu) (suc i) byte

with_byte-eq :
    (slave_address : ℕ) (before after : List ℕ) (sent arrived : ℕ)
    → slave_address < 256
    → with_byte slave_address (before ++ sent ∷ after) (length before) arrived
      ≡ received_frame slave_address
          (before ++ arrived ∷ after)
          (crc16 (slave_address ∷ (before ++ sent ∷ after)))
unfolding encode_rtu
with_byte-eq slave_address before after sent arrived a =
    let pdu = before ++ sent ∷ after in
    let address : low_byte slave_address ≡ slave_address = omega arith in
    let crc = crc16 (slave_address ∷ pdu) in
    let tail = low_byte crc ∷ high_byte crc ∷ [] in
    rw address (
      ap (λ l. slave_address ∷ l)
        (ap (λ l. put l (length before) arrived) (append_assoc before (sent ∷ after) tail)
          ∙ put-append before (after ++ tail) sent arrived
          ∙ sym (append_assoc before (arrived ∷ after) tail)))

-- A frame of which one byte of the PDU was changed on the line is refused for its checksum,
-- whatever the byte became and whatever was asked.
pub decode_rtu-with_byte :
    (slave_address request : ℕ) (before after : List ℕ) (sent arrived : ℕ)
    → slave_address < 256
    → IsBytes before
    → IsBytes after
    → sent < 256
    → arrived < 256
    → sent ≢ arrived
    → decode_rtu
        (with_byte slave_address (before ++ sent ∷ after) (length before) arrived)
        request
        slave_address
      ≡ err (
          crc_mismatch
            (crc16 (slave_address ∷ (before ++ sent ∷ after)))
            (crc16 (slave_address ∷ (before ++ arrived ∷ after))))
decode_rtu-with_byte slave_address request before after sent arrived a b c d e n =
    let text = slave_address ∷ (before ++ sent ∷ after) in
    let fits : crc16 text < 65_536 =
      crc16-lt text (a, All-append (λ x. x < 256) before (sent ∷ after) b (d, c)) in
    let differs : crc16 text ≢ crc16 (slave_address ∷ (before ++ arrived ∷ after)) =
      λ q. n (crc16-one_byte (slave_address ∷ before) after sent arrived (a, b) c d e q) in
    ap (λ f. decode_rtu f request slave_address)
      (with_byte-eq slave_address before after sent arrived a)
    ∙ decode_rtu-eq slave_address (before ++ arrived ∷ after) (crc16 text) request slave_address
        (some_byte before after arrived) fits
    ∙ ground (arith, differs)
