-- ===== src/Modbus/Framing.antt =====
-- wire.ts: the frames around a PDU, over TCP and over a serial line.
use Prim.Native.Nat.{bit_or}
use pinout.Prelude.{
  ℕ, ◌+◌, ◌-◌, ◌*◌, ◌^◌, ◌<◌, ◌≡◌, ap, ◌∙◌, Option, none, some, List, [], ◌∷◌, ◌++◌, arith,
  if◌then◌else◌, ltb, nat_beq, length, length-append, Result, ok, err,
}
use pinout.Prelude.Bytes.{
  take, drop, high_byte, low_byte, byte_at, word_at, take-append, bit_or_word,
}
use pinout.Modbus.{
  ModbusError, short_mbap, exceeds_available, short_rtu, wrong_slave, crc_mismatch, PduDecodeResult,
  decode_pdu,
}
use pinout.Modbus.Crc.{crc16}

pub record MbapFrame : Type 0 where
  pub transaction_id : ℕ
  pub protocol_id : ℕ
  pub unit_id : ℕ
  pub pdu : List ℕ

unfoldable pub encode_mbap : ℕ → ℕ → List ℕ → List ℕ
encode_mbap transaction_id unit_id pdu =
    high_byte transaction_id
    ∷ low_byte transaction_id
    ∷ 0
    ∷ 0
    ∷ high_byte (length pdu + 1)
    ∷ low_byte (length pdu + 1)
    ∷ low_byte unit_id
    ∷ pdu

-- `slice(7, end)`, empty if the end lies in front.
unfoldable pub decode_mbap : List ℕ → Result ModbusError MbapFrame
decode_mbap frame =
    let length_field = word_at frame 4 in
    let expected = length_field + 6 in
    if ltb (length frame) 7
    then err short_mbap
    else if ltb (length frame) expected
    then err (exceeds_available length_field)
    else ok (record {
      transaction_id = word_at frame 0;
      protocol_id = word_at frame 2;
      unit_id = byte_at frame 6;
      pdu = take (expected - 7) (drop 7 frame);
    })

-- The frame and how many bytes it takes; what `decodeMbap` throws is thrown on.
unfoldable pub try_decode_mbap : List ℕ → Result ModbusError (Option (MbapFrame × ℕ))
try_decode_mbap buffer =
    let total = word_at buffer 4 + 6 in
    if ltb (length buffer) 7
    then ok none
    else if ltb (length buffer) total
    then ok none
    else elim (decode_mbap buffer) [ ok frame ↦ ok (some (frame, total)) | err e ↦ err e ]

unfoldable pub encode_rtu : ℕ → List ℕ → List ℕ
encode_rtu slave_address pdu =
    let crc = crc16 (low_byte slave_address ∷ pdu) in
    low_byte slave_address ∷ pdu ++ low_byte crc ∷ high_byte crc ∷ []

-- `frame[frame.length - 2]! | (frame[frame.length - 1]! << 8)`
unfoldable pub received_crc : List ℕ → ℕ
received_crc frame =
    bit_or (byte_at frame (length frame - 2)) (byte_at frame (length frame - 1) * 2 ^ 8)

unfoldable pub decode_rtu : List ℕ → ℕ → ℕ → Result ModbusError PduDecodeResult
decode_rtu frame request expected_address =
    let address = byte_at frame 0 in
    let pdu = take (length frame - 3) (drop 1 frame) in
    let received = received_crc frame in
    let computed = crc16 (take (length frame - 2) frame) in
    if ltb (length frame) 4
    then err short_rtu
    else if nat_beq address expected_address
    then (if nat_beq received computed
        then decode_pdu pdu request
        else err (crc_mismatch received computed))
    else err (wrong_slave address expected_address)

pub word_bytes : (x : ℕ) → x < 65_536 → bit_or (high_byte x * 2 ^ 8) (low_byte x) ≡ x
word_bytes x h = omega (arith, bit_or_word (high_byte x) (low_byte x) (omega arith))

-- A frame is read back from the head of the bytes that follow one another on a connection.
pub try_decode-encode_mbap :
    (transaction_id unit_id : ℕ) (pdu rest : List ℕ)
    → transaction_id < 65_536
    → unit_id < 256
    → length pdu < 65_535
    → try_decode_mbap (encode_mbap transaction_id unit_id pdu ++ rest)
      ≡ ok (
          some (
            record {
              transaction_id = transaction_id;
              protocol_id = 0;
              unit_id = unit_id;
              pdu = pdu;
            },
            length pdu + 7,
          ))
unfolding try_decode_mbap decode_mbap encode_mbap word_at
try_decode-encode_mbap transaction_id unit_id pdu rest t u l =
    let n = length pdu + 1 in
    let size = word_bytes n (omega arith) in
    let body : take (bit_or (high_byte n * 2 ^ 8) (low_byte n) + 6 - 7) (pdu ++ rest) ≡ pdu =
      ap (λ k. take k (pdu ++ rest)) (omega (arith, size)) ∙ take-append pdu rest in
    ground (arith, size, body, word_bytes transaction_id, bit_or_word 0 0, length-append pdu rest)
