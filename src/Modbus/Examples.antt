-- ===== src/Modbus/Examples.antt =====
-- wire.ts, simulator.ts and the clients: frames as they stand on the wire.
use pinout.Prelude.{
  concat, ℕ, ◌+◌, ◌≡◌, refl, true, false, none, List, [], ◌∷◌, ◌++◌, arith, ok, err, nat_eq,
}
use pinout.Prelude.Bytes.{word_at}
use pinout.Modbus.{
  bits, crc_mismatch, decode_pdu, decode_body, encode_read_request, encode_write_multiple_registers,
  assert_quantity, max_quantity, pack_words, pack_bits, set_bits, read_words, read_bits, bit_at,
  exception_error_of,
}
use pinout.Modbus.Crc.{crc16, add_bytes, add_byte, shift_bits, shift_bit}
use pinout.Modbus.Framing.{
  MbapFrame, encode_mbap, encode_rtu, decode_mbap, try_decode_mbap, decode_rtu,
}
use pinout.Modbus.Stream.{encode_all, receive_all-encode_all}
use pinout.Modbus.Receive.{receive, receive_all, drain}
use pinout.Modbus.Rtu.{with_byte, decode_rtu-with_byte}
use pinout.Modbus.Simulator.{SimulatedModbusServer}
use pinout.Modbus.Clients.{
  ModbusTcpClient, init, connect, tcp_answer, rtu_answer, written, registers_of,
}
use pinout.Modbus.Answers.{rtu_exception_is_lost}

coding : Unit {0}
unfolding crc16 add_bytes add_byte shift_bits shift_bit encode_rtu encode_mbap decode_mbap
    try_decode_mbap receive receive_all drain encode_read_request assert_quantity max_quantity
    word_at encode_write_multiple_registers pack_words pack_bits set_bits decode_pdu decode_body
    read_bits read_words bit_at init connect
coding = tt

-- The frame of the Modbus specification's examples: slave 1 reads two holding registers.
known_sum :
    encode_rtu 1 (0x03 ∷ 0x00 ∷ 0x00 ∷ 0x00 ∷ 0x02 ∷ [])
    ≡ 0x01 ∷ 0x03 ∷ 0x00 ∷ 0x00 ∷ 0x00 ∷ 0x02 ∷ 0xc4 ∷ 0x0b ∷ []
unfolding coding
known_sum = refl

packed :
    pack_bits (true ∷ false ∷ true ∷ true ∷ false ∷ false ∷ false ∷ false ∷ true ∷ [])
    ≡ 0x0d ∷ 0x01 ∷ []
unfolding coding
packed = refl

padding_is_read :
    (decode_pdu (0x01 ∷ 0x01 ∷ 0x05 ∷ []) 0x01)
    ≡ ok (bits (true ∷ false ∷ true ∷ false ∷ false ∷ false ∷ false ∷ false ∷ []))
unfolding coding
padding_is_read = refl

abbrev frames : List MbapFrame
frames =
    record { transaction_id = 7; protocol_id = 0; unit_id = 1; pdu = 3 ∷ 2 ∷ 0 ∷ 9 ∷ [] }
    ∷ record { transaction_id = 300; protocol_id = 0; unit_id = 1; pdu = 6 ∷ [] }
    ∷ []

abbrev chunks : List (List ℕ)
chunks =
    (0 ∷ 7 ∷ 0 ∷ 0 ∷ 0 ∷ [])
    ∷ (5 ∷ 1 ∷ 3 ∷ 2 ∷ 0 ∷ 9 ∷ 1 ∷ 44 ∷ 0 ∷ 0 ∷ 0 ∷ 2 ∷ 1 ∷ [])
    ∷ (6 ∷ 99 ∷ [])
    ∷ []

chunks_hold_frames : concat chunks ≡ encode_all frames ++ 99 ∷ []
unfolding encode_mbap
chunks_hold_frames = refl

incomplete : try_decode_mbap (99 ∷ []) ≡ ok none
unfolding coding
incomplete = refl

receive_all-encode_all_example : receive_all [] chunks ≡ (frames, 99 ∷ [])
receive_all-encode_all_example =
    receive_all-encode_all frames (99 ∷ []) chunks
      (
        (omega arith, refl, omega arith, omega arith),
        ((omega arith, refl, omega arith, omega arith), tt),
      )
      incomplete chunks_hold_frames

decode_rtu-with_byte_example :
    decode_rtu (with_byte 1 ((0x06 ∷ 0x00 ∷ []) ++ 0x01 ∷ 0x00 ∷ 0x03 ∷ []) 2 0x81) 0x06 1
    ≡ err (
        crc_mismatch
          (crc16 (1 ∷ 0x06 ∷ 0x00 ∷ 0x01 ∷ 0x00 ∷ 0x03 ∷ []))
          (crc16 (1 ∷ 0x06 ∷ 0x00 ∷ 0x81 ∷ 0x00 ∷ 0x03 ∷ [])))
decode_rtu-with_byte_example =
    decode_rtu-with_byte 1 0x06 (0x06 ∷ 0x00 ∷ []) (0x00 ∷ 0x03 ∷ []) 0x01 0x81 (omega arith)
      (omega arith) (omega arith) (omega arith) (omega arith) (λ e. absurd (omega arith))

abbrev server : SimulatedModbusServer
server = record {
  coils = (3, true) ∷ [];
  discrete_inputs = [];
  holding_registers = (20, 5) ∷ (21, 6) ∷ [];
  input_registers = [];
}

rtu_exception_is_lost_example :
    let pdu = (0x06 + 0x80) ∷ 0x02 ∷ [] in
    let answer = rtu_answer (encode_rtu 17 pdu) 0x06 17 in
    (written (tcp_answer pdu 0x06) ≡ err (exception_error_of 0x06 0x02))
    × (written answer ≡ ok tt)
    × (registers_of answer ≡ ok [])
rtu_exception_is_lost_example =
    rtu_exception_is_lost 17 0x06 0x02 (omega arith) (omega arith) (omega arith)

abbrev client : ModbusTcpClient
client = record {
  unit_id = 1;
  connected = true;
  closed = false;
  buffer = [];
  next_transaction_id = 9;
  pending = (8, 100) ∷ [];
}
