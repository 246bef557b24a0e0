-- ===== src/Modbus/Coils.antt =====
-- wire.ts and simulator.ts: requests for coils, and what the client reads in the responses.
use pinout.Prelude.{
  ℕ, ◌+◌, ◌-◌, ◌*◌, ◌≤◌, ◌<◌, ◌≡◌, refl, ap, ◌∙◌, Bool, arith, nat_eq, length, int, pos, ok, ◌>>=◌,
}
use pinout.Prelude.Bytes.{low_byte, word_at}
use pinout.Modbus.{
  bits, bytes_for, pack_bits, read_bits, encode_read_request, assert_quantity, max_quantity,
  decode_pdu, decode_body, short_pdu,
}
use pinout.Modbus.Bits.{padded, read_bits-pack_bits}
use pinout.Modbus.Framing.{word_bytes}
use pinout.Modbus.Simulator.{SimulatedModbusServer, get_coil, bits_response, range, handle_pdu}
use pinout.Modbus.Words.{length-range}
use pinout.Modbus.Roundtrip.{exchange}

-- The response that holds bits, decoded: the values, and the rest of the last byte.
decode-bits_response :
    (read : ℕ → Bool) (address quantity : ℕ)
    → quantity ≤ 2000
    → decode_pdu (bits_response 0x01 read address quantity) 0x01
      ≡ ok (bits (padded (range read address quantity) (bytes_for quantity * 8 - quantity)))
unfolding decode_pdu decode_body bits_response
decode-bits_response read address quantity h =
    let vs = range read address quantity in
    let rounds : low_byte (bytes_for quantity) * 8
        ≡ length vs + (bytes_for quantity * 8 - quantity) =
      omega (arith, length-range read address quantity) in
    ap (λ n. ok (bits (read_bits (pack_bits vs) 0 n))) rounds
    ∙ ap (λ l. ok (bits l)) (read_bits-pack_bits vs (bytes_for quantity * 8 - quantity))

handle-read_coils :
    (s : SimulatedModbusServer) (address quantity : ℕ)
    → address < 65_536
    → quantity < 65_536
    → handle_pdu s (short_pdu 0x01 address quantity)
      ≡ (s, bits_response 0x01 (get_coil s) address quantity)
unfolding handle_pdu word_at
handle-read_coils s address quantity h k = rw (word_bytes address h, word_bytes quantity k) refl

read_coils_request :
    (address quantity : ℕ)
    → 1 ≤ quantity
    → quantity ≤ 2000
    → encode_read_request 0x01 address (int (pos quantity)) ≡ ok (short_pdu 0x01 address quantity)
unfolding encode_read_request assert_quantity max_quantity
read_coils_request address quantity h k = ground arith

-- A client that asks for 1 to 2000 coils gets the values that the server holds, and behind them
-- `false` up to a whole number of bytes: more values than it asked for, unless it asked for a
-- multiple of eight.
pub read_coils :
    (s : SimulatedModbusServer) (address quantity : ℕ)
    → address < 65_536
    → 1 ≤ quantity
    → quantity ≤ 2000
    → exchange s (encode_read_request 0x01 address (int (pos quantity))) 0x01
      ≡ ok (bits (padded (range (get_coil s) address quantity) (bytes_for quantity * 8 - quantity)))
read_coils s address quantity a h k =
    ap (λ r. r >>= λ pdu. decode_pdu (handle_pdu s pdu).1 0x01)
      (read_coils_request address quantity h k)
    ∙ ap (λ r. decode_pdu r.1 0x01) (handle-read_coils s address quantity a (omega arith))
    ∙ decode-bits_response (get_coil s) address quantity k
