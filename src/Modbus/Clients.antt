-- ===== src/Modbus/Clients.antt =====
-- packages/protocols-modbus/src/tcpClient.ts and rtuClient.ts: how the clients judge a response, and
-- the state of the TCP client: requests wait under their transaction ids. A promise is known by a
-- number, and what settles it is in the answers. The socket and the timers are outside: a timer
-- that fires is a call of `expire`, and `settle_write` is what the socket does with a frame.
use pinout.Prelude.{
  ℕ, ◌+◌, ◌%◌, ◌^◌, Bool, true, false, not, ◌||◌, Option, none, some, List, [], ◌∷◌, if◌then◌else◌,
  nat_eq, ltb, Num, int, pos, Result, ok, err, map,
}
use pinout.Prelude.Map
use pinout.Prelude.Map.{Map, get, set, delete}
use pinout.Modbus.{
  ModbusError, PduDecodeResult, bits, registers, exception, exception_error_of, decode_pdu,
  encode_write_single,
}
use pinout.Modbus.Framing.{MbapFrame, encode_mbap, decode_rtu}
use pinout.Modbus.Receive.{receive}

-- The end of `request` of the TCP client.
abbrev pub raise_exception : Result ModbusError PduDecodeResult → Result ModbusError PduDecodeResult
raise_exception (ok (exception f n)) = err (exception_error_of f n)
raise_exception r = r

unfoldable pub tcp_answer : List ℕ → ℕ → Result ModbusError PduDecodeResult
tcp_answer response function_code = raise_exception (decode_pdu response function_code)

-- The end of `request` of the RTU client.
unfoldable pub rtu_answer : List ℕ → ℕ → ℕ → Result ModbusError PduDecodeResult
rtu_answer response function_code slave_address = decode_rtu response function_code slave_address

-- `decoded.kind === 'bits' ? decoded.values : []`, of `readBits`.
unfoldable pub bits_of : Result ModbusError PduDecodeResult → Result ModbusError (List Bool)
bits_of (ok (bits values)) = ok values
bits_of (ok _) = ok []
bits_of (err e) = err e

-- The same of `readRegisters`.
unfoldable pub registers_of : Result ModbusError PduDecodeResult → Result ModbusError (List ℕ)
registers_of (ok (registers values)) = ok values
registers_of (ok _) = ok []
registers_of (err e) = err e

-- A write waits for the request and drops what it gives.
unfoldable pub written : Result ModbusError PduDecodeResult → Result ModbusError (Unit {0})
written (ok _) = ok tt
written (err e) = err e

-- `value ? 0xff00 : 0x0000`
unfoldable pub write_single_coil_pdu : ℕ → Bool → List ℕ
write_single_coil_pdu address value =
    encode_write_single 0x05 address (if value then 0xff00 else 0x0000)

-- The PDU of `writeSingleRegister`, or none if the value is no integer of 16 bits.
unfoldable pub write_single_register_pdu : ℕ → Num → Option (List ℕ)
write_single_register_pdu address (int (pos value)) =
    if ltb 0xffff value then none else some (encode_write_single 0x06 address value)
write_single_register_pdu address _ = none

pub record ModbusTcpClient : Type 0 where
  pub unit_id : ℕ
  pub connected : Bool
  pub closed : Bool
  pub buffer : List ℕ
  pub next_transaction_id : ℕ
  pub pending : Map ℕ ℕ

pub data Settled : Type 0 where
  -- A promise with the PDU that it is resolved with.
  resolved : ℕ → List ℕ → Settled
  timed_out connection_closed : ℕ → Settled

unfoldable pub init : Option ℕ → ModbusTcpClient
init unit = record {
  unit_id = elim unit [ none ↦ 1 | some u ↦ u ];
  connected = false;
  closed = false;
  buffer = [];
  next_transaction_id = 0;
  pending = [];
}

unfoldable pub connect : ModbusTcpClient → ModbusTcpClient
connect c = record c { connected = true }

-- The first part of `request`: the frame that is written, or none if the client is not connected.
unfoldable pub request : ModbusTcpClient → List ℕ → ℕ → ModbusTcpClient × Option (List ℕ)
request c pdu promise = if c.closed || not c.connected then (c, none) else (
  record c {
    next_transaction_id = (c.next_transaction_id + 1) % 2 ^ 16;
    pending = set c.next_transaction_id promise c.pending;
  },
  some (encode_mbap c.next_transaction_id c.unit_id pdu),
)

-- The timer of a request.
unfoldable pub expire : ModbusTcpClient → ℕ → ℕ → ModbusTcpClient × List Settled
expire c transaction_id promise =
    (record c { pending = delete transaction_id c.pending }, timed_out promise ∷ [])

-- The loop of `onData` for the frames that are complete.
unfoldable pub deliver : Map ℕ ℕ → List MbapFrame → Map ℕ ℕ × List Settled
deliver pending [] = (pending, [])
deliver pending (frame ∷ frames) = elim (get frame.transaction_id pending) [
  | none ↦ deliver pending frames
  | some promise ↦
      let (rest, settled) = deliver (delete frame.transaction_id pending) frames in
      (rest, resolved promise frame.pdu ∷ settled)
]

unfoldable pub on_data : ModbusTcpClient → List ℕ → ModbusTcpClient × List Settled
on_data c chunk =
    let (frames, rest) = receive c.buffer chunk in
    let (pending, settled) = deliver c.pending frames in
    (record c { buffer = rest; pending = pending }, settled)

unfoldable pub fail_all : ModbusTcpClient → ModbusTcpClient × List Settled
fail_all c = (record c { pending = [] }, map connection_closed (Map.values c.pending))

unfoldable pub close : ModbusTcpClient → ModbusTcpClient × List Settled
close c = fail_all (record c { closed = true; connected = false })
