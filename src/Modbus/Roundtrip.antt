-- ===== src/Modbus/Roundtrip.antt =====
-- wire.ts and simulator.ts: requests for registers, what the server does with them, and what the
-- client reads in the responses.
use pinout.Prelude.{ℕ, ◌<◌, List, nat_eq, Result, ◌>>=◌}
use pinout.Modbus.{ModbusError, PduDecodeResult, decode_pdu}
use pinout.Modbus.Simulator.{SimulatedModbusServer, get_holding_register, handle_pdu}

-- What the server keeps are words.
abbrev pub HoldsWords : SimulatedModbusServer → Type 0
HoldsWords s = (x : ℕ) → get_holding_register s x < 65_536

-- A response, decoded as the client does; a request that is refused is not sent.
abbrev pub exchange :
    SimulatedModbusServer → Result ModbusError (List ℕ) → ℕ → Result ModbusError PduDecodeResult
exchange s request function_code = request >>= λ pdu. decode_pdu (handle_pdu s pdu).1 function_code
