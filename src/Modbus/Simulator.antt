-- ===== src/Modbus/Simulator.antt =====
-- packages/protocols-modbus/src/simulator.ts: the simulated server, without its sockets.
use pinout.Prelude.{
  ℕ, zero, suc, ◌+◌, ◌*◌, ◌%◌, ◌^◌, Bool, false, List, [], ◌∷◌, if◌then◌else◌, nat_beq, nat_eq,
  or_default,
}
use pinout.Prelude.Map.{Map, get, set}
use pinout.Prelude.Bytes.{take, drop, low_byte, byte_at, word_at}
use pinout.Modbus.{bytes_for, pack_bits, pack_words, bit_at}
use pinout.Modbus.Framing.{MbapFrame, encode_mbap}

pub record SimulatedModbusServer : Type 0 where
  pub coils : Map ℕ Bool
  pub discrete_inputs : Map ℕ Bool
  pub holding_registers : Map ℕ ℕ
  pub input_registers : Map ℕ ℕ

unfoldable pub get_coil : SimulatedModbusServer → ℕ → Bool
get_coil s address = or_default (get address s.coils) false

unfoldable pub set_coil : SimulatedModbusServer → ℕ → Bool → SimulatedModbusServer
set_coil s address value = record s { coils = set address value s.coils }

unfoldable pub get_discrete_input : SimulatedModbusServer → ℕ → Bool
get_discrete_input s address = or_default (get address s.discrete_inputs) false

unfoldable pub set_discrete_input : SimulatedModbusServer → ℕ → Bool → SimulatedModbusServer
set_discrete_input s address value = record s {
  discrete_inputs = set address value s.discrete_inputs;
}

unfoldable pub get_holding_register : SimulatedModbusServer → ℕ → ℕ
get_holding_register s address = or_default (get address s.holding_registers) 0

-- `value & 0xffff`
unfoldable pub set_holding_register : SimulatedModbusServer → ℕ → ℕ → SimulatedModbusServer
set_holding_register s address value = record s {
  holding_registers = set address (value % 2 ^ 16) s.holding_registers;
}

unfoldable pub get_input_register : SimulatedModbusServer → ℕ → ℕ
get_input_register s address = or_default (get address s.input_registers) 0

unfoldable pub set_input_register : SimulatedModbusServer → ℕ → ℕ → SimulatedModbusServer
set_input_register s address value = record s {
  input_registers = set address (value % 2 ^ 16) s.input_registers;
}

-- What a loop over a number of addresses reads.
unfoldable pub range {ℓ} : {A : Type ℓ} → (ℕ → A) → ℕ → ℕ → List A
range read address zero = []
range read address (suc quantity) = read address ∷ range read (address + 1) quantity

unfoldable pub bits_response : ℕ → (ℕ → Bool) → ℕ → ℕ → List ℕ
bits_response function_code read address quantity =
    function_code ∷ low_byte (bytes_for quantity) ∷ pack_bits (range read address quantity)

unfoldable pub words_response : ℕ → (ℕ → ℕ) → ℕ → ℕ → List ℕ
words_response function_code read address quantity =
    function_code ∷ low_byte (quantity * 2) ∷ pack_words (range read address quantity)

-- The loops that write, from an index on.
unfoldable pub write_coils : SimulatedModbusServer → ℕ → List ℕ → ℕ → ℕ → SimulatedModbusServer
write_coils s address bytes i zero = s
write_coils s address bytes i (suc rounds) =
    write_coils (set_coil s (address + i) (bit_at bytes i)) address bytes (i + 1) rounds

unfoldable pub write_words : SimulatedModbusServer → ℕ → List ℕ → ℕ → ℕ → SimulatedModbusServer
write_words s address bytes i zero = s
write_words s address bytes i (suc rounds) =
    write_words (set_holding_register s (address + i) (word_at bytes (i * 2))) address bytes (i + 1)
      rounds

-- `pdu.subarray(6, 6 + byteCount)`, empty if there is no count.
abbrev pub data_bytes : List ℕ → List ℕ
data_bytes pdu = take (byte_at pdu 5) (drop 6 pdu)

abbrev pub handle_function :
    SimulatedModbusServer → ℕ → List ℕ → ℕ → ℕ → SimulatedModbusServer × List ℕ
handle_function s function_code pdu address quantity =
    if nat_beq function_code 0x01
    then (s, bits_response 0x01 (get_coil s) address quantity)
    else if nat_beq function_code 0x02
    then (s, bits_response 0x02 (get_discrete_input s) address quantity)
    else if nat_beq function_code 0x03
    then (s, words_response 0x03 (get_holding_register s) address quantity)
    else if nat_beq function_code 0x04
    then (s, words_response 0x04 (get_input_register s) address quantity)
    else if nat_beq function_code 0x05
    then (set_coil s address (nat_beq quantity 0xff00), pdu)
    else if nat_beq function_code 0x06
    then (set_holding_register s address quantity, pdu)
    else if nat_beq function_code 0x0f
    then (write_coils s address (data_bytes pdu) 0 quantity, take 6 pdu)
    else if nat_beq function_code 0x10
    then (write_words s address (data_bytes pdu) 0 quantity, take 6 pdu)
    else (s, low_byte (0x80 + function_code) ∷ 0x01 ∷ [])

-- The word behind the address is a quantity, or the value of a single write. An empty PDU has no
-- function, and is answered as an illegal one.
unfoldable pub handle_pdu : SimulatedModbusServer → List ℕ → SimulatedModbusServer × List ℕ
handle_pdu s [] = (s, 0 ∷ 0x01 ∷ [])
handle_pdu s (function_code ∷ rest) =
    let pdu = function_code ∷ rest in
    handle_function s function_code pdu (word_at pdu 1) (word_at pdu 3)

-- What the server does with a frame, and what it writes to the socket.
unfoldable pub serve_frame : SimulatedModbusServer → MbapFrame → SimulatedModbusServer × List ℕ
serve_frame s frame =
    let (s', response) = handle_pdu s frame.pdu in
    (s', encode_mbap frame.transaction_id frame.unit_id response)
