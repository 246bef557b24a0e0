-- ===== src/Modbus.antt =====
-- packages/protocols-modbus/src/wire.ts: the codec of Modbus: requests, responses and their frames
-- over TCP (MBAP) and over a serial line (RTU). A `Uint8Array` is a list of bytes. Addresses,
-- values and ids are whole numbers that are not negative, and of an error its cause is kept.
pub mod Crc
pub mod Framing
pub mod Bits
pub mod Stream
pub mod Rtu
pub mod Simulator
pub mod Words
pub mod Writes
pub mod Roundtrip
pub mod Coils
pub mod Clients
pub mod Answers
pub mod RtuClient
pub mod Outstanding
mod Examples
pub mod Receive
mod LineExamples
use Prim.Native.Nat.{bit_and, bit_or, bit_xor}
use pinout.Prelude.{
  ℕ, zero, suc, ◌+◌, ◌-◌, ◌*◌, ◌/◌, ◌%◌, ◌^◌, Bool, true, false, not, ◌&&◌, ◌||◌, Option, none,
  some, List, [], ◌∷◌, ◌++◌, map, String, if◌then◌else◌, ltb, leb, nat_beq, length, or_default, Num,
  not_finite, int, pos, negsuc, Result, ok, err, ◌>>◌, guard,
}
use pinout.Prelude.Bytes.{
  get_elem?, put, take, drop, replicate, high_byte, low_byte, byte_at, word_at,
}

pub data ModbusError : Type 0 where
  empty_pdu truncated_exception odd_byte_count short_mbap short_rtu : ModbusError
  -- The function of the response, and of the request.
  function_mismatch : ℕ → ℕ → ModbusError
  unsupported_function : ℕ → ModbusError
  invalid_quantity : ℕ → ModbusError
  -- The length field of the frame.
  exceeds_available : ℕ → ModbusError
  -- The address of the response, and the one that was expected.
  wrong_slave : ℕ → ℕ → ModbusError
  -- The sum that was received, and the one that was computed.
  crc_mismatch : ℕ → ℕ → ModbusError
  -- The code and the function of an exception response.
  exception_error : String → ℕ → ℕ → ModbusError

unfoldable pub code : ModbusError → String
code (invalid_quantity _) = "MODBUS_INVALID_QUANTITY"
code (crc_mismatch _ _) = "MODBUS_CRC_ERROR"
code (exception_error c _ _) = c
code _ = "MODBUS_PROTOCOL_ERROR"

-- `EXCEPTION_NAMES`, behind the prefix of the code.
unfoldable pub exception_code : ℕ → String
exception_code n =
    if nat_beq n 0x01
    then "MODBUS_EXCEPTION_ILLEGAL_FUNCTION"
    else if nat_beq n 0x02
    then "MODBUS_EXCEPTION_ILLEGAL_DATA_ADDRESS"
    else if nat_beq n 0x03
    then "MODBUS_EXCEPTION_ILLEGAL_DATA_VALUE"
    else if nat_beq n 0x04
    then "MODBUS_EXCEPTION_SERVER_DEVICE_FAILURE"
    else if nat_beq n 0x05
    then "MODBUS_EXCEPTION_ACKNOWLEDGE"
    else if nat_beq n 0x06
    then "MODBUS_EXCEPTION_SERVER_DEVICE_BUSY"
    else if nat_beq n 0x08
    then "MODBUS_EXCEPTION_MEMORY_PARITY_ERROR"
    else if nat_beq n 0x0a
    then "MODBUS_EXCEPTION_GATEWAY_PATH_UNAVAILABLE"
    else if nat_beq n 0x0b
    then "MODBUS_EXCEPTION_GATEWAY_TARGET_FAILED"
    else "MODBUS_EXCEPTION_EXCEPTION"

unfoldable pub exception_error_of : ℕ → ℕ → ModbusError
exception_error_of function_code n = exception_error (exception_code n) function_code n

unfoldable pub max_quantity : ℕ → ℕ
max_quantity function_code =
    if nat_beq function_code 0x01 || nat_beq function_code 0x02 then 2000 else 125

abbrev pub assert_within : ℕ → Num → Result ModbusError ℕ
assert_within max (int (pos quantity)) =
    if ltb quantity 1 || ltb max quantity then err (invalid_quantity max) else ok quantity
assert_within max _ = err (invalid_quantity max)

-- The quantity, if it may be asked for.
unfoldable pub assert_quantity : ℕ → Num → Result ModbusError ℕ
unfolding max_quantity
assert_quantity function_code quantity = assert_within (max_quantity function_code) quantity

abbrev pub short_pdu : ℕ → ℕ → ℕ → List ℕ
short_pdu function_code a b =
    function_code ∷ high_byte a ∷ low_byte a ∷ high_byte b ∷ low_byte b ∷ []

abbrev pub read_pdu : ℕ → ℕ → Result ModbusError ℕ → Result ModbusError (List ℕ)
read_pdu function_code address (ok quantity) = ok (short_pdu function_code address quantity)
read_pdu function_code address (err e) = err e

unfoldable pub encode_read_request : ℕ → ℕ → Num → Result ModbusError (List ℕ)
encode_read_request function_code address quantity =
    read_pdu function_code address (assert_quantity function_code quantity)

unfoldable pub encode_write_single : ℕ → ℕ → ℕ → List ℕ
encode_write_single function_code address value = short_pdu function_code address value

-- `Math.ceil(n / 8)`
abbrev pub bytes_for : ℕ → ℕ
bytes_for n = (n + 7) / 8

-- The loop that sets the bits, from a position on: `bytes[i >> 3] |= 1 << (i % 8)`.
unfoldable pub set_bits : List ℕ → ℕ → List Bool → List ℕ
set_bits bytes i [] = bytes
set_bits bytes i (value ∷ values) =
    set_bits
      (if value
        then put bytes (i / 8) (low_byte (bit_or (byte_at bytes (i / 8)) (2 ^ (i % 8))))
        else bytes)
      (i + 1) values

unfoldable pub pack_bits : List Bool → List ℕ
pack_bits values = set_bits (replicate (bytes_for (length values)) 0) 0 values

-- The loop that stores each value in two bytes.
unfoldable pub pack_words : List ℕ → List ℕ
pack_words [] = []
pack_words (value ∷ values) = high_byte value ∷ low_byte value ∷ pack_words values

-- The head of a request that writes several values, with the count of the bytes behind it.
abbrev pub write_head : ℕ → ℕ → ℕ → ℕ → List ℕ
write_head function_code address quantity byte_count =
    short_pdu function_code address quantity ++ low_byte byte_count ∷ []

unfoldable pub encode_write_multiple_coils : ℕ → List Bool → List ℕ
encode_write_multiple_coils address values =
    write_head 0x0f address (length values) (bytes_for (length values)) ++ pack_bits values

unfoldable pub encode_write_multiple_registers : ℕ → List ℕ → List ℕ
encode_write_multiple_registers address values =
    write_head 0x10 address (length values) (length values * 2) ++ pack_words values

pub data PduDecodeResult : Type 0 where
  bits : List Bool → PduDecodeResult
  registers : List ℕ → PduDecodeResult
  -- The function, the address and the value.
  echo : ℕ → ℕ → ℕ → PduDecodeResult
  exception : ℕ → ℕ → PduDecodeResult

-- `Boolean(bytes[i >> 3] & (1 << (i % 8)))`
unfoldable pub bit_at : List ℕ → ℕ → Bool
bit_at bytes i = not (nat_beq (bit_and (byte_at bytes (i / 8)) (2 ^ (i % 8))) 0)

-- The loop over the bits from a position on, for a number of rounds.
unfoldable pub read_bits : List ℕ → ℕ → ℕ → List Bool
read_bits bytes i zero = []
read_bits bytes i (suc rounds) = bit_at bytes i ∷ read_bits bytes (i + 1) rounds

-- The loop over the words.
unfoldable pub read_words : List ℕ → ℕ → ℕ → List ℕ
read_words bytes i zero = []
read_words bytes i (suc rounds) = word_at bytes i ∷ read_words bytes (i + 2) rounds

-- A count that is not there is `undefined`: no number of bits, and not even.
abbrev pub decode_bits : List ℕ → Option ℕ → Result ModbusError PduDecodeResult
decode_bits pdu none = ok (bits [])
decode_bits pdu (some byte_count) = ok (bits (read_bits (drop 2 pdu) 0 (byte_count * 8)))

abbrev pub decode_registers : List ℕ → Option ℕ → Result ModbusError PduDecodeResult
decode_registers pdu none = err odd_byte_count
decode_registers pdu (some byte_count) =
    if nat_beq (byte_count % 2) 0
    then ok (registers (read_words (drop 2 pdu) 0 (byte_count / 2)))
    else err odd_byte_count

abbrev pub is_one_of : ℕ → ℕ → ℕ → Bool
is_one_of a b x = nat_beq x a || nat_beq x b

unfoldable pub decode_body : ℕ → List ℕ → Result ModbusError PduDecodeResult
decode_body function_code pdu =
    if is_one_of 0x01 0x02 function_code
    then decode_bits pdu (get_elem? pdu 1)
    else if is_one_of 0x03 0x04 function_code
    then decode_registers pdu (get_elem? pdu 1)
    else if is_one_of 0x05 0x06 function_code || is_one_of 0x0f 0x10 function_code
    then ok (echo function_code (word_at pdu 1) (word_at pdu 3))
    else err (unsupported_function function_code)

abbrev pub decode_exception : ℕ → List ℕ → Result ModbusError PduDecodeResult
decode_exception request [] = err truncated_exception
decode_exception request (n ∷ _) = ok (exception request n)

unfoldable pub decode_pdu : List ℕ → ℕ → Result ModbusError PduDecodeResult
decode_pdu [] request = err empty_pdu
decode_pdu (function_code ∷ rest) request =
    if nat_beq function_code (request + 0x80)
    then decode_exception request rest
    else if nat_beq function_code request
    then decode_body function_code (function_code ∷ rest)
    else err (function_mismatch function_code request)
