-- ===== src/Modbus/RtuClient.antt =====
-- packages/protocols-modbus/src/rtuClient.ts: the state of the client on a serial line, which has
-- at most one request in flight. The transport and the timers are outside: a timer that fires is a
-- call of `expire`, as it is cleared when its request is settled, a chunk that the transport brings
-- is a call of `consume`, and a `write` that rejects one of `write_failed`. A promise, the
-- `responsePromise`, is known by a number.
use pinout.Prelude.{
  ℕ, Bool, true, false, ◌&&◌, Option, none, some, List, [], ◌∷◌, if◌then◌else◌, ltb, Num, int, pos,
  Result, ok, err,
}
use pinout.Modbus.{ModbusError, PduDecodeResult}
use pinout.Modbus.Framing.{encode_rtu}
use pinout.Modbus.Clients.{rtu_answer}

pub record Inflight : Type 0 where
  pub request_function_code : ℕ
  pub promise : ℕ

pub record ModbusRtuClient : Type 0 where
  pub slave_address : ℕ
  pub inflight : Option Inflight
  pub closed : Bool

pub data RtuError : Type 0 where
  invalid_slave not_connected in_flight : RtuError

-- The constructor.
unfoldable pub new_client : Num → Result RtuError ModbusRtuClient
new_client (int (pos address)) =
    if ltb 0 address && ltb address 248
    then ok (record { slave_address = address; inflight = none; closed = false })
    else err invalid_slave
new_client _ = err invalid_slave

abbrev pub start_request :
    ModbusRtuClient → Option Inflight → ℕ → List ℕ → ℕ → Result RtuError (ModbusRtuClient × List ℕ)
start_request c (some _) function_code pdu promise = err in_flight
start_request c none function_code pdu promise = ok (
  record c {
    inflight = some (record { request_function_code = function_code; promise = promise });
  },
  encode_rtu c.slave_address pdu,
)

-- `request` up to its `await`: what it throws, or the frame that it writes.
unfoldable pub request :
    ModbusRtuClient → ℕ → List ℕ → ℕ → Result RtuError (ModbusRtuClient × List ℕ)
request c function_code pdu promise =
    if c.closed then err not_connected else start_request c c.inflight function_code pdu promise

-- `await this.transport.write(frame)` throws, and so does `request`: what it had put in flight stays
-- there.
unfoldable pub write_failed : ModbusRtuClient → ModbusRtuClient
write_failed c = c

-- What settles the promise of a request: a response, which `request` decodes, or a failure.
pub data RtuOutcome : Type 0 where
  answered : Result ModbusError PduDecodeResult → RtuOutcome
  timed_out connection_closed transport_failed : RtuOutcome

-- Whoever waits in flight, with what it is settled with.
abbrev pub settle_inflight :
    ModbusRtuClient → (Inflight → RtuOutcome) → ModbusRtuClient × List (ℕ × RtuOutcome)
settle_inflight c outcome = elim c.inflight [
  | none ↦ (c, [])
  | some waiter ↦ (record c { inflight = none }, (waiter.promise, outcome waiter) ∷ [])
]

unfoldable pub expire : ModbusRtuClient → ModbusRtuClient × List (ℕ × RtuOutcome)
expire c = settle_inflight c (λ waiter. timed_out)

-- A chunk is taken for the response to the request in flight; without one it is dropped.
unfoldable pub consume : ModbusRtuClient → List ℕ → ModbusRtuClient × List (ℕ × RtuOutcome)
consume c chunk =
    settle_inflight c
      (λ waiter. answered (rtu_answer chunk waiter.request_function_code c.slave_address))

unfoldable pub fail_pending : ModbusRtuClient → RtuOutcome → ModbusRtuClient × List (ℕ × RtuOutcome)
fail_pending c error = settle_inflight c (λ waiter. error)

unfoldable pub close : ModbusRtuClient → ModbusRtuClient × List (ℕ × RtuOutcome)
close c = fail_pending (record c { closed = true }) connection_closed
