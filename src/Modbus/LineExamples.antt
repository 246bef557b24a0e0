-- ===== src/Modbus/LineExamples.antt =====
-- rtuClient.ts: requests and responses on a serial line.
use pinout.Prelude.{◌++◌, ◌≡◌, refl, false, none, List, [], ◌∷◌, arith, int, pos, err}
use pinout.Modbus.{decode_pdu}
use pinout.Modbus.Framing.{encode_rtu}
use pinout.Modbus.RtuClient.{
  ModbusRtuClient, invalid_slave, answered, timed_out, transport_failed, connection_closed,
  new_client, request, write_failed, expire, consume, fail_pending, close,
}
use pinout.Modbus.Outstanding.{
  BusCall, requests, write_fails, expires, consumes, fails, closes, bus_run, accepted_promises,
  in_flight_promises, promises, bus_run-new_client, late_response_answers_next,
}

abbrev client : ModbusRtuClient
client = record { slave_address = 17; inflight = none; closed = false }

-- A request while another one is in flight is refused, and so is one on a client that was closed.
abbrev calls : List BusCall
calls =
    requests 3 (3 ∷ 0 ∷ 1 ∷ 0 ∷ 1 ∷ []) 10
    ∷ requests 3 (3 ∷ 0 ∷ 2 ∷ 0 ∷ 1 ∷ []) 11
    ∷ expires
    ∷ consumes (1 ∷ [])
    ∷ requests 6 (6 ∷ 0 ∷ 2 ∷ 0 ∷ 1 ∷ []) 12
    ∷ fails
    ∷ requests 6 (6 ∷ 0 ∷ 2 ∷ 0 ∷ 1 ∷ []) 13
    ∷ closes
    ∷ requests 6 (6 ∷ 0 ∷ 2 ∷ 0 ∷ 1 ∷ []) 14
    ∷ []

settles_in_order :
    (bus_run client calls).1
    ≡ (10, timed_out) ∷ (12, transport_failed) ∷ (13, connection_closed) ∷ []
unfolding request expire consume fail_pending close
settles_in_order = refl

refuses_slave :
    (new_client (int (pos 0)) ≡ err invalid_slave)
    × (new_client (int (pos 248)) ≡ err invalid_slave)
unfolding new_client
refuses_slave = (refl, refl)

bus_run-new_client_example :
    let (last, settled) = bus_run client calls in
    promises settled ++ in_flight_promises last ≡ accepted_promises client calls
unfolding new_client
bus_run-new_client_example = bus_run-new_client 17 client calls refl

late_response_answers_next_example :
    (bus_run client (
      requests 3 (3 ∷ 0 ∷ 1 ∷ 0 ∷ 1 ∷ []) 10
      ∷ expires
      ∷ requests 3 (3 ∷ 0 ∷ 2 ∷ 0 ∷ 1 ∷ []) 11
      ∷ consumes (encode_rtu client.slave_address (3 ∷ 2 ∷ 0 ∷ 99 ∷ []))
      ∷ [])).1
    ≡ (10, timed_out) ∷ (11, answered (decode_pdu (3 ∷ 2 ∷ 0 ∷ 99 ∷ []) 3)) ∷ []
late_response_answers_next_example =
    late_response_answers_next client 3 (3 ∷ 0 ∷ 1 ∷ 0 ∷ 1 ∷ []) (3 ∷ 0 ∷ 2 ∷ 0 ∷ 1 ∷ []) 10 11
      (3 ∷ 2 ∷ 0 ∷ 99 ∷ []) (omega arith) refl refl
      (omega arith, (omega arith, (omega arith, (omega arith, tt)))) (λ e. ground (arith, e))

-- A request whose write fails stays in flight and blocks the next one.
write_failure_blocks :
    (bus_run client (
      requests 3 (3 ∷ 0 ∷ 1 ∷ 0 ∷ 1 ∷ []) 10
      ∷ write_fails
      ∷ requests 3 (3 ∷ 0 ∷ 2 ∷ 0 ∷ 1 ∷ []) 11
      ∷ expires
      ∷ [])).1
    ≡ (10, timed_out) ∷ []
unfolding request write_failed expire
write_failure_blocks = refl
