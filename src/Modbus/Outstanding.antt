-- ===== src/Modbus/Outstanding.antt =====
-- packages/protocols-modbus/src/rtuClient.ts: which request an answer goes to.
use pinout.Prelude.{
  ℕ, ◌<◌, ◌≡◌, ◌≢◌, refl, sym, ap, ◌∙◌, true, false, none, some, List, [], ◌∷◌, ◌++◌, arith, Result,
  ok, err, map, Bool-cases, Option-cases, inl, inr, int, pos,
}
use mathlib.Core.List.{append-nil, append_assoc}
use pinout.Prelude.Bytes.{IsBytes}
use pinout.Modbus.{decode_pdu}
use pinout.Modbus.Framing.{encode_rtu}
use pinout.Modbus.Rtu.{decode-encode_rtu}
use pinout.Modbus.Clients.{rtu_answer}
use pinout.Modbus.RtuClient.{
  Inflight, ModbusRtuClient, RtuError, RtuOutcome, answered, timed_out, transport_failed,
  connection_closed, new_client, request, write_failed, settle_inflight, expire, consume,
  fail_pending, close,
}

-- What happens on the line: a request with its promise, its write that fails, the timer, a chunk,
-- and the end.
pub data BusCall : Type 0 where
  requests : ℕ → List ℕ → ℕ → BusCall
  write_fails expires : BusCall
  consumes : List ℕ → BusCall
  fails closes : BusCall

abbrev pub Line : Type 0
Line = ModbusRtuClient × List (ℕ × RtuOutcome)

abbrev pub requested :
    ModbusRtuClient → Result RtuError (ModbusRtuClient × List ℕ) → ModbusRtuClient
requested c (ok (next, frame)) = next
requested c (err e) = c

abbrev pub bus_step : ModbusRtuClient → BusCall → Line
bus_step c (requests function_code pdu promise) =
    (requested c (request c function_code pdu promise), [])
bus_step c write_fails = (write_failed c, [])
bus_step c expires = expire c
bus_step c (consumes chunk) = consume c chunk
bus_step c fails = fail_pending c transport_failed
bus_step c closes = close c

abbrev pub bus_run : ModbusRtuClient → List BusCall → Line
bus_run c [] = (c, [])
bus_run c (call ∷ calls) =
    let (next, settled) = bus_step c call in
    let (last, more) = bus_run next calls in (last, settled ++ more)

abbrev accepted_by : ℕ → Result RtuError (ModbusRtuClient × List ℕ) → List ℕ
accepted_by promise (ok _) = promise ∷ []
accepted_by promise (err e) = []

-- The promises of the requests that are not refused.
abbrev pub accepted_promises : ModbusRtuClient → List BusCall → List ℕ
accepted_promises c [] = []
accepted_promises c (requests function_code pdu promise ∷ calls) =
    let result = request c function_code pdu promise in
    accepted_by promise result ++ accepted_promises (requested c result) calls
accepted_promises c (write_fails ∷ calls) = accepted_promises (write_failed c) calls
accepted_promises c (expires ∷ calls) = accepted_promises (expire c).0 calls
accepted_promises c (consumes chunk ∷ calls) = accepted_promises (consume c chunk).0 calls
accepted_promises c (fails ∷ calls) = accepted_promises (fail_pending c transport_failed).0 calls
accepted_promises c (closes ∷ calls) = accepted_promises (close c).0 calls

abbrev pub in_flight_promises : ModbusRtuClient → List ℕ
in_flight_promises c = elim c.inflight [ none ↦ [] | some waiter ↦ waiter.promise ∷ [] ]

abbrev pub promises : List (ℕ × RtuOutcome) → List ℕ
promises settled = map (λ s. s.0) settled

promises-append : (xs ys : List (ℕ × RtuOutcome)) → promises (xs ++ ys) ≡ promises xs ++ promises ys
promises-append [] ys = refl
promises-append (x ∷ xs) ys = ap (λ l. x.0 ∷ l) (promises-append xs ys)

-- Whatever settles the request in flight, its promise is settled and nothing is in flight.
settle_inflight-promises :
    (c : ModbusRtuClient) (outcome : Inflight → RtuOutcome)
    → let (next, settled) = settle_inflight c outcome in
      promises settled ++ in_flight_promises next ≡ in_flight_promises c
settle_inflight-promises c outcome = elim (Option-cases c.inflight) [
  | inl e ↦ rw (e) refl
  | inr (waiter, e) ↦ rw (e) refl
]

request-promises :
    (c : ModbusRtuClient) (function_code : ℕ) (pdu : List ℕ) (promise : ℕ)
    → let result = request c function_code pdu promise in
      in_flight_promises (requested c result) ≡ in_flight_promises c ++ accepted_by promise result
unfolding request
request-promises c function_code pdu promise = elim (Bool-cases c.closed) [
  | inl t ↦ rw (t) (sym (append-nil (in_flight_promises c)))
  | inr f ↦ elim (Option-cases c.inflight) [
    | inl e ↦ rw (f, e) refl
    | inr (waiter, e) ↦ rw (f, e) refl
  ]
]

-- A step that settles the request in flight, and what follows it.
settled_then :
    (c : ModbusRtuClient) (outcome : Inflight → RtuOutcome) (more : Line) (accepted : List ℕ)
    → let (next, settled) = settle_inflight c outcome in
      promises more.1 ++ in_flight_promises more.0 ≡ in_flight_promises next ++ accepted
      → promises (settled ++ more.1) ++ in_flight_promises more.0 ≡ in_flight_promises c ++ accepted
settled_then c outcome more accepted h =
    let (next, settled) = settle_inflight c outcome in
    ap (λ l. l ++ in_flight_promises more.0) (promises-append settled more.1)
    ∙ append_assoc (promises settled) (promises more.1) (in_flight_promises more.0)
    ∙ ap (λ l. promises settled ++ l) h
    ∙ sym (append_assoc (promises settled) (in_flight_promises next) accepted)
    ∙ ap (λ l. l ++ accepted) (settle_inflight-promises c outcome)

bus_run-lem :
    (c : ModbusRtuClient) (calls : List BusCall)
    → let (last, settled) = bus_run c calls in
      promises settled ++ in_flight_promises last
      ≡ in_flight_promises c ++ accepted_promises c calls
unfolding expire consume fail_pending close write_failed
bus_run-lem c [] = sym (append-nil (in_flight_promises c))
bus_run-lem c (requests function_code pdu promise ∷ calls) =
    let result = request c function_code pdu promise in
    bus_run-lem (requested c result) calls
    ∙ ap (λ l. l ++ accepted_promises (requested c result) calls)
        (request-promises c function_code pdu promise)
    ∙ append_assoc (in_flight_promises c) (accepted_by promise result)
        (accepted_promises (requested c result) calls)
bus_run-lem c (write_fails ∷ calls) = bus_run-lem c calls
bus_run-lem c (expires ∷ calls) =
    let next = (expire c).0 in
    settled_then c (λ w. timed_out) (bus_run next calls) (accepted_promises next calls)
      (bus_run-lem next calls)
bus_run-lem c (consumes chunk ∷ calls) =
    let next = (consume c chunk).0 in
    settled_then c (λ w. answered (rtu_answer chunk w.request_function_code c.slave_address))
      (bus_run next calls) (accepted_promises next calls) (bus_run-lem next calls)
bus_run-lem c (fails ∷ calls) =
    let next = (fail_pending c transport_failed).0 in
    settled_then c (λ w. transport_failed) (bus_run next calls) (accepted_promises next calls)
      (bus_run-lem next calls)
bus_run-lem c (closes ∷ calls) =
    let next = (close c).0 in
    settled_then (record c { closed = true }) (λ w. connection_closed) (bus_run next calls)
      (accepted_promises next calls) (bus_run-lem next calls)

-- However requests, writes that fail, chunks, timeouts and the end of the connection interleave on a
-- new client for a serial line: the promises that were settled, in order, followed by the one in
-- flight, are those of the requests that were not refused, in order. So each is settled at most
-- once, and at most one waits.
pub bus_run-new_client :
    (address : ℕ) (client : ModbusRtuClient) (calls : List BusCall)
    → new_client (int (pos address)) ≡ ok client
    → let (last, settled) = bus_run client calls in
      promises settled ++ in_flight_promises last ≡ accepted_promises client calls
unfolding new_client
bus_run-new_client address client calls e =
    let idle : client.inflight ≡ none = ground (arith, e) in
    bus_run-lem client calls
    ∙ ap (λ w. elim w [ none ↦ [] | some x ↦ x.promise ∷ [] ] ++ accepted_promises client calls)
        idle

module _ (c : ModbusRtuClient) (function_code : ℕ) (first second : List ℕ) (p q : ℕ) where
  -- A response that comes after its request has timed out is taken for the response to the request
  -- that was sent in the meantime, if both ask for the same function: what the second one asked of
  -- the device is answered with what the first one asked.
  pub late_response_answers_next :
      (answer : List ℕ)
      → c.slave_address < 256
      → c.closed ≡ false
      → c.inflight ≡ none
      → IsBytes answer
      → answer ≢ []
      → let calls =
          requests function_code first p
          ∷ expires
          ∷ requests function_code second q
          ∷ consumes (encode_rtu c.slave_address answer)
          ∷ [] in
        (bus_run c calls).1 ≡ (p, timed_out) ∷ (q, answered (decode_pdu answer function_code)) ∷ []
  unfolding request expire consume rtu_answer
  late_response_answers_next answer s k n b m =
      rw (k, n, decode-encode_rtu c.slave_address function_code answer s b m) refl
