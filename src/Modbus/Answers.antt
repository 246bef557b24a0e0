-- ===== src/Modbus/Answers.antt =====
-- tcpClient.ts, rtuClient.ts and wire.ts: what a client makes of the responses.
use pinout.Prelude.{
  ℕ, zero, suc, ◌+◌, ◌*◌, ◌/◌, ◌%◌, ◌^◌, ◌≤◌, ◌<◌, ◌≡◌, ◌≢◌, refl, ap, ◌∙◌, true, false, none, some,
  List, [], ◌∷◌, ◌++◌, arith, nat_beq, nat_eq, length, ok, err,
}
use pinout.Prelude.Map.{
  Map, get, set, delete, get-set_self, get-set_ne, get-delete_self, get-delete_ne,
}
use pinout.Prelude.Bytes.{replicate, byte_at, word_at}
use pinout.Modbus.{exception, exception_error_of, decode_pdu, decode_body, read_words, pack_words}
use pinout.Modbus.Framing.{MbapFrame, encode_mbap, encode_rtu}
use pinout.Modbus.Rtu.{decode-encode_rtu}
use pinout.Modbus.Words.{AreWords, length-pack_words, read_words-pack_words}
use pinout.Modbus.Stream.{receive-encode, encode, IsFrame}
use pinout.Modbus.Receive.{receive}
use pinout.Modbus.Clients.{
  tcp_answer, rtu_answer, registers_of, written, ModbusTcpClient, resolved, request, deliver,
  on_data,
}

decode-exception :
    (function_code n : ℕ)
    → decode_pdu ((function_code + 0x80) ∷ n ∷ []) function_code ≡ ok (exception function_code n)
unfolding decode_pdu
decode-exception function_code n = ground arith

-- The response by which a device refuses a request is an error to the client over TCP, and none
-- to the client on a serial line: a write that was refused counts as done, and a read gives no
-- values.
pub rtu_exception_is_lost :
    (slave_address function_code n : ℕ)
    → slave_address < 256
    → function_code < 128
    → n < 256
    → let pdu = (function_code + 0x80) ∷ n ∷ [] in
      let answer = rtu_answer (encode_rtu slave_address pdu) function_code slave_address in
      (written (tcp_answer pdu function_code) ≡ err (exception_error_of function_code n))
      × (written answer ≡ ok tt)
      × (registers_of answer ≡ ok [])
unfolding written tcp_answer rtu_answer registers_of
rtu_exception_is_lost slave_address function_code n s f h =
    let pdu = (function_code + 0x80) ∷ n ∷ [] in
    let e = decode-exception function_code n in
    let r =
      decode-encode_rtu slave_address function_code pdu s (omega arith) (λ q. ground arith) ∙ e in
    rw (e, r) (refl, refl, refl)

byte_at-beyond : (xs : List ℕ) (i : ℕ) → length xs ≤ i → byte_at xs i ≡ 0
byte_at-beyond [] i h = refl
byte_at-beyond (x ∷ xs) zero h = absurd (omega arith)
byte_at-beyond (x ∷ xs) (suc i) h = byte_at-beyond xs i (omega arith)

read_words-beyond :
    (xs : List ℕ) (i rounds : ℕ) → length xs ≤ i → read_words xs i rounds ≡ replicate rounds 0
unfolding read_words word_at
read_words-beyond xs i zero h = refl
read_words-beyond xs i (suc rounds) h =
    rw (byte_at-beyond xs i h, byte_at-beyond xs (i + 1) (omega arith))
      (ap (λ l. 0 ∷ l) (read_words-beyond xs (i + 2) rounds (omega arith)))

read_words-add :
    (xs : List ℕ) (i a b : ℕ)
    → read_words xs i (a + b) ≡ read_words xs i a ++ read_words xs (i + a * 2) b
unfolding read_words
read_words-add xs i zero b =
    let e : 0 + b ≡ b = omega arith in
    let here : i ≡ i + 0 * 2 = omega arith in
    ap (read_words xs i) e ∙ ap (λ k. read_words xs k b) here
read_words-add xs i (suc a) b =
    let e : suc a + b ≡ suc (a + b) = omega arith in
    let there : i + 2 + a * 2 ≡ i + suc a * 2 = omega arith in
    ap (read_words xs i) e
    ∙ ap (λ l. word_at xs i ∷ l)
        (read_words-add xs (i + 2) a b
          ∙ ap (λ k. read_words xs (i + 2) a ++ read_words xs k b) there)

-- A response whose values break off before its count of bytes does is not refused: the registers
-- that are missing read 0.
pub missing_registers_read_zero :
    (vs : List ℕ) (missing : ℕ)
    → AreWords vs
    → length vs + missing ≤ 127
    → registers_of (tcp_answer (0x03 ∷ (length vs + missing) * 2 ∷ pack_words vs) 0x03)
      ≡ ok (vs ++ replicate missing 0)
unfolding registers_of tcp_answer decode_pdu decode_body
missing_registers_read_zero vs missing w h =
    let n = length vs + missing in
    let even : nat_beq (n * 2 % 2) 0 ≡ true = ground arith in
    let rounds : n * 2 / 2 ≡ n = omega arith in
    let body =
      read_words-add (pack_words vs) 0 (length vs) missing
      ∙ ap (λ l. l ++ read_words (pack_words vs) (0 + length vs * 2) missing)
          (read_words-pack_words [] vs w)
      ∙ ap (λ l. vs ++ l)
          (read_words-beyond (pack_words vs) (0 + length vs * 2) missing
            (omega (arith, length-pack_words vs))) in
    rw (even, rounds, body) refl

module _ (promise : ℕ) (pending : Map ℕ ℕ) (frame : MbapFrame) where
  deliver-one :
      get frame.transaction_id pending ≡ some promise
      → deliver pending (frame ∷ [])
        ≡ (delete frame.transaction_id pending, resolved promise frame.pdu ∷ [])
  unfolding deliver
  deliver-one g = rw (g, deliver) refl

  deliver-late :
      get frame.transaction_id pending ≡ none → deliver pending (frame ∷ []) ≡ (pending, [])
  unfolding deliver
  deliver-late g = rw (g, deliver) refl

on_data-frame :
    (c : ModbusTcpClient) (f : MbapFrame)
    → IsFrame f
    → c.buffer ≡ []
    → on_data c (encode f) ≡ (
      record c { buffer = []; pending = (deliver c.pending (f ∷ [])).0 },
      (deliver c.pending (f ∷ [])).1,
    )
unfolding on_data
on_data-frame c f v b =
    let q = ap (λ x. receive x (encode f)) b ∙ receive-encode f v in
    ap
      (λ d.
        (record c { buffer = d.1; pending = (deliver c.pending d.0).0 }, (deliver c.pending d.0).1))
      q

-- What `request` does on a client that is connected.
request-connected :
    (c : ModbusTcpClient) (pdu : List ℕ) (promise : ℕ)
    → c.connected ≡ true
    → c.closed ≡ false
    → (request c pdu promise).0 ≡ record c {
      next_transaction_id = (c.next_transaction_id + 1) % 2 ^ 16;
      pending = set c.next_transaction_id promise c.pending;
    }
unfolding request
request-connected c pdu promise h k = ground arith

-- The response to a request settles the promise of that request, with the PDU that it carries, and
-- no other one; the requests under other ids go on waiting. When the response comes once more, it
-- is dropped.
pub response_settles_once :
    (c : ModbusTcpClient) (pdu answer : List ℕ) (promise unit_id other : ℕ)
    → c.connected ≡ true
    → c.closed ≡ false
    → c.buffer ≡ []
    → c.next_transaction_id < 65_536
    → unit_id < 256
    → length answer < 65_535
    → c.next_transaction_id ≢ other
    → let response = encode_mbap c.next_transaction_id unit_id answer in
      let (waiting, _) = request c pdu promise in
      let (answered, settled) = on_data waiting response in
      let (after, late) = on_data answered response in
      (settled ≡ resolved promise answer ∷ [])
      × (late ≡ [])
      × (get other after.pending ≡ get other c.pending)
response_settles_once c pdu answer promise unit_id other h k b i u l n =
    let id = c.next_transaction_id in
    let f : MbapFrame = record {
      transaction_id = id;
      protocol_id = 0;
      unit_id = unit_id;
      pdu = answer;
    } in
    let v : IsFrame f = (i, refl, u, l) in
    let set_pending = set id promise c.pending in
    let waiting : ModbusTcpClient = record c {
      next_transaction_id = (id + 1) % 2 ^ 16;
      pending = set_pending;
    } in
    let answered : ModbusTcpClient = record waiting {
      buffer = [];
      pending = delete id set_pending;
    } in
    let one =
      on_data-frame waiting f v b
      ∙ ap (λ d. (record waiting { buffer = []; pending = d.0 }, d.1))
          (deliver-one promise set_pending f (get-set_self id promise c.pending)) in
    let two =
      on_data-frame answered f v refl
      ∙ ap (λ d. (record answered { buffer = []; pending = d.0 }, d.1))
          (deliver-late promise (delete id set_pending) f (get-delete_self id set_pending)) in
    rw (request-connected c pdu promise h k, one, two)
      (refl, refl, get-delete_ne id other set_pending n ∙ get-set_ne id other promise c.pending n)
