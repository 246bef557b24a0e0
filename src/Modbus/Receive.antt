-- ===== src/Modbus/Receive.antt =====
-- packages/protocols-modbus/src/tcpClient.ts: the loop that takes the frames out of what the
-- connection brings, in `onData`. Its fuel is the number of bytes, of which each round takes some.
use pinout.Prelude.{ℕ, zero, suc, none, some, List, [], ◌∷◌, ◌++◌, length, ok, err}
use pinout.Prelude.Bytes.{drop}
use pinout.Modbus.Framing.{MbapFrame, try_decode_mbap}

abbrev pub Drained : Type 0
Drained = List MbapFrame × List ℕ

abbrev pub first : MbapFrame → Drained → Drained
first frame (frames, rest) = (frame ∷ frames, rest)

unfoldable pub drain : ℕ → List ℕ → Drained
drain zero buffer = ([], buffer)
drain (suc fuel) buffer = elim (try_decode_mbap buffer) [
  | ok (some (frame, consumed)) ↦ first frame (drain fuel (drop consumed buffer))
  | ok none ↦ ([], buffer)
  | err e ↦ ([], buffer)
]

-- The frames that a chunk completes, and what is left in the buffer.
unfoldable pub receive : List ℕ → List ℕ → Drained
receive buffer chunk = let bytes = buffer ++ chunk in drain (length bytes) bytes

abbrev pub before_all : List MbapFrame → Drained → Drained
before_all frames (more, rest) = (frames ++ more, rest)

unfoldable pub receive_all : List ℕ → List (List ℕ) → Drained
receive_all buffer [] = ([], buffer)
receive_all buffer (chunk ∷ chunks) =
    let (frames, rest) = receive buffer chunk in before_all frames (receive_all rest chunks)
