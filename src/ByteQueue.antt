-- ===== src/ByteQueue.antt =====
-- packages/core/src/transports/byteQueue.ts: the queue between a transport and its reader.
-- A promise of `next` that waits is known by a number; what resolves it is in the answers.
pub mod Fifo
mod Examples
use pinout.Prelude.{
  ℕ, Bool, true, false, Option, none, some, List, [], ◌∷◌, ◌++◌, String, if◌then◌else◌,
}

pub record ByteQueue {ℓ} (A : Type ℓ) : Type ℓ where
  pub chunks : List A
  pub waiters : List ℕ
  pub closed : Bool
  pub failure : Option String

-- What the reader's loop does when it looks at the queue.
pub data Pull {ℓ} (A : Type ℓ) : Type ℓ where
  yields : A → Pull A
  throws : String → Pull A
  ends waits : Pull A

module _ {ℓ} {A : Type ℓ} where
  abbrev pub empty : ByteQueue A
  empty = record { chunks = []; waiters = []; closed = false; failure = none }

  abbrev pub push_open : ByteQueue A → A → List ℕ → ByteQueue A × Option ℕ
  push_open q chunk [] = (record q { chunks = q.chunks ++ chunk ∷ [] }, none)
  push_open q chunk (waiter ∷ waiters) = (record q { waiters = waiters }, some waiter)

  -- `push`, and the promise that it resolves with the chunk, if one waits.
  unfoldable pub push : ByteQueue A → A → ByteQueue A × Option ℕ
  push q chunk = if q.closed then (q, none) else push_open q chunk q.waiters

  -- `close`, and the promises that it resolves with `null`.
  unfoldable pub close : ByteQueue A → ByteQueue A × List ℕ
  close q = if q.closed then (q, []) else (record q { closed = true; waiters = [] }, q.waiters)

  unfoldable pub fail : ByteQueue A → String → ByteQueue A × List ℕ
  fail q error =
      if q.closed
      then (q, [])
      else (record q { failure = some error; closed = true; waiters = [] }, q.waiters)

  abbrev pub pull_chunk : ByteQueue A → ℕ → List A → ByteQueue A × Pull A
  pull_chunk q promise (chunk ∷ chunks) = (record q { chunks = chunks }, yields chunk)
  pull_chunk q promise [] =
      if q.closed then (q, ends) else (record q { waiters = q.waiters ++ promise ∷ [] }, waits)

  -- The iterator's loop, up to its `yield` or its `await`.
  unfoldable pub pull : ByteQueue A → ℕ → ByteQueue A × Pull A
  pull q promise = elim q.failure [
    | some error ↦ (q, throws error)
    | none ↦ pull_chunk q promise q.chunks
  ]

  -- The loop behind its `await`, which ended with a chunk or with `null`.
  unfoldable pub resume : ByteQueue A → Option A → Pull A
  resume q next = elim q.failure [
    | some error ↦ throws error
    | none ↦ elim next [ none ↦ ends | some chunk ↦ yields chunk ]
  ]
