-- ===== src/ByteQueue/Fifo.antt =====
-- byteQueue.ts: what a reader gets is what was pushed, in that order.
use pinout.Prelude.{
  ℕ, ◌≡◌, ◌∙◌, refl, sym, ap, Bool, true, false, Option, none, some, List, [], ◌∷◌, ◌++◌, String,
  arith, if◌then◌else◌, is_some,
}
use mathlib.Core.List.{append_assoc, append-nil}
use pinout.ByteQueue.{ByteQueue, empty, push, pull, close, fail, Pull, yields}

pub data Call {ℓ} (A : Type ℓ) : Type ℓ where
  pushes : A → Call A
  pulls : ℕ → Call A
  closes : Call A
  fails : String → Call A

module _ {ℓ} {A : Type ℓ} where
  -- The chunks pushed before the first `close` or `fail`.
  unfoldable pub accepted : List (Call A) → List A
  accepted [] = []
  accepted (pushes a ∷ cs) = a ∷ accepted cs
  accepted (pulls n ∷ cs) = accepted cs
  accepted (closes ∷ cs) = []
  accepted (fails e ∷ cs) = []

  abbrev pub yielded : Pull A → List A
  yielded (yields a) = a ∷ []
  yielded _ = []

  -- A call, and the chunks that it hands to the reader.
  unfoldable pub step : ByteQueue A → Call A → ByteQueue A × List A
  step q (pushes a) = ((push q a).0, if is_some (push q a).1 then a ∷ [] else [])
  step q (pulls n) = ((pull q n).0, yielded (pull q n).1)
  step q closes = ((close q).0, [])
  step q (fails e) = ((fail q e).0, [])

  unfoldable pub run : ByteQueue A → List (Call A) → ByteQueue A × List A
  run q [] = (q, [])
  run q (c ∷ cs) = let later = run (step q c).0 cs in (later.0, (step q c).1 ++ later.1)

  abbrev pub pending : Bool → List (Call A) → List A
  pending true cs = []
  pending false cs = accepted cs

  -- A reader waits only at an empty queue.
  abbrev idle : List A → List ℕ → Bool
  idle [] ws = true
  idle (x ∷ xs) [] = true
  idle (x ∷ xs) (w ∷ ws) = false

  abbrev queue : List A → List ℕ → Bool → Option String → ByteQueue A
  queue xs ws closed failure = record {
    chunks = xs;
    waiters = ws;
    closed = closed;
    failure = failure;
  }

  idle_nil : (xs : List A) → idle xs [] ≡ true
  idle_nil [] = refl
  idle_nil (x ∷ xs) = refl

  run_lem :
      (xs : List A) (ws : List ℕ) (closed : Bool) (failure : Option String) (cs : List (Call A))
      → idle xs ws ≡ true
      → (run (queue xs ws closed failure) cs).1 ++ (run (queue xs ws closed failure) cs).0.chunks
        ≡ xs ++ pending closed cs
  unfolding run step push pull close fail accepted
  run_lem xs ws true f [] h = sym (append-nil xs)
  run_lem xs ws false f [] h = sym (append-nil xs)
  run_lem xs ws true f (pushes a ∷ cs) h = run_lem xs ws true f cs h
  run_lem xs [] false f (pushes a ∷ cs) h =
      run_lem (xs ++ a ∷ []) [] false f cs (idle_nil (xs ++ a ∷ []))
      ∙ append_assoc xs (a ∷ []) (accepted cs)
  run_lem [] (w ∷ ws) false f (pushes a ∷ cs) h = ap (λ ys. a ∷ ys) (run_lem [] ws false f cs refl)
  run_lem (x ∷ xs) (w ∷ ws) false f (pushes a ∷ cs) h = absurd (ground arith)
  run_lem xs ws true (some e) (pulls n ∷ cs) h = run_lem xs ws true (some e) cs h
  run_lem xs ws false (some e) (pulls n ∷ cs) h = run_lem xs ws false (some e) cs h
  run_lem [] ws true none (pulls n ∷ cs) h = run_lem [] ws true none cs refl
  run_lem [] ws false none (pulls n ∷ cs) h = run_lem [] (ws ++ n ∷ []) false none cs refl
  run_lem (x ∷ xs) [] true none (pulls n ∷ cs) h =
      ap (λ ys. x ∷ ys) (run_lem xs [] true none cs (idle_nil xs))
  run_lem (x ∷ xs) [] false none (pulls n ∷ cs) h =
      ap (λ ys. x ∷ ys) (run_lem xs [] false none cs (idle_nil xs))
  run_lem (x ∷ xs) (w ∷ ws) c none (pulls n ∷ cs) h = absurd (ground arith)
  run_lem xs ws true f (closes ∷ cs) h = run_lem xs ws true f cs h
  run_lem xs ws false f (closes ∷ cs) h = run_lem xs [] true f cs (idle_nil xs)
  run_lem xs ws true f (fails e ∷ cs) h = run_lem xs ws true f cs h
  run_lem xs ws false f (fails e ∷ cs) h = run_lem xs [] true (some e) cs (idle_nil xs)

  -- Whatever is pushed, pulled, closed and failed, and however these interleave: the chunks that
  -- waiting readers were resolved with and that pulls took, followed by what is still queued, are
  -- those that were pushed before the queue was closed or failed, each once and in order. What a
  -- resolved reader makes of its chunk behind a failure is `resume`, which is not among the calls.
  pub run-empty : (cs : List (Call A)) → (run empty cs).1 ++ (run empty cs).0.chunks ≡ accepted cs
  run-empty cs = run_lem [] [] false none cs refl
