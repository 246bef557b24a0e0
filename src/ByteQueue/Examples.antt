-- ===== src/ByteQueue/Examples.antt =====
-- byteQueue.ts: a run of the queue at a concrete input.
use pinout.Prelude.{◌≡◌, refl, some, List, [], ◌∷◌, ◌++◌, String}
use pinout.ByteQueue.{empty, push, pull, close, fail, resume, throws}
use pinout.ByteQueue.Fifo.{Call, pushes, pulls, closes, run, step, accepted, run-empty}

abbrev calls : List (Call String)
calls = pulls 1 ∷ pushes "a" ∷ pushes "b" ∷ pulls 2 ∷ pushes "c" ∷ closes ∷ pushes "d" ∷ []

handed_out : (run empty calls).1 ≡ "a" ∷ "b" ∷ []
unfolding run step push pull close
handed_out = refl

-- A failure drops what is still queued, and also a chunk that a waiting reader was handed.
failed : resume (fail (push {A = String} empty "a").0 "gone").0 (some "a") ≡ throws "gone"
unfolding resume fail push
failed = refl

run-empty_example : (run empty calls).1 ++ (run empty calls).0.chunks ≡ accepted calls
run-empty_example = run-empty calls
