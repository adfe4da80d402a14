-- ===== src/Queue/Tests.antt =====
-- Runs of lib/kernel/queue.c, and its theorems at small queues.
use modeling_unix.Base.{◌≡◌, refl, Bool, true, false, List, [], ◌∷◌, arith}
use modeling_unix.Ring.{IsValid, pop, push}
use modeling_unix.Queue.{ArrayQueue, Op, enqueue, dequeue, peek, stored, item, blocked, step, run}
use modeling_unix.Queue.Fifo
use modeling_unix.Queue.Refine.{run_refines}

-- room for two; the element 8 stands at the end of the buffer
abbrev wrapped : Bool → ArrayQueue
wrapped discard = record {
  ring = record { buffer = 9 ∷ 7 ∷ 8 ∷ []; capacity = 3; head = 1; tail = 2 };
  discard_mode = discard;
  notified = [];
}

abbrev drained : ArrayQueue
drained = record (wrapped false) {
  ring = record { buffer = 9 ∷ 7 ∷ 8 ∷ []; capacity = 3; head = 2; tail = 2 };
}

wrapped-IsValid : (discard : Bool) → IsValid (wrapped discard).ring
wrapped-IsValid discard = omega arith

drained-IsValid : IsValid drained.ring
drained-IsValid = omega arith

abbrev script : List Op
script = enqueue 1 ∷ peek ∷ enqueue 2 ∷ dequeue ∷ dequeue ∷ dequeue ∷ []

-- In discard mode the element 2 is lost; the last call waits.
run_discards : run (wrapped true) script ≡ stored ∷ item 8 ∷ stored ∷ item 8 ∷ item 1 ∷ blocked ∷ []
unfolding run step pop push
run_discards = refl

run_blocks : run (wrapped false) script ≡ stored ∷ item 8 ∷ blocked ∷ item 8 ∷ item 1 ∷ blocked ∷ []
unfolding run step pop push
run_blocks = refl

run_refines_example : run (wrapped true) script ≡ Fifo.run 2 true (8 ∷ []) script
run_refines_example = run_refines script (wrapped true) (wrapped-IsValid true)
