-- ===== src/Pipe/Ends.antt =====
-- The life of a pipe of filesys/pipe.c: its two ends, and when its memory is given back.
use modeling_unix.Base.{ℕ, ◌≡◌, ◌≢◌, none, some, ◌∷◌, arith, ◌↔◌}
use modeling_unix.Monitor.{items_avail, slots_avail}
use modeling_unix.Pipe.{Pipe, pipe_close, close_end}

-- Closing an end of a pipe with both ends open closes that end and signals the other side, which
-- may be waiting, and keeps the pipe with its bytes; closing the other end after it gives the
-- memory back, in either order.
pub close_both :
    (p : Pipe) (r w : ℕ)
    → p.read_end ≡ some r
    → p.write_end ≡ some w
    → r ≢ w
    → (pipe_close p r ≡ some (record p { read_end = none; notified = slots_avail ∷ p.notified }))
      × (pipe_close (record p { read_end = none; notified = slots_avail ∷ p.notified }) w ≡ none)
      × (pipe_close p w ≡ some (record p { write_end = none; notified = items_avail ∷ p.notified }))
      × (pipe_close (record p { write_end = none; notified = items_avail ∷ p.notified }) r ≡ none)
unfolding pipe_close
close_both p r w er ew ne = (ground arith, ground arith, ground arith, ground arith)

-- `pipe_close` gives a pipe back exactly when afterwards neither end is open; a file that is no end
-- of the pipe changes nothing.
pub close-none_iff :
    (p : Pipe) (file : ℕ)
    → ((pipe_close p file ≡ none)
        ↔ ((close_end p file).read_end ≡ none) × ((close_end p file).write_end ≡ none))
      × (p.read_end ≢ some file → p.write_end ≢ some file → close_end p file ≡ p)
unfolding pipe_close
close-none_iff p file = ((ground arith, ground arith), ground arith)
