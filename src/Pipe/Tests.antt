-- ===== src/Pipe/Tests.antt =====
-- Runs of filesys/pipe.c, and its theorems at small pipes.
use modeling_unix.Base.{ℕ, ◌≡◌, refl, true, Option, none, some, List, [], ◌∷◌, arith}
use modeling_unix.Monitor.{done, waiting}
use modeling_unix.Ring.{IsValid}
use modeling_unix.Pipe.{Pipe, try_dequeue, pipe_dequeue, pipe_open, pipe_read, pipe_write}
use modeling_unix.Pipe.Turns.{Holds, NonZero}
use modeling_unix.Pipe.Transfer.{read-write}

abbrev pipe : (buffer : List ℕ) (head tail : ℕ) (read_end write_end : Option ℕ) → Pipe
pipe buffer head tail read_end write_end = record {
  ring = record { buffer = buffer; capacity = 4; head = head; tail = tail };
  read_end = read_end;
  write_end = write_end;
  notified = [];
}

-- the bytes 5, 0, 6; then none, with both ends open; then 5 and 6 with no writer left; then three
-- bytes, which fill it, with no reader left
abbrev zero_inside : Pipe
zero_inside = pipe (0 ∷ 6 ∷ 9 ∷ 5 ∷ []) 2 1 (some 1) (some 2)

abbrev fresh : Pipe
fresh = pipe (9 ∷ 9 ∷ 9 ∷ 9 ∷ []) 3 3 (some 1) (some 2)

abbrev orphan : Pipe
orphan = pipe (5 ∷ 6 ∷ 9 ∷ 9 ∷ []) 3 1 (some 1) none

abbrev broken : Pipe
broken = pipe (5 ∷ 6 ∷ 7 ∷ 9 ∷ []) 3 2 none (some 2)

zero_inside-IsValid : IsValid zero_inside.ring
zero_inside-IsValid = omega arith

fresh-IsValid : IsValid fresh.ring
fresh-IsValid = omega arith

orphan-IsValid : IsValid orphan.ring
orphan-IsValid = omega arith

open_runs :
    pipe_open true (some []) (some (1, 2))
    ≡ some (record {
      ring = record { buffer = []; capacity = 4096; head = 0; tail = 0 };
      read_end = some 1;
      write_end = some 2;
      notified = [];
    })
unfolding pipe_open
open_runs = refl

-- A reader of an empty pipe waits while there is a writer.
read_waits : pipe_read [] fresh 2 ≡ waiting
unfolding pipe_read pipe_dequeue try_dequeue
read_waits = refl

five_six : NonZero (5 ∷ 6 ∷ [])
five_six = omega arith

five : NonZero (5 ∷ [])
five = omega arith

read-write_example :
    (p₁ p₂ : Pipe) × (pipe_write [] fresh (5 ∷ 6 ∷ []) ≡ done (2, p₁, []))
    × (pipe_read [] p₁ 2 ≡ done (2, 5 ∷ 6 ∷ [], p₂, []))
    × Holds fresh [] p₂
read-write_example = read-write [] (5 ∷ 6 ∷ []) fresh fresh-IsValid refl (omega arith) five_six
