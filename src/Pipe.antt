-- ===== src/Pipe.antt =====
-- filesys/pipe.c: a ring buffer of bytes between a read end and a write end, which are files. A
-- byte 0 ends a transfer. `notified` lists the signals sent so far, the newest first.
pub mod Turns
pub mod Transfer
pub mod Ends
mod Tests
use modeling_unix.Base.{
  ℕ, zero, suc, ◌+◌, ◌%◌, ◌^◌, Bool, true, false, not, ◌&&◌, Option, none, some, List, [], ◌∷◌,
  ◌==◌, if◌then◌else◌,
}
use modeling_unix.Monitor.{Outcome, done, waiting, ◌>>=◌, Channel, items_avail, slots_avail}
use modeling_unix.Ring.{Ring, empty, full, front, pop, push}

-- An end is the identity of a file; `none` is NULL.
pub record Pipe : Type 0 where
  pub ring : Ring
  pub read_end : Option ℕ
  pub write_end : Option ℕ
  pub notified : List Channel

abbrev pub is_null : Option ℕ → Bool
is_null none = true
is_null (some f) = false

abbrev pub same_file : Option ℕ → ℕ → Bool
same_file none file = false
same_file (some f) file = file == f

-- `room` and `storage` are what malloc returns for the pipe and for its buffer.
pub pipe_create : (room : Bool) (storage : Option (List ℕ)) (capacity : ℕ) → Option Pipe
pipe_create true (some bytes) capacity = some (record {
  ring = record { buffer = bytes; capacity = (capacity + 1) % 2 ^ 32; head = 0; tail = 0 };
  read_end = none;
  write_end = none;
  notified = [];
})
pipe_create _ _ capacity = none

-- `ends` is the answer of `file_pipe_ends`.
pub pipe_open : Bool → Option (List ℕ) → (ends : Option (ℕ × ℕ)) → Option Pipe
unfolding pipe_create
pipe_open room storage ends = elim (pipe_create room storage 4095) [
  | none ↦ none
  | some p ↦ elim ends [
    | none ↦ none
    | some (r, w) ↦ some (record p { read_end = some r; write_end = some w })
  ]
]

pub pipe_empty : Pipe → Bool
pipe_empty p = empty p.ring

pub pipe_full : Pipe → Bool
pipe_full p = full p.ring

-- One turn of `pipe_dequeue` under the lock; `none` is the `cond_wait`.
pub try_dequeue : Pipe → Option (ℕ × Pipe)
unfolding pipe_empty
try_dequeue p =
    if pipe_empty p
    then (if is_null p.write_end then some (0, p) else none)
    else some (front p.ring, record p { ring = pop p.ring; notified = slots_avail ∷ p.notified })

-- With the byte come the pipe and the states that are left for later waits.
pub pipe_dequeue : (wakes : List Pipe) → Pipe → Outcome (ℕ × Pipe × List Pipe)
pipe_dequeue [] p = elim (try_dequeue p) [ none ↦ waiting | some (x, p') ↦ done (x, p', []) ]
pipe_dequeue (q ∷ wakes) p = elim (try_dequeue p) [
  | none ↦ pipe_dequeue wakes q
  | some (x, p') ↦ done (x, p', q ∷ wakes)
]

-- One turn of `pipe_enqueue`: with no reader left the byte is dropped.
pub try_enqueue : Pipe → ℕ → Option Pipe
unfolding pipe_full
try_enqueue p item =
    if pipe_full p
    then (if is_null p.read_end then some p else none)
    else some (record p { ring = push p.ring item; notified = items_avail ∷ p.notified })

pub pipe_enqueue : (wakes : List Pipe) → Pipe → ℕ → Outcome (Pipe × List Pipe)
pipe_enqueue [] p item = elim (try_enqueue p item) [ none ↦ waiting | some p' ↦ done (p', []) ]
pipe_enqueue (q ∷ wakes) p item = elim (try_enqueue p item) [
  | none ↦ pipe_enqueue wakes q item
  | some p' ↦ done (p', q ∷ wakes)
]

-- The first number counts the rounds left. The list is what the loop stores in the buffer, with the
-- byte 0 that ends it; the number beside it is `bytes_read`.
pub read_loop : ℕ → List Pipe → Pipe → (bytes_read : ℕ) → Outcome (ℕ × List ℕ × Pipe × List Pipe)
read_loop zero wakes p bytes_read = done (bytes_read, [], p, wakes)
read_loop (suc n) wakes p bytes_read = pipe_dequeue wakes p >>= λ (x, p', wakes'). elim (x == 0) [
  | true ↦ done (bytes_read, x ∷ [], p', wakes')
  | false ↦ read_loop n wakes' p' (bytes_read + 1) >>= λ (total, bytes, p'', wakes'').
      done (total, x ∷ bytes, p'', wakes'')
]

-- A `size` of 0 or less is 0.
pub pipe_read : List Pipe → Pipe → (size : ℕ) → Outcome (ℕ × List ℕ × Pipe × List Pipe)
unfolding read_loop
pipe_read wakes p size = read_loop size wakes p 0

-- The list is the part of the buffer that is not yet written.
pub write_loop : List ℕ → List Pipe → Pipe → (bytes_written : ℕ) → Outcome (ℕ × Pipe × List Pipe)
write_loop [] wakes p bytes_written = done (bytes_written, p, wakes)
write_loop (x ∷ bytes) wakes p bytes_written = pipe_enqueue wakes p x >>= λ (p', wakes').
    elim (x == 0) [
      | true ↦ done (bytes_written, p', wakes')
      | false ↦ write_loop bytes wakes' p' (bytes_written + 1)
    ]

pub pipe_write : List Pipe → Pipe → (buffer : List ℕ) → Outcome (ℕ × Pipe × List Pipe)
unfolding write_loop
pipe_write wakes p buffer = write_loop buffer wakes p 0

-- `pipe_close`: `none` is a pipe whose memory is given back.
pub close_end : Pipe → (file : ℕ) → Pipe
close_end p file =
    if same_file p.read_end file
    then record p { read_end = none; notified = slots_avail ∷ p.notified }
    else if same_file p.write_end file
    then record p { write_end = none; notified = items_avail ∷ p.notified }
    else p

pub pipe_close : Pipe → (file : ℕ) → Option Pipe
unfolding close_end
pipe_close p file =
    let p' = close_end p file in
    if is_null p'.read_end && is_null p'.write_end then none else some p'
