-- ===== src/IntQueue.antt =====
-- devices/intq.c: the queue of bytes between threads and interrupt handlers. The caller holds the
-- queue's spin lock. `none` is a failed ASSERT; `unblocked` lists the calls of `thread_unblock`, the
-- newest first.
pub mod Bytes
mod Tests
use modeling_unix.Base.{
  ℕ, ◌+◌, ◌%◌, ◌^◌, Bool, true, false, not, Option, none, some, List, [], ◌∷◌, ◌==◌, if◌then◌else◌,
  get_or, set, ◌>>=◌, ◌>>◌, assert,
}

abbrev pub intq_bufsize : ℕ
intq_bufsize = 64

pub record IntQueue : Type 0 where
  pub not_full : Option ℕ
  pub not_empty : Option ℕ
  pub buf : List ℕ
  pub head : ℕ
  pub tail : ℕ
  pub unblocked : List ℕ

-- `next`
abbrev pub next_pos : ℕ → ℕ
next_pos p = (p + 1) % intq_bufsize

pub intq_init : IntQueue → IntQueue
intq_init q = record q { not_full = none; not_empty = none; head = 0; tail = 0 }

abbrev pub intq_empty : IntQueue → Bool
intq_empty q = q.head == q.tail

abbrev pub intq_full : IntQueue → Bool
intq_full q = next_pos q.head == q.tail

-- which of the two waiting threads a call is about
pub data Waiter : Type 0 where
  for_room for_bytes : Waiter

-- A thread that calls sleeps, or is done with a result.
pub data Called (A : Type 0) : Type 0 where
  asleep : IntQueue → Called A
  returned : A → IntQueue → Called A

-- `wait`, of the thread `thread`
unfoldable pub wait : IntQueue → Waiter → (thread : ℕ) → Option IntQueue
wait q for_bytes thread = assert (intq_empty q) >> some (record q { not_empty = some thread })
wait q for_room thread = assert (intq_full q) >> some (record q { not_full = some thread })

abbrev pub wake : Option ℕ → List ℕ → List ℕ
wake none woken = woken
wake (some thread) woken = thread ∷ woken

unfoldable pub signal : IntQueue → Waiter → Option IntQueue
signal q for_bytes =
    assert (not (intq_empty q))
    >> some (record q { not_empty = none; unblocked = wake q.not_empty q.unblocked })
signal q for_room =
    assert (not (intq_full q))
    >> some (record q { not_full = none; unblocked = wake q.not_full q.unblocked })

-- One turn of the loop of `intq_getc`: a woken thread starts another one.
unfoldable pub intq_getc : (in_interrupt : Bool) (thread : ℕ) → IntQueue → Option (Called ℕ)
unfolding wait signal
intq_getc in_interrupt thread q =
    if intq_empty q
    then (assert (not in_interrupt) >> wait q Waiter.for_bytes thread >>= λ q'.
        some (Called.asleep q'))
    else (signal (record q { tail = next_pos q.tail }) Waiter.for_room >>= λ q'.
        some (Called.returned (get_or q.buf q.tail 0) q'))

-- one turn of the loop of `intq_putc`
unfoldable pub intq_putc :
    (in_interrupt : Bool) (thread : ℕ) → IntQueue → (byte : ℕ) → Option (Called (Unit {0}))
unfolding wait signal
intq_putc in_interrupt thread q byte =
    if intq_full q
    then (assert (not in_interrupt) >> wait q Waiter.for_room thread >>= λ q'.
        some (Called.asleep q'))
    else (signal (record q { buf = set q.buf q.head byte; head = next_pos q.head }) Waiter.for_bytes
        >>= λ q'. some (Called.returned tt q'))
