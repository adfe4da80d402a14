-- ===== src/IntQueue/Bytes.antt =====
-- The bytes that a queue of devices/intq.c holds, and what its two calls do to them.
use modeling_unix.Base.{
  ℕ, ◌+◌, ◌-◌, ◌%◌, ◌<◌, ◌≡◌, refl, ap, ◌∙◌, Bool, false, none, some, ◌==◌, get_or, set, length,
  length-set, get_or-set_self, get_or-set_ne, arith,
}
use modeling_unix.IntQueue.{IntQueue, next_pos, Called, signal, wake, intq_getc, intq_putc}

pub record IsValid (q : IntQueue) : Type 0 where
  pub size : length q.buf ≡ 64
  pub head_in : q.head < 64
  pub tail_in : q.tail < 64

-- how many bytes the queue holds
abbrev pub count : IntQueue → ℕ
count q = (q.head + 64 - q.tail) % 64

-- the byte that comes out after `i` others
abbrev pub item : IntQueue → ℕ → ℕ
item q i = get_or q.buf ((q.tail + i) % 64) 0

-- `q'` is `q` without its first byte.
pub record Taken (q q' : IntQueue) : Type 0 where
  pub valid : IsValid q'
  pub fewer : count q' + 1 ≡ count q
  pub others : (i : ℕ) → item q' i ≡ item q (i + 1)

-- `q'` is `q` with `byte` behind its last byte.
pub record Added (q : IntQueue) (byte : ℕ) (q' : IntQueue) : Type 0 where
  pub valid : IsValid q'
  pub more : count q' ≡ count q + 1
  pub last : item q' (count q) ≡ byte
  pub others : (i : ℕ) → i < count q → item q' i ≡ item q i

-- Of a well-formed queue with a byte, `intq_getc` passes its ASSERTs without sleep, returns the
-- first byte and takes it off, and wakes the thread that waits for room.
pub getc-Taken :
    (in_interrupt : Bool) (thread : ℕ) (q : IntQueue)
    → IsValid q
    → 0 < count q
    → (q' : IntQueue) × (intq_getc in_interrupt thread q ≡ some (Called.returned (item q 0) q'))
      × Taken q q'
      × (q'.not_full ≡ none)
      × (q'.unblocked ≡ wake q.not_full q.unblocked)
unfolding intq_getc signal
getc-Taken in_interrupt thread q ok h =
    let some_bytes : (q.head == q.tail) ≡ false = ground (arith, ok.head_in, ok.tail_in) in
    let room : (next_pos q.head == next_pos q.tail) ≡ false =
      ground (arith, ok.head_in, ok.tail_in) in
    let first : (q.tail + 0) % 64 ≡ q.tail = omega (arith, ok.tail_in) in
    (
      record q { tail = next_pos q.tail; not_full = none; unblocked = wake q.not_full q.unblocked },
      rw (some_bytes, room, first) refl,
      record {
        valid = record { size = ok.size; head_in = ok.head_in; tail_in = omega arith };
        fewer = omega (arith, ok.head_in, ok.tail_in);
        others = λ i. ap (λ p. get_or q.buf p 0) (omega (arith, ok.tail_in));
      },
      refl,
      refl,
    )

-- Of a well-formed queue with room, `intq_putc` passes its ASSERTs without sleep, adds the byte
-- behind the others, and wakes the thread that waits for a byte.
pub putc-Added :
    (in_interrupt : Bool) (thread : ℕ) (q : IntQueue) (byte : ℕ)
    → IsValid q
    → count q < 63
    → (q' : IntQueue) × (intq_putc in_interrupt thread q byte ≡ some (Called.returned tt q'))
      × Added q byte q'
      × (q'.not_empty ≡ none)
      × (q'.unblocked ≡ wake q.not_empty q.unblocked)
unfolding intq_putc signal
putc-Added in_interrupt thread q byte ok h =
    let some_room : (next_pos q.head == q.tail) ≡ false = ground (arith, ok.head_in, ok.tail_in) in
    let at_end : (q.tail + count q) % 64 ≡ q.head = omega (arith, ok.head_in, ok.tail_in) in
    (
      record q {
        buf = set q.buf q.head byte;
        head = next_pos q.head;
        not_empty = none;
        unblocked = wake q.not_empty q.unblocked;
      },
      rw some_room refl,
      record {
        valid = record {
          size = length-set q.buf q.head byte ∙ ok.size;
          head_in = omega arith;
          tail_in = ok.tail_in;
        };
        more = omega (arith, ok.head_in, ok.tail_in);
        last = rw at_end (get_or-set_self q.buf q.head byte 0 (omega (arith, ok.size, ok.head_in)));
        others = λ i k.
            get_or-set_ne q.buf q.head ((q.tail + i) % 64) byte 0
              (omega (arith, ok.head_in, ok.tail_in));
      },
      refl,
      refl,
    )
