-- ===== src/IntQueue/Tests.antt =====
-- The theorems on devices/intq.c at a queue that wraps around.
use modeling_unix.Base.{◌≡◌, refl, true, false, none, some, [], replicate, set, arith}
use modeling_unix.IntQueue.{IntQueue, Called, intq_getc, wait}
use modeling_unix.IntQueue.Bytes.{IsValid}

-- the bytes 5 and 6 at the last place and the first, and thread 9 that waits for room
abbrev wrapped : IntQueue
wrapped = record {
  not_full = some 9;
  not_empty = none;
  buf = set (set (replicate 64 0) 63 5) 0 6;
  head = 1;
  tail = 63;
  unblocked = [];
}

wrapped-IsValid : IsValid wrapped
wrapped-IsValid = record { size = refl; head_in = omega arith; tail_in = omega arith }

-- a thread that finds nothing sleeps, and an interrupt handler fails an ASSERT
abbrev drained : IntQueue
drained = record wrapped { tail = 1 }

sleeps : intq_getc false 4 drained ≡ some (Called.asleep (record drained { not_empty = some 4 }))
unfolding intq_getc wait
sleeps = refl

stops : intq_getc true 4 drained ≡ none
unfolding intq_getc
stops = refl
