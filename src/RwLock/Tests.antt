-- ===== src/RwLock/Tests.antt =====
-- Runs of filesys/rw-lock.c, and its theorems at reachable states.
use modeling_unix.Base.{◌+◌, ◌≤◌, ◌<◌, ◌≡◌, ◌≢◌, ◌⊎◌, refl, true, false, none, arith}
use modeling_unix.Base.Int.{pos, ◌+ℤ◌}
use modeling_unix.RwLock.{
  RwLock, rw_lock_init, enter, read_lock_acquire, read_lock_woken, write_lock_acquire,
  write_lock_woken, write_lock_try_acquire, write_lock_release,
}
use modeling_unix.RwLock.System.{System, init, read_acquire, write_acquire, Reach, start, later}
use modeling_unix.RwLock.Safety.{exclusion, no_lost_wakeup, writers_exclusive, try_lets_both_in}

-- one writer inside, and one reader that waits for it
abbrev contended : System
contended = record init {
  lock = record rw_lock_init { num_writers = pos 1; pending_readers = pos 1 };
  writers = 1;
  asleep_readers = 1;
}

contended-Reach : Reach false contended
unfolding read_lock_acquire write_lock_acquire ◌+ℤ◌
contended-Reach = later (later start (write_acquire _ refl)) read_acquire

-- the same lock once the writer has gone and the reader has not come yet
abbrev handed_over : RwLock
handed_over = record rw_lock_init { pending_readers = pos 1; reader_next = true }

exclusion_example : (contended.writers ≤ 1) × ((contended.writers ≡ 0) ⊎ (contended.readers ≡ 0))
exclusion_example = exclusion contended-Reach

no_lost_wakeup_example :
    0 < contended.readers + contended.writers + contended.woken_readers + contended.woken_writers
no_lost_wakeup_example = no_lost_wakeup contended-Reach (omega arith)

writers_exclusive_example :
    (contended.writers ≤ 1)
    × (contended.lock.num_writers ≡ pos contended.writers)
    × (contended.lock.num_readers ≡ pos contended.readers)
    × (write_lock_acquire contended.lock ≢ none)
    × (write_lock_woken contended.lock ≢ none)
    × (0 < contended.writers → write_lock_release contended.lock ≢ none)
writers_exclusive_example = writers_exclusive contended-Reach

try_lets_both_in_example :
    (l₁ l₂ : RwLock) × (write_lock_try_acquire handed_over ≡ (true, l₁))
    × (read_lock_woken l₁ ≡ enter l₂)
    × (l₂.num_writers ≡ pos 1)
    × (l₂.num_readers ≡ pos 1)
try_lets_both_in_example = try_lets_both_in handed_over refl refl refl
