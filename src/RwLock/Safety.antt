-- ===== src/RwLock/Safety.antt =====
-- What the read-write lock of filesys/rw-lock.c guarantees, and where `write_lock_try_acquire`
-- breaks it.
use modeling_unix.Base.{◌+◌, ◌≤◌, ◌<◌, ◌≡◌, ◌≢◌, ◌⊎◌, ◌↔◌, refl, Bool, true, false, none, arith}
use modeling_unix.Base.Int.{pos, ◌+ℤ◌, ◌-ℤ◌}
use modeling_unix.RwLock.{
  RwLock, enter, read_lock_woken, write_lock_acquire, write_lock_woken, write_lock_try_acquire,
  write_lock_release,
}
use modeling_unix.RwLock.System.{
  System, read_acquire, read_wake, write_acquire, write_try, write_release, Reach, start, later,
}
use modeling_unix.RwLock.Invariant.{Reach-Counts, Reach-Turns}

-- Where `write_lock_try_acquire` is never called, a writer shares the lock with nobody.
pub exclusion : {s : System} → Reach false s → (s.writers ≤ 1) × ((s.writers ≡ 0) ⊎ (s.readers ≡ 0))
exclusion r = ((Reach-Counts r).single, (Reach-Turns r).apart)

-- Where `write_lock_try_acquire` is never called, no wake-up is lost: while a thread sleeps at the
-- lock, some thread holds it or is on its way to take it.
pub no_lost_wakeup :
    {s : System}
    → Reach false s
    → 0 < s.asleep_readers + s.asleep_writers
    → 0 < s.readers + s.writers + s.woken_readers + s.woken_writers
no_lost_wakeup {s} r asleep = ground (arith, Reach-Turns r)

-- With `write_lock_try_acquire` too, there is never a second writer, the lock's counters are right,
-- and no ASSERT of `write_lock_acquire` or of a holder's `write_lock_release` fails.
pub writers_exclusive :
    {tries : Bool} {s : System}
    → Reach tries s
    → (s.writers ≤ 1)
      × (s.lock.num_writers ≡ pos s.writers)
      × (s.lock.num_readers ≡ pos s.readers)
      × (write_lock_acquire s.lock ≢ none)
      × (write_lock_woken s.lock ≢ none)
      × (0 < s.writers → write_lock_release s.lock ≢ none)
unfolding write_lock_acquire write_lock_woken write_lock_release ◌+ℤ◌ ◌-ℤ◌
writers_exclusive r =
    let c = Reach-Counts r in
    (c.single, c.writers, c.readers, ground (arith, c), ground (arith, c), ground (arith, c))

-- `write_lock_try_acquire` succeeds exactly when no thread holds the lock; when it does not, it
-- leaves the lock as it was.
pub try_acquire_iff :
    {tries : Bool} {s : System}
    → Reach tries s
    → (((write_lock_try_acquire s.lock).0 ≡ true) ↔ (s.readers ≡ 0) × (s.writers ≡ 0))
      × ((write_lock_try_acquire s.lock).0 ≡ false → (write_lock_try_acquire s.lock).1 ≡ s.lock)
unfolding write_lock_try_acquire
try_acquire_iff r =
    let c = Reach-Counts r in ((ground (arith, c), ground (arith, c)), ground (arith, c))

-- A free lock that a writer has just handed to the readers, `reader_next`, lets a writer in by
-- `write_lock_try_acquire`, and then a reader as well: both hold the lock.
pub try_lets_both_in :
    (l : RwLock)
    → l.num_readers ≡ pos 0
    → l.num_writers ≡ pos 0
    → l.reader_next ≡ true
    → (l₁ l₂ : RwLock) × (write_lock_try_acquire l ≡ (true, l₁))
      × (read_lock_woken l₁ ≡ enter l₂)
      × (l₂.num_writers ≡ pos 1)
      × (l₂.num_readers ≡ pos 1)
unfolding write_lock_try_acquire read_lock_woken ◌+ℤ◌ ◌-ℤ◌
try_lets_both_in l r w turn = (
  record l { num_writers = pos 1 },
  record l {
    num_writers = pos 1;
    pending_readers = l.pending_readers -ℤ pos 1;
    num_readers = pos 1;
  },
  ground arith,
  ground arith,
  refl,
  refl,
)

-- A writer holds the lock while a reader goes to sleep, and releases it; before the reader runs
-- again a try succeeds, and then the reader comes in.
pub shared_reachable : (s : System) × Reach true s × (s.writers ≡ 1) × (s.readers ≡ 1)
unfolding read_lock_woken write_lock_acquire write_lock_try_acquire write_lock_release ◌+ℤ◌ ◌-ℤ◌
shared_reachable = (
  _,
  later
      (later
        (later (later (later start (write_acquire _ refl)) read_acquire)
          (write_release 0 _ _ refl refl))
        (write_try _ refl refl))
      (read_wake 0 refl),
  refl,
  refl,
)

-- So exclusion is not guaranteed once `write_lock_try_acquire` is called.
pub exclusion_broken : ¬ ((s : System) → Reach true s → (s.writers ≡ 0) ⊎ (s.readers ≡ 0))
exclusion_broken all = let (s, r, w, d) = shared_reachable in ground (arith, all s r)
