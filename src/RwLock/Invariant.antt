-- ===== src/RwLock/Invariant.antt =====
-- What holds of a read-write lock and its threads after every turn.
use modeling_unix.Base.{◌+◌, ◌≤◌, ◌<◌, ◌≡◌, ◌⊎◌, refl, Bool, true, false, arith}
use modeling_unix.Base.Int.{pos, ◌+ℤ◌, ◌-ℤ◌}
use modeling_unix.RwLock.{
  read_lock_woken, read_lock_release, write_lock_woken, write_lock_try_acquire, write_lock_release,
}
use modeling_unix.RwLock.System.{
  System, Step, read_acquire, read_wake, read_release, write_acquire, write_wake, write_try,
  write_release, Reach, start, later,
}

-- The lock counts its holders and its waiting readers, and has at most one writer.
pub record Counts (s : System) : Type 0 where
  pub readers : s.lock.num_readers ≡ pos s.readers
  pub writers : s.lock.num_writers ≡ pos s.writers
  pub pending : s.lock.pending_readers ≡ pos (s.asleep_readers + s.woken_readers)
  pub single : s.writers ≤ 1

Step-Counts : {tries : Bool} {s t : System} → Step tries s t → Counts s → Counts t
unfolding read_lock_woken read_lock_release write_lock_woken write_lock_try_acquire
    write_lock_release ◌+ℤ◌ ◌-ℤ◌
Step-Counts read_acquire c = ground arith
Step-Counts (read_wake n e) c = ground arith
Step-Counts (read_release n e) c = ground arith
Step-Counts (write_acquire t e) c = ground arith
Step-Counts (write_wake n t e f) c = ground arith
Step-Counts (write_try l e f) c = ground arith
Step-Counts (write_release n l g e f) c = ground arith

-- At the start, and after any turns, tries among them.
pub Reach-Counts : {tries : Bool} {s : System} → Reach tries s → Counts s
Reach-Counts start = record { readers = refl; writers = refl; pending = refl; single = omega arith }
Reach-Counts (later r st) = Step-Counts st (Reach-Counts r)

-- Without tries: whose turn it is, who keeps whom waiting, and who is there to wake the sleepers.
pub record Turns (s : System) : Type 0 where
  pub apart : (s.writers ≡ 0) ⊎ (s.readers ≡ 0)
  pub turn : s.lock.reader_next ≡ true → (s.writers ≡ 0) × (0 < s.woken_readers + s.readers)
  pub pending_writer : s.lock.pending_writer ≡ true → 0 < s.asleep_writers + s.woken_writers
  pub writers_wait :
      0 < s.asleep_writers
      → (0 < s.readers + s.writers + s.woken_writers) ⊎ (s.lock.reader_next ≡ true)
  pub readers_wait : 0 < s.asleep_readers → 0 < s.writers + s.asleep_writers + s.woken_writers

Step-Turns : {s t : System} → Step false s t → Counts s → Turns s → Turns t
unfolding read_lock_woken read_lock_release write_lock_woken write_lock_try_acquire
    write_lock_release ◌+ℤ◌ ◌-ℤ◌
Step-Turns read_acquire c v = ground arith
Step-Turns (read_wake n e) c v = ground arith
Step-Turns (read_release n e) c v = ground arith
Step-Turns (write_acquire t e) c v = ground arith
Step-Turns (write_wake n t e f) c v = ground arith
Step-Turns (write_try l e f) c v = cc
Step-Turns (write_release n l g e f) c v = ground arith

pub Reach-Turns : {s : System} → Reach false s → Turns s
Reach-Turns start = record {
  apart = omega arith;
  turn = λ e. cc;
  pending_writer = λ e. cc;
  writers_wait = λ h. absurd (omega arith);
  readers_wait = λ h. absurd (omega arith);
}
Reach-Turns (later r st) = Step-Turns st (Reach-Counts r) (Reach-Turns r)
