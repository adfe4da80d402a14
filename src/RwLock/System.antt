-- ===== src/RwLock/System.antt =====
-- Any number of threads at one read-write lock. They are counted by where they stand: the lock does
-- not tell one from another.
use modeling_unix.Base.{ℕ, zero, suc, ◌+◌, ◌≡◌, Bool, true, some}
use modeling_unix.RwLock.{
  RwLock, rw_lock_init, Turn, enter, sleep, Signal, signal_can_write, broadcast_can_read,
  read_lock_acquire, read_lock_woken, read_lock_release, write_lock_acquire, write_lock_woken,
  write_lock_try_acquire, write_lock_release,
}

pub record System : Type 0 where
  pub lock : RwLock
  pub readers : ℕ  -- hold the lock to read
  pub writers : ℕ  -- hold it to write
  pub asleep_readers : ℕ  -- in `cond_wait` on `can_read`
  pub asleep_writers : ℕ
  pub woken_readers : ℕ  -- signalled, and not yet back under the monitor lock
  pub woken_writers : ℕ

abbrev pub init : System
init = record {
  lock = rw_lock_init;
  readers = 0;
  writers = 0;
  asleep_readers = 0;
  asleep_writers = 0;
  woken_readers = 0;
  woken_writers = 0;
}

abbrev pub wake_writer : (asleep : ℕ) → System → System
wake_writer zero s = s
wake_writer (suc n) s = record s { asleep_writers = n; woken_writers = s.woken_writers + 1 }

-- `cond_signal` wakes one sleeper, if there is one; `cond_broadcast` wakes all.
abbrev pub signalled : System → Signal → System
signalled s signal_can_write = wake_writer s.asleep_writers s
signalled s broadcast_can_read = record s {
  asleep_readers = 0;
  woken_readers = s.woken_readers + s.asleep_readers;
}

abbrev pub reader_turn : System → Turn → System
reader_turn s (enter l) = record s { lock = l; readers = s.readers + 1 }
reader_turn s (sleep l) = record s { lock = l; asleep_readers = s.asleep_readers + 1 }

abbrev pub writer_turn : System → Turn → System
writer_turn s (enter l) = record s { lock = l; writers = s.writers + 1 }
writer_turn s (sleep l) = record s { lock = l; asleep_writers = s.asleep_writers + 1 }

-- One turn of one thread. `tries` says whether `write_lock_try_acquire` is ever called.
pub data Step (tries : Bool) (s : System) : System → Type 0 where
  read_acquire : Step tries s (reader_turn s (read_lock_acquire s.lock))
  read_wake :
      (n : ℕ)
      → s.woken_readers ≡ suc n
      → Step tries s (reader_turn (record s { woken_readers = n }) (read_lock_woken s.lock))
  read_release :
      (n : ℕ)
      → s.readers ≡ suc n
      → Step tries s (
          signalled
            (record s { lock = (read_lock_release s.lock).0; readers = n })
            (read_lock_release s.lock).1)
  write_acquire : (t : Turn) → write_lock_acquire s.lock ≡ some t → Step tries s (writer_turn s t)
  write_wake :
      (n : ℕ) (t : Turn)
      → s.woken_writers ≡ suc n
      → write_lock_woken s.lock ≡ some t
      → Step tries s (writer_turn (record s { woken_writers = n }) t)
  write_try :
      (l : RwLock)
      → tries ≡ true
      → write_lock_try_acquire s.lock ≡ (true, l)
      → Step tries s (record s { lock = l; writers = s.writers + 1 })
  write_release :
      (n : ℕ) (l : RwLock) (g : Signal)
      → s.writers ≡ suc n
      → write_lock_release s.lock ≡ some (l, g)
      → Step tries s (signalled (record s { lock = l; writers = n }) g)

pub data Reach (tries : Bool) : System → Type 0 where
  start : Reach tries init
  later : {s t : System} → Reach tries s → Step tries s t → Reach tries t
