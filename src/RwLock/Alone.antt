-- ===== src/RwLock/Alone.antt =====
-- The calls of filesys/rw-lock.c by one thread, where no other one uses the lock.
use modeling_unix.Base.{◌≡◌, refl, true, some}
use modeling_unix.Base.Int.{pos, ◌+ℤ◌, ◌-ℤ◌}
use modeling_unix.RwLock.{
  RwLock, rw_lock_init, Mode, enter, signal_can_write, read_lock_acquire, read_lock_release,
  write_lock_acquire, write_lock_try_acquire, write_lock_release,
}

-- no one has the lock, a reader has it, a writer has it
abbrev pub idle : Mode → RwLock
idle m = record rw_lock_init { mode = m }

abbrev pub reading : Mode → RwLock
reading m = record rw_lock_init { mode = m; num_readers = pos 1 }

abbrev pub writing : Mode → RwLock
writing m = record rw_lock_init { mode = m; num_writers = pos 1 }

pub try_acquire_idle : (m : Mode) → write_lock_try_acquire (idle m) ≡ (true, writing m)
unfolding write_lock_try_acquire ◌+ℤ◌
try_acquire_idle m = refl

pub write_acquire_idle : (m : Mode) → write_lock_acquire (idle m) ≡ some (enter (writing m))
unfolding write_lock_acquire ◌+ℤ◌
write_acquire_idle m = refl

pub write_release_writing :
    (m : Mode) → write_lock_release (writing m) ≡ some (idle m, signal_can_write)
unfolding write_lock_release ◌-ℤ◌
write_release_writing m = refl

pub read_acquire_idle : (m : Mode) → read_lock_acquire (idle m) ≡ enter (reading m)
unfolding read_lock_acquire ◌+ℤ◌
read_acquire_idle m = refl

pub read_release_reading : (m : Mode) → read_lock_release (reading m) ≡ (idle m, signal_can_write)
unfolding read_lock_release ◌-ℤ◌
read_release_reading m = refl
