-- ===== src/RwLock.antt =====
-- filesys/rw-lock.c: the read-write lock of a cache block, as turns under its monitor lock.
-- A turn goes from `lock_acquire`, or from the return of `cond_wait`, to the next `cond_wait` or to
-- `lock_release`. The signals that it sends are part of its result.
pub mod System
pub mod Alone
pub mod Invariant
pub mod Safety
mod Tests
use modeling_unix.Base.{
  ℕ, Bool, true, false, not, ◌&&◌, ◌||◌, Option, none, some, ◌==◌, if◌then◌else◌, ◌>>=◌, ◌>>◌,
  assert,
}
use modeling_unix.Base.Int.{ℤ, pos, ◌+ℤ◌, ◌-ℤ◌, ltb_ℤ, eqb_ℤ}

pub data Mode : Type 0 where
  unlocked read_locked write_locked : Mode

-- `struct rw_lock` without its monitor, which the turns stand for
pub record RwLock : Type 0 where
  pub num_readers : ℤ
  pub num_writers : ℤ
  pub pending_readers : ℤ
  pub pending_writer : Bool
  pub reader_next : Bool
  pub mode : Mode

abbrev pub rw_lock_init : RwLock
rw_lock_init = record {
  num_readers = pos 0;
  num_writers = pos 0;
  pending_readers = pos 0;
  pending_writer = false;
  reader_next = false;
  mode = Mode.unlocked;
}

-- The caller has the lock, or sleeps in `cond_wait`.
pub data Turn : Type 0 where
  enter : RwLock → Turn
  sleep : RwLock → Turn

-- what a release does to the condition variables
pub data Signal : Type 0 where
  signal_can_write broadcast_can_read : Signal

abbrev pub positive : ℤ → Bool
positive n = ltb_ℤ (pos 0) n

-- the condition of the loop of `read_lock_acquire`
abbrev pub read_blocked : RwLock → Bool
read_blocked l = (positive l.num_writers || l.pending_writer) && not l.reader_next

pub read_lock_acquire : RwLock → Turn
read_lock_acquire l =
    if read_blocked l
    then sleep (record l { pending_readers = l.pending_readers +ℤ pos 1 })
    else enter (record l { num_readers = l.num_readers +ℤ pos 1 })

-- the turn of a reader that `cond_wait` returns to
pub read_lock_woken : RwLock → Turn
unfolding read_lock_acquire
read_lock_woken l = read_lock_acquire (record l { pending_readers = l.pending_readers -ℤ pos 1 })

pub read_lock_release : RwLock → RwLock × Signal
read_lock_release l =
    (record l { num_readers = l.num_readers -ℤ pos 1; reader_next = false }, signal_can_write)

abbrev pub write_blocked : RwLock → Bool
write_blocked l = positive l.num_readers || positive l.num_writers || l.reader_next

-- `none` is the failed ASSERT.
pub write_lock_acquire : RwLock → Option Turn
write_lock_acquire l =
    let num_writers' = l.num_writers +ℤ pos 1 in
    if write_blocked l
    then some (sleep (record l { pending_writer = true }))
    else assert (eqb_ℤ num_writers' (pos 1))
      >> some (enter (record l { num_writers = num_writers' }))

pub write_lock_woken : RwLock → Option Turn
unfolding write_lock_acquire
write_lock_woken l = write_lock_acquire (record l { pending_writer = false })

pub write_lock_try_acquire : RwLock → Bool × RwLock
write_lock_try_acquire l =
    if positive l.num_readers || positive l.num_writers
    then (false, l)
    else (true, record l { num_writers = l.num_writers +ℤ pos 1 })

pub write_lock_release : RwLock → Option (RwLock × Signal)
write_lock_release l =
    let num_writers' = l.num_writers -ℤ pos 1 in
    assert (eqb_ℤ num_writers' (pos 0))
    >> (if eqb_ℤ l.pending_readers (pos 0)
        then some (record l { num_writers = num_writers' }, signal_can_write)
        else some (record l { num_writers = num_writers'; reader_next = true }, broadcast_can_read))
