-- ===== src/Synch.antt =====
-- threads/synch.c: semaphores, locks and condition variables. A thread is its identity. What a spinlock
-- guards is one turn; where a call sleeps, its next turn follows when it is woken.
pub mod System
pub mod Counts
pub mod Invariant
pub mod Turns
pub mod Safety
mod Tests
use modeling_unix.Base.{
  ℕ, ◌+◌, ◌-◌, ◌%◌, ◌^◌, Bool, true, false, Option, none, some, List, [], ◌∷◌, ◌++◌, ltb, ◌==◌,
  if◌then◌else◌,
}

pub record Semaphore : Type 0 where
  pub value : ℕ
  pub waiters : List ℕ

abbrev pub sema_init : ℕ → Semaphore
sema_init value = record { value = value; waiters = [] }

-- How a turn of `sema_down` ends: it has come down, or sleeps in `thread_block` and tests again when
-- it is woken.
pub data Turn : Type 0 where
  down : Semaphore → Turn
  block : Semaphore → Turn

pub sema_down : (me : ℕ) → Semaphore → Turn
sema_down me sema =
    if sema.value == 0
    then block (record sema { waiters = sema.waiters ++ (me ∷ []) })
    else down (record sema { value = sema.value - 1 })

pub sema_try_down : Semaphore → Bool × Semaphore
sema_try_down sema =
    if ltb 0 sema.value then (true, record sema { value = sema.value - 1 }) else (false, sema)

abbrev pub count_up : Semaphore → Semaphore
count_up sema = record sema { value = (sema.value + 1) % 2 ^ 32 }

abbrev pub up_from : List ℕ → Semaphore → Semaphore × Option ℕ
up_from [] sema = (count_up sema, none)
up_from (t ∷ ts) sema = (count_up (record sema { waiters = ts }), some t)

-- with the thread that it unblocks
pub sema_up : Semaphore → Semaphore × Option ℕ
sema_up sema = up_from sema.waiters sema

pub record Lock : Type 0 where
  pub holder : Option ℕ
  pub semaphore : Semaphore

abbrev pub lock_init : Lock
lock_init = record { holder = none; semaphore = sema_init 1 }

abbrev pub is : Option ℕ → ℕ → Bool
is none t = false
is (some h) t = h == t

abbrev pub lock_held_by_current_thread : (me : ℕ) → Lock → Bool
lock_held_by_current_thread me lock = is lock.holder me
