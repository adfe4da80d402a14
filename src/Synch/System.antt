-- ===== src/Synch/System.antt =====
-- Any number of threads at one lock and one condition variable of threads/synch.c.
use modeling_unix.Base.{
  ℕ, ◌≡◌, Bool, not, Option, none, some, List, [], ◌∷◌, ◌++◌, ◌==◌, if◌then◌else◌, assert, ◌>>◌,
  ◌>>=◌,
}
use modeling_unix.Synch.{
  Semaphore, sema_init, sema_down, sema_try_down, sema_up, Turn, down, block, Lock, lock_init,
  lock_held_by_current_thread,
}

-- Where a thread is: outside of the lock and in no call, at the test or asleep in `sema_down` of
-- `lock_acquire`, behind it and not yet the holder, the holder and in no call, in `cond_broadcast`,
-- before the `sema_up` of `lock_release`, or before that `sema_up`, at the test or asleep in
-- `cond_wait`.
pub data Place : Type 0 where
  outside trying asleep taken holding broadcasting giving : Place
  cond_giving cond_trying cond_asleep : Place

pub record System : Type 0 where
  pub lock : Lock
  pub cond : List ℕ  -- the condition's waiters
  pub own : ℕ → Semaphore  -- the semaphore of the thread's `struct semaphore_elem`
  pub place : ℕ → Place

abbrev pub upd {ℓ} : {A : Type ℓ} → (ℕ → A) → ℕ → A → ℕ → A
upd f i v t = if i == t then v else f t

abbrev pub move : ℕ → Place → System → System
move me p s = record s { place = upd s.place me p }

abbrev pub init : System
init = record { lock = lock_init; cond = []; own = λ t. sema_init 0; place = λ t. outside }

-- Where an unblocked thread goes on. `thread_unblock` asserts that it is blocked.
abbrev pub woken : Place → Option Place
woken asleep = some trying
woken cond_asleep = some cond_trying
woken p = none

abbrev pub thread_unblock : Option ℕ → System → Option System
thread_unblock none s = some s
thread_unblock (some t) s = woken (s.place t) >>= λ p. some (move t p s)

-- `lock_acquire`, to the `sema_down`
unfoldable pub acquire : (me : ℕ) → System → Option System
acquire me s = assert (not (lock_held_by_current_thread me s.lock)) >> some (move me trying s)

abbrev pub acquire_turn : (me : ℕ) → System → Turn → System
acquire_turn me s (down sema) =
    move me taken (record s { lock = record s.lock { semaphore = sema } })
acquire_turn me s (block sema) =
    move me asleep (record s { lock = record s.lock { semaphore = sema } })

-- its end, and that of `lock_try_acquire`
abbrev pub own_lock : (me : ℕ) → System → System
own_lock me s = move me holding (record s { lock = record s.lock { holder = some me } })

abbrev pub try_turn : (me : ℕ) → System → Bool × Semaphore → System
try_turn me s (success, sema) =
    move me (if success then taken else outside)
      (record s { lock = record s.lock { semaphore = sema } })

unfoldable pub try_acquire : (me : ℕ) → System → Option System
try_acquire me s =
    assert (not (lock_held_by_current_thread me s.lock))
    >> some (try_turn me s (sema_try_down s.lock.semaphore))

-- `lock_release`, to the `sema_up`
abbrev pub give : (me : ℕ) → Place → System → Option System
give me p s =
    assert (lock_held_by_current_thread me s.lock)
    >> some (move me p (record s { lock = record s.lock { holder = none } }))

abbrev pub up_turn : (me : ℕ) → Place → System → Semaphore × Option ℕ → Option System
up_turn me p s (sema, t) =
    thread_unblock t (move me p (record s { lock = record s.lock { semaphore = sema } }))

-- `cond_wait`, to the `sema_up` of its `lock_release`
unfoldable pub wait : (me : ℕ) → System → Option System
wait me s =
    assert (lock_held_by_current_thread me s.lock)
    >> give me cond_giving
        (record s { own = upd s.own me (sema_init 0); cond = s.cond ++ (me ∷ []) })

abbrev pub wait_turn : (me : ℕ) → System → Turn → Option System
wait_turn me s (down sema) = acquire me (record s { own = upd s.own me sema })
wait_turn me s (block sema) = some (move me cond_asleep (record s { own = upd s.own me sema }))

-- the `sema_up` of the semaphore of `waiter`
abbrev pub wake_turn : (waiter : ℕ) → System → Semaphore × Option ℕ → Option System
wake_turn waiter s (sema, t) = thread_unblock t (record s { own = upd s.own waiter sema })

abbrev pub signal_first : List ℕ → System → Option System
signal_first [] s = some s
signal_first (t ∷ ts) s = wake_turn t (record s { cond = ts }) (sema_up (s.own t))

unfoldable pub cond_signal : (me : ℕ) → System → Option System
cond_signal me s = assert (lock_held_by_current_thread me s.lock) >> signal_first s.cond s

-- the test and one turn of the loop of `cond_broadcast`; behind the loop the thread is at `back`
abbrev pub broadcast_turn : (me : ℕ) → (back : Place) → List ℕ → System → Option System
broadcast_turn me back [] s = some (move me back s)
broadcast_turn me back (t ∷ ts) s = cond_signal me s >>= λ s'. some (move me broadcasting s')

pub data Call : Type 0 where
  lock_acquire lock_try_acquire lock_release : Call
  cond_wait signal cond_broadcast : Call

unfoldable pub start_call : (me : ℕ) → Call → System → Option System
start_call me lock_acquire s = acquire me s
start_call me lock_try_acquire s = try_acquire me s
start_call me lock_release s = give me giving s
start_call me cond_wait s = wait me s
start_call me signal s = cond_signal me s
start_call me cond_broadcast s = broadcast_turn me (s.place me) s.cond s

-- One turn of a thread at this place: the rest of its call, or else a call. `none` is a failed ASSERT
-- or a panic.
abbrev pub turn_at : Place → (me : ℕ) → Call → System → Option System
turn_at outside me call s = start_call me call s
turn_at holding me call s = start_call me call s
turn_at trying me call s = some (acquire_turn me s (sema_down me s.lock.semaphore))
turn_at asleep me call s = some s
turn_at taken me call s = some (own_lock me s)
turn_at broadcasting me call s = broadcast_turn me holding s.cond s
turn_at giving me call s = up_turn me outside s (sema_up s.lock.semaphore)
turn_at cond_giving me call s = up_turn me cond_trying s (sema_up s.lock.semaphore)
turn_at cond_trying me call s = wait_turn me s (sema_down me (s.own me))
turn_at cond_asleep me call s = some s

abbrev pub turn : (me : ℕ) → Call → System → Option System
turn me call s = turn_at (s.place me) me call s

pub data Reach : System → Type 0 where
  start : Reach init
  later : {s s' : System} (me : ℕ) (call : Call) → Reach s → turn me call s ≡ some s' → Reach s'
