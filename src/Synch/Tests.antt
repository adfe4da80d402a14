-- ===== src/Synch/Tests.antt =====
-- Runs of threads/synch.c's locks and conditions.
use mathlib.Core.Path.{subst}
use mathlib.Core.Option.{some-injective}
use modeling_unix.Base.{
  inl, inr, sym, ◌∙◌, ap, Option-cases, ◌⊎◌, ◌↔◌, ◌≢◌, if◌then◌else◌, ℕ, ◌≡◌, refl, true, Option,
  none, some, List, [], ◌∷◌, ◌>>=◌,
}
use modeling_unix.Synch.{lock_held_by_current_thread, sema_down, sema_up}
use modeling_unix.Synch.Counts.{count, critical, holds}
use modeling_unix.Synch.Turns.{misuse, rest, is_first, woken_waiter}
use modeling_unix.Synch.System.{
  cond_signal, start_call, acquire, wait, trying, System, Call, lock_acquire, cond_wait, init, turn,
  Reach, start, later, cond_asleep,
}
use modeling_unix.Synch.Safety.{
  lock_exclusion, turn-stops, sleeper_remembered, signal_kept, cond_signal-woken,
}

-- turns of the threads that are named, with the calls that they make
abbrev run : List (ℕ × Call) → System → Option System
run [] s = some s
run ((me, call) ∷ rs) s = turn me call s >>= run rs

run-Reach : (rs : List (ℕ × Call)) (s s' : System) → Reach s → run rs s ≡ some s' → Reach s'
run-Reach [] s s' r e = subst Reach (some-injective s s' e) r
run-Reach ((me, call) ∷ rs) s s' r e = elim (Option-cases (turn me call s)) [
  | inl f ↦ let g : run ((me, call) ∷ rs) s ≡ none = ap (λ o. o >>= run rs) f in cc
  | inr (m, f) ↦ run-Reach rs m s' (later me call r f) (sym (ap (λ o. o >>= run rs) f) ∙ e)
]

abbrev or_init : Option System → System
or_init none = init
or_init (some s) = s

-- Thread 1 has the lock, and thread 2 sleeps for it.
abbrev contending : List (ℕ × Call)
contending =
    (1, lock_acquire)
    ∷ (1, lock_acquire)
    ∷ (1, lock_acquire)
    ∷ (2, lock_acquire)
    ∷ (2, lock_acquire)
    ∷ []

abbrev contended : System
contended = or_init (run contending init)

contended-Reach : Reach contended
unfolding start_call acquire sema_down
contended-Reach = run-Reach contending init contended start refl

lock_exclusion_example : lock_held_by_current_thread 2 contended.lock ≡ holds (contended.place 2)
lock_exclusion_example = (lock_exclusion contended-Reach).1 2

turn-stops_example :
    (turn 1 lock_acquire contended ≡ none)
    ↔ (misuse (contended.place 1) lock_acquire contended.cond ≡ true)
turn-stops_example = turn-stops contended-Reach 1 lock_acquire

sleeper_remembered_example :
    (u : ℕ) × ((critical (contended.place u) ≡ true) ⊎ (contended.place u ≡ trying))
unfolding start_call acquire sema_down
sleeper_remembered_example = sleeper_remembered contended-Reach 2 refl

-- Thread 1 waits for the condition, thread 2 has the lock.
abbrev waiting : List (ℕ × Call)
waiting =
    (1, lock_acquire)
    ∷ (1, lock_acquire)
    ∷ (1, lock_acquire)
    ∷ (1, cond_wait)
    ∷ (1, cond_wait)
    ∷ (1, cond_wait)
    ∷ (2, lock_acquire)
    ∷ (2, lock_acquire)
    ∷ (2, lock_acquire)
    ∷ []

abbrev waited : System
waited = or_init (run waiting init)

waited-Reach : Reach waited
unfolding start_call acquire sema_down wait sema_up
waited-Reach = run-Reach waiting init waited start refl

signal_kept_example :
    (waited.place 1 ≡ cond_asleep → count 1 waited.cond ≡ 1)
    × ((waited.own 1).value ≡ 1 → (count 1 waited.cond ≡ 0) × (waited.place 1 ≢ cond_asleep))
signal_kept_example = signal_kept waited-Reach 1

waited_run : waited.place 1 ≡ cond_asleep
unfolding start_call acquire sema_down wait sema_up
waited_run = refl

cond_signal-woken_example :
    (s' : System) × (cond_signal 2 waited ≡ some s')
    × (s'.cond ≡ rest waited.cond)
    × ((t : ℕ)
        → s'.place t
          ≡ (if is_first waited.cond t then woken_waiter (waited.place t) else waited.place t))
unfolding start_call acquire sema_down wait sema_up
cond_signal-woken_example = cond_signal-woken waited-Reach 2 refl
