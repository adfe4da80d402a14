-- ===== src/Scheduler/Tests.antt =====
-- Runs of the scheduler model, and the theorems at concrete queues.
use mathlib.Core.List.Memᴰ
use mathlib.Core.List.{Memᴰ}
use modeling_unix.Base.{
  ℕ, ◌≡◌, refl, true, false, Option, none, some, List, [], ◌∷◌, ◌==◌, if◌then◌else◌, arith,
}
use modeling_unix.Base.Int.{ℤ, pos, negsuc, ◌-ℤ◌}
use modeling_unix.Scheduler.{Thread, Sched, Action, sched_pick_next, sched_unblock, find_loop}
use modeling_unix.Scheduler.Weight.{Ran}
use modeling_unix.Scheduler.Pick.{Picked, pick_next-Picked}

-- thread 1 is nice, thread 3 is favoured, the others have the default level
abbrev threads : ℕ → Thread
threads i = record {
  tid = i;
  nice = if i == 1 then pos 5 else if i == 3 then negsuc 4 else pos 0;
  vruntime = if i == 2 then pos 100 else pos 300;
  timer_start = pos 1000;
  timer_stop = pos 4000;
}

abbrev busy : Sched
busy = record {
  threads = threads;
  rq = record {
    curr = some 0;
    thread_ticks = 0;
    ready_list = 1 ∷ 2 ∷ [];
    nr_ready = 2;
    min_vruntime = pos 100;
    last_time = pos 1000;
    active = true;
  };
}

picks_least : (sched_pick_next (pos 5000) busy).0 ≡ some 2
unfolding sched_pick_next find_loop
picks_least = refl

pick_next-Picked_example : Picked (pos 5000) busy 2 (sched_pick_next (pos 5000) busy).1
pick_next-Picked_example = pick_next-Picked (pos 5000) busy 2 (refl, omega arith) picks_least

threads-Ran : (i : ℕ) → Ran (threads i) 3000
unfolding ◌-ℤ◌
threads-Ran i = refl

-- The running thread is charged 5000 nanoseconds, the least virtual run time is that of thread 2, and
-- the woken thread keeps its own.
abbrev after_wake : Option (Action × Sched) → List ℤ
after_wake none = []
after_wake (some (a, s)) = (s.threads 0).vruntime ∷ s.rq.min_vruntime ∷ (s.threads 4).vruntime ∷ []

wakes :
    after_wake (sched_unblock (pos 6000) (pos 6001) busy 4 false)
    ≡ pos 5300 ∷ pos 100 ∷ pos 3300 ∷ []
unfolding sched_unblock
wakes = refl
