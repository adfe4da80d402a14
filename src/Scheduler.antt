-- ===== src/Scheduler.antt =====
-- threads/scheduler.c: the completely fair scheduler of one CPU.
-- Threads are shared objects: `threads` maps the identity of a thread to its fields, and the ready
-- list and `curr` hold identities. `now` is the value of `timer_gettime`. `none` is a read outside
-- `prio_to_weight`. Sums and products of `int64_t` are taken as integers: C leaves their overflow
-- undefined.
pub mod Weight
pub mod Pick
pub mod Queue
pub mod Charged
pub mod Unblock
mod Tests
use modeling_unix.Base.{
  ℕ, zero, suc, ◌+◌, ◌-◌, ◌*◌, ◌/◌, ◌%◌, ◌^◌, Bool, true, false, not, ◌&&◌, ◌||◌, Option, none,
  some, List, [], ◌∷◌, ◌++◌, ltb, leb, ◌==◌, if◌then◌else◌, get_elem?, ◌>>=◌,
}
use modeling_unix.Base.Int.{ℤ, pos, negsuc, ◌+ℤ◌, ◌-ℤ◌, ◌*ℤ◌, ◌/ℤ◌, ltb_ℤ, leb_ℤ, eqb_ℤ}

pub record Thread : Type 0 where
  pub tid : ℕ
  pub nice : ℤ
  pub vruntime : ℤ
  pub timer_start : ℤ
  pub timer_stop : ℤ

-- `struct ready_queue`, without its lock
pub record ReadyQueue : Type 0 where
  pub curr : Option ℕ
  pub thread_ticks : ℕ
  pub ready_list : List ℕ
  pub nr_ready : ℕ
  pub min_vruntime : ℤ
  pub last_time : ℤ
  pub active : Bool

pub record Sched : Type 0 where
  pub threads : ℕ → Thread
  pub rq : ReadyQueue

pub data Action : Type 0 where
  return_none return_yield : Action

abbrev pub int64_max : ℤ
int64_max = pos (2 ^ 63 - 1)

abbrev pub max : ℤ → ℤ → ℤ
max x y = if ltb_ℤ y x then x else y

abbrev pub min : ℤ → ℤ → ℤ
min x y = if ltb_ℤ x y && not (eqb_ℤ x (pos 0)) then x else y

abbrev pub prio_to_weight : List ℕ
prio_to_weight =
    88761 ∷ 71755 ∷ 56483 ∷ 46273 ∷ 36291 ∷ 29154 ∷ 23254 ∷ 18705 ∷ 14949 ∷ 11916 ∷ 9548 ∷ 7620
    ∷ 6100 ∷ 4904 ∷ 3906 ∷ 3121 ∷ 2501 ∷ 1991 ∷ 1586 ∷ 1277 ∷ 1024 ∷ 820 ∷ 655 ∷ 526 ∷ 423 ∷ 335
    ∷ 272 ∷ 215 ∷ 172 ∷ 137 ∷ 110 ∷ 87 ∷ 70 ∷ 56 ∷ 45 ∷ 36 ∷ 29 ∷ 23 ∷ 18 ∷ 15 ∷ []

-- `prio_to_weight[i]`
unfoldable pub weight : ℤ → Option ℕ
weight (pos i) = get_elem? prio_to_weight i
weight (negsuc i) = none

-- a write to the fields of the thread `i`
abbrev pub update : (ℕ → Thread) → ℕ → Thread → ℕ → Thread
update threads i t j = if i == j then t else threads j

pub sched_init : ReadyQueue → ReadyQueue
sched_init rq = record rq {
  ready_list = [];
  min_vruntime = pos 0;
  last_time = pos 0;
  active = true;
}

-- NICE_DEFAULT is 0.
pub calc_vruntime : Thread → (bonus : ℤ) → Option ℤ
unfolding ◌+ℤ◌ ◌-ℤ◌ ◌*ℤ◌ ◌/ℤ◌ weight
calc_vruntime t bonus = do
  w0 ← weight (pos 0 +ℤ bonus)
  w ← weight (t.nice +ℤ bonus)
  some (t.vruntime +ℤ (t.timer_stop -ℤ t.timer_start) *ℤ pos w0 /ℤ pos w)

pub min_loop : (ℕ → Thread) → ℤ → List ℕ → ℤ
min_loop threads acc [] = acc
min_loop threads acc (i ∷ is) = min_loop threads (min (threads i).vruntime acc) is

-- where the loop of `set_min_vruntime` starts
abbrev pub min_start : Sched → Option ℕ → ℤ
min_start s none = int64_max
min_start s (some c) = min (s.threads c).vruntime int64_max

pub set_min_vruntime : Sched → Sched
unfolding min_loop
set_min_vruntime s =
    let m = min_loop s.threads (min_start s s.rq.curr) s.rq.ready_list in
    record s { rq = record (s.rq) { min_vruntime = if eqb_ℤ m int64_max then pos 0 else m } }

pub weight_loop : (ℕ → Thread) → ℕ → List ℕ → Option ℕ
weight_loop threads acc [] = some acc
weight_loop threads acc (i ∷ is) =
    weight ((threads i).nice +ℤ pos 20) >>= λ w. weight_loop threads (acc + w) is

pub queue_weight : Sched → Option ℕ
unfolding weight_loop
queue_weight s = weight_loop s.threads 0 s.rq.ready_list

pub queue_total_weight : Sched → Option ℕ
unfolding weight_loop
queue_total_weight s = do
  start ← elim (s.rq.curr) [ none ↦ some 0 | some c ↦ weight ((s.threads c).nice +ℤ pos 20) ]
  total ← weight_loop s.threads start s.rq.ready_list
  some (if total == 0 then 1 else total)

-- the test of the loop of `find_thread`
abbrev pub better : Thread → Thread → Bool
better t front =
    ltb_ℤ t.vruntime front.vruntime || (eqb_ℤ t.vruntime front.vruntime && ltb t.tid front.tid)

pub find_loop : (ℕ → Thread) → (front : ℕ) → List ℕ → ℕ
find_loop threads front [] = front
find_loop threads front (i ∷ is) =
    find_loop threads (if better (threads i) (threads front) then i else front) is

-- `list_remove` of a thread's element
pub remove : ℕ → List ℕ → List ℕ
remove i [] = []
remove i (j ∷ js) = if j == i then js else j ∷ remove i js

-- The answer NULL is `none`.
pub sched_pick_next : (now : ℤ) → Sched → Option ℕ × Sched
unfolding find_loop remove
sched_pick_next now s = elim (s.rq.ready_list) [
  | [] ↦ (none, s)
  | front ∷ others ↦
      let i = find_loop s.threads front (front ∷ others) in
      (
        some i,
        record s {
          threads = update s.threads i (record (s.threads i) { timer_start = now });
          rq = record (s.rq) {
            ready_list = remove i (front ∷ others);
            nr_ready = (s.rq.nr_ready + (2 ^ 32 - 1)) % 2 ^ 32;
          };
        },
      )
]

-- `list_push_back` and `nr_ready++`
abbrev pub push_ready : ℕ → ReadyQueue → ReadyQueue
push_ready i rq = record rq {
  ready_list = rq.ready_list ++ (i ∷ []);
  nr_ready = (rq.nr_ready + 1) % 2 ^ 32;
}

pub sched_yield : (now : ℤ) → Sched → (current : ℕ) → Option Sched
unfolding calc_vruntime
sched_yield now s current =
    let stopped = record (s.threads current) { timer_stop = now } in
    calc_vruntime stopped (pos 20) >>= λ v. some (record s {
      threads = update s.threads current (record stopped { vruntime = v });
      rq = push_ready current s.rq;
    })

pub sched_block : (now : ℤ) → Sched → (current : ℕ) → Sched
sched_block now s current = record s {
  threads = update s.threads current (record (s.threads current) { timer_stop = now });
}

-- An `int64_t` that is added to an `unsigned`.
abbrev pub add_unsigned : ℕ → ℤ → ℕ
add_unsigned n (pos d) = (n + d) % 2 ^ 32
add_unsigned n (negsuc d) = (n + 2 ^ 32 - 1 - d % 2 ^ 32) % 2 ^ 32

pub calc_ideal_runtime : Sched → (curr : ℕ) → Option ℤ
unfolding queue_total_weight
calc_ideal_runtime s curr = do
  w ← weight ((s.threads curr).nice +ℤ pos 20)
  total ← queue_total_weight s
  let n : ℕ = elim (s.rq.curr) [ none ↦ s.rq.nr_ready | some c ↦ (s.rq.nr_ready + 1) % 2 ^ 32 ]
  some (pos (4000000 * n * w / total))

pub sched_tick : (now : ℤ) → Sched → (current : ℕ) → Option (Action × Sched)
unfolding calc_ideal_runtime
sched_tick now s current = do
  ideal ← calc_ideal_runtime s current
  let ticks = add_unsigned s.rq.thread_ticks (now -ℤ s.rq.last_time)
  if leb_ℤ ideal (pos ticks)
      then some (
        Action.return_yield,
        record s { rq = record (s.rq) { thread_ticks = 0; last_time = now } },
      )
      else some (
        Action.return_none,
        record s { rq = record (s.rq) { thread_ticks = ticks; last_time = now } },
      )

-- The running thread `c` is charged for the time up to `now`.
pub charge : (now : ℤ) → Sched → (c : ℕ) → Option Sched
unfolding calc_vruntime
charge now s c =
    let stopped = record (s.threads c) { timer_stop = now } in
    calc_vruntime stopped (pos 20) >>= λ v.
    some (record s { threads = update s.threads c (record stopped { vruntime = v }) })

abbrev pub restart : (now : ℤ) → Sched → (c : ℕ) → Sched
restart now s c = record s {
  threads = update s.threads c (record (s.threads c) { timer_start = now });
}

-- the part of `sched_unblock` for a thread that was blocked; `later` is the second reading of the
-- clock
pub place_woken : (now later : ℤ) → Sched → (c t : ℕ) → Option Sched
unfolding charge set_min_vruntime
place_woken now later s c t = do
  charged ← charge now s c
  let s' = set_min_vruntime (restart later charged c)
  v ← calc_vruntime (s'.threads t) (pos 0)
  some (record s' {
    threads =
        update s'.threads t
          (record (s'.threads t) { vruntime = max v (s'.rq.min_vruntime -ℤ pos 20000000) });
  })

-- the part of `sched_unblock` for a new thread
pub place_new : (now later : ℤ) → Sched → (c t : ℕ) → Option Sched
unfolding charge set_min_vruntime
place_new now later s c t = do
  charged ← charge now s c
  let idle = eqb_ℤ (charged.threads c).timer_stop (charged.threads c).timer_start
  let s' = restart later (if idle then charged else set_min_vruntime charged) c
  some (record s' {
    threads = update s'.threads t (record (s'.threads t) {
      vruntime =
          if eqb_ℤ s'.rq.min_vruntime (pos 0) then (s'.threads c).vruntime else s'.rq.min_vruntime;
    });
  })

abbrev pub unblock_action : (curr : Option ℕ) → (initial : Bool) → Action
unblock_action none initial = Action.return_yield
unblock_action (some c) initial = if initial then Action.return_none else Action.return_yield

abbrev pub place :
    (now later : ℤ) → Sched → (curr : Option ℕ) → (t : ℕ) → (initial : Bool) → Option Sched
place now later s none t initial = some s
place now later s (some c) t initial =
    if initial then place_new now later s c t else place_woken now later s c t

pub sched_unblock : (now later : ℤ) → Sched → (t : ℕ) → (initial : Bool) → Option (Action × Sched)
unfolding place_woken place_new
sched_unblock now later s t initial = place now later s s.rq.curr t initial >>= λ s'.
    some (unblock_action s.rq.curr initial, record s' { rq = push_ready t s'.rq })
