-- ===== src/Queue.antt =====
-- lib/kernel/queue.c: an array queue, which drops or waits when it is full. The buffer cache keeps
-- the sectors to read ahead in one.
pub mod Fifo
pub mod Refine
pub mod Wait
mod Tests
use modeling_unix.Base.{
  ℕ, zero, suc, ◌+◌, ◌-◌, ◌%◌, ◌^◌, Bool, true, false, ◌&&◌, Option, none, some, List, [], ◌∷◌,
  ◌==◌, if◌then◌else◌,
}
use modeling_unix.Monitor.{Outcome, done, waiting, Channel, items_avail, slots_avail}
use modeling_unix.Ring.{Ring, empty, full, front, pop, push}

-- `notified` lists the signals sent so far, the newest first.
pub record ArrayQueue : Type 0 where
  pub ring : Ring
  pub discard_mode : Bool
  pub notified : List Channel

-- `storage` is what malloc returns; without it the thread exits, which is `none`.
pub queue_init :
    (storage : Option (List ℕ)) (capacity : ℕ) (discard_mode : Bool) → Option ArrayQueue
queue_init none capacity discard_mode = none
queue_init (some words) capacity discard_mode = some (record {
  ring = record { buffer = words; capacity = (capacity + 1) % 2 ^ 32; head = 0; tail = 0 };
  discard_mode = discard_mode;
  notified = [];
})

pub queue_empty : ArrayQueue → Bool
queue_empty q = empty q.ring

pub queue_full : ArrayQueue → Bool
queue_full q = full q.ring

-- -1 as a `uint32_t` where there is no element
pub queue_peek : ArrayQueue → ℕ
unfolding queue_empty
queue_peek q = if queue_empty q then 2 ^ 32 - 1 else front q.ring

-- what `queue_dequeue` does once there is an element
pub dequeued : ArrayQueue → ℕ × ArrayQueue
dequeued q = (front q.ring, record q { ring = pop q.ring; notified = slots_avail ∷ q.notified })

pub queue_dequeue : (wakes : List ArrayQueue) → ArrayQueue → Outcome (ℕ × ArrayQueue)
unfolding queue_empty dequeued
queue_dequeue [] q = if queue_empty q then waiting else done (dequeued q)
queue_dequeue (q' ∷ wakes) q =
    let rest = queue_dequeue wakes q' in if queue_empty q then rest else done (dequeued q)

-- what `queue_enqueue` does once there is a slot
pub enqueued : ArrayQueue → ℕ → ArrayQueue
enqueued q item = record q { ring = push q.ring item; notified = items_avail ∷ q.notified }

pub enqueue_loop : (wakes : List ArrayQueue) → ArrayQueue → ℕ → Outcome ArrayQueue
unfolding queue_full enqueued
enqueue_loop [] q item = if queue_full q then waiting else done (enqueued q item)
enqueue_loop (q' ∷ wakes) q item =
    let rest = enqueue_loop wakes q' item in if queue_full q then rest else done (enqueued q item)

pub queue_enqueue : (wakes : List ArrayQueue) → ArrayQueue → ℕ → Outcome ArrayQueue
unfolding queue_full enqueue_loop
queue_enqueue wakes q item =
    if q.discard_mode && queue_full q then done q else enqueue_loop wakes q item

-- a sequence of calls that nobody else comes between, and what each returns
pub data Op : Type 0 where
  enqueue : ℕ → Op
  dequeue : Op
  peek : Op

pub data Reply : Type 0 where
  stored : Reply
  item : ℕ → Reply
  blocked : Reply

-- A call that waits changes nothing.
pub step : ArrayQueue → Op → Reply × ArrayQueue
unfolding queue_enqueue queue_dequeue queue_peek
step q (enqueue x) = elim (queue_enqueue [] q x) [ done q' ↦ (stored, q') | waiting ↦ (blocked, q) ]
step q dequeue = elim (queue_dequeue [] q) [ done (x, q') ↦ (item x, q') | waiting ↦ (blocked, q) ]
step q peek = (item (queue_peek q), q)

pub run : ArrayQueue → List Op → List Reply
run q [] = []
run q (op ∷ ops) = let (r, q') = step q op in r ∷ run q' ops
