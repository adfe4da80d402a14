-- ===== src/Queue/Wait.antt =====
-- What a call of an array queue does when it has to wait first, whatever the queue looks like each
-- time it gets the lock back.
use modeling_unix.Base.{
  ℕ, ◌≡◌, refl, ◌⊎◌, inl, inr, true, false, List, [], ◌∷◌, ◌++◌, arith, Bool-cases, ◌&&◌,
}
use modeling_unix.Monitor.{Outcome, done, waiting, items_avail, slots_avail}
use modeling_unix.Ring.{empty, full, IsValid}
use modeling_unix.Ring.Laws.{pop-IsValid, push-IsValid, contents-pop, contents-push}
use modeling_unix.Queue.{
  ArrayQueue, queue_empty, queue_full, queue_dequeue, queue_enqueue, enqueue_loop, dequeued,
  enqueued,
}
use modeling_unix.Queue.Refine.{elems}

-- `P` holds of each state, or of one of them.
abbrev pub Every : (ArrayQueue → Type 0) → List ArrayQueue → Type 0
Every P [] = Unit
Every P (q ∷ qs) = P q × Every P qs

abbrev pub One : (ArrayQueue → Type 0) → List ArrayQueue → Type 0
One P [] = ⊥
One P (q ∷ qs) = P q ⊎ One P qs

abbrev Valid : ArrayQueue → Type 0
Valid q = IsValid q.ring

-- The caller gets the oldest element of one of the states in which it held the lock, and that
-- element alone is gone; it waits only if there was nothing in any of them.
abbrev pub Dequeues : List ArrayQueue → Outcome (ℕ × ArrayQueue) → Type 0
Dequeues states (done (x, q')) =
    One (λ q. (elems q ≡ x ∷ elems q') × (q'.notified ≡ slots_avail ∷ q.notified)) states × Valid q'
Dequeues states waiting = Every (λ q. queue_empty q ≡ true) states

dequeued-Dequeues :
    (q : ArrayQueue) (qs : List ArrayQueue)
    → Valid q
    → empty q.ring ≡ false
    → Dequeues (q ∷ qs) (done (dequeued q))
unfolding dequeued
dequeued-Dequeues q qs ok e = (inl (contents-pop ok e, refl), pop-IsValid ok)

Dequeues-cons :
    (q : ArrayQueue) (qs : List ArrayQueue) (out : Outcome (ℕ × ArrayQueue))
    → queue_empty q ≡ true
    → Dequeues qs out
    → Dequeues (q ∷ qs) out
Dequeues-cons q qs (done (x, q')) e (one, ok) = (inr one, ok)
Dequeues-cons q qs waiting e all = (e, all)

-- `queue_dequeue`, whatever the well-formed states are in which it gets the lock back: it takes the
-- oldest element of one of them and signals a free slot, or waits because all of them were empty.
pub dequeue-Dequeues :
    (wakes : List ArrayQueue) (q : ArrayQueue)
    → Every (λ s. IsValid s.ring) (q ∷ wakes)
    → Dequeues (q ∷ wakes) (queue_dequeue wakes q)
unfolding queue_dequeue
dequeue-Dequeues [] q ok = elim (Bool-cases (empty q.ring)) [
  | inl e ↦ rw e (e, tt)
  | inr e ↦ rw e (dequeued-Dequeues q [] ok.0 e)
]
dequeue-Dequeues (q' ∷ wakes) q ok = elim (Bool-cases (empty q.ring)) [
  | inl e ↦ rw e (Dequeues-cons q (q' ∷ wakes) _ e (dequeue-Dequeues wakes q' ok.1))
  | inr e ↦ rw e (dequeued-Dequeues q (q' ∷ wakes) ok.0 e)
]

abbrev Enqueued : ℕ → ArrayQueue → ArrayQueue → Type 0
Enqueued x q' q = (elems q' ≡ elems q ++ (x ∷ [])) × (q'.notified ≡ items_avail ∷ q.notified)

-- The element comes last in one of the states in which the caller held the lock, and nothing else
-- changes; it is dropped only in discard mode, by a full queue, which stays as it was; the caller
-- waits only out of discard mode, and only if each of the states was full.
abbrev pub Enqueues : ℕ → ArrayQueue → List ArrayQueue → Outcome ArrayQueue → Type 0
Enqueues x q wakes (done q') =
    ((q.discard_mode ≡ true) × (queue_full q ≡ true) × (q' ≡ q))
    ⊎ (One (Enqueued x q') (q ∷ wakes) × Valid q')
Enqueues x q wakes waiting = (q.discard_mode ≡ false) × Every (λ s. queue_full s ≡ true) (q ∷ wakes)

-- the loop by itself
abbrev Stores : ℕ → List ArrayQueue → Outcome ArrayQueue → Type 0
Stores x states (done q') = One (Enqueued x q') states × Valid q'
Stores x states waiting = Every (λ s. queue_full s ≡ true) states

enqueued-Stores :
    (q : ArrayQueue) (qs : List ArrayQueue) (x : ℕ)
    → Valid q
    → full q.ring ≡ false
    → Stores x (q ∷ qs) (done (enqueued q x))
unfolding enqueued
enqueued-Stores q qs x ok e = (inl (contents-push ok x e, refl), push-IsValid ok x)

Stores-cons :
    (q : ArrayQueue) (qs : List ArrayQueue) (x : ℕ) (out : Outcome ArrayQueue)
    → queue_full q ≡ true
    → Stores x qs out
    → Stores x (q ∷ qs) out
Stores-cons q qs x (done q') e (one, ok) = (inr one, ok)
Stores-cons q qs x waiting e all = (e, all)

loop-Stores :
    (wakes : List ArrayQueue) (q : ArrayQueue) (x : ℕ)
    → Every (λ s. IsValid s.ring) (q ∷ wakes)
    → Stores x (q ∷ wakes) (enqueue_loop wakes q x)
unfolding enqueue_loop
loop-Stores [] q x ok = elim (Bool-cases (full q.ring)) [
  | inl e ↦ rw e (e, tt)
  | inr e ↦ rw e (enqueued-Stores q [] x ok.0 e)
]
loop-Stores (q' ∷ wakes) q x ok = elim (Bool-cases (full q.ring)) [
  | inl e ↦ rw e (Stores-cons q (q' ∷ wakes) x _ e (loop-Stores wakes q' x ok.1))
  | inr e ↦ rw e (enqueued-Stores q (q' ∷ wakes) x ok.0 e)
]

Enqueues-of_Stores :
    (q : ArrayQueue) (wakes : List ArrayQueue) (x : ℕ) (out : Outcome ArrayQueue)
    → (q.discard_mode && full q.ring) ≡ false
    → Stores x (q ∷ wakes) out
    → Enqueues x q wakes out
unfolding queue_full
Enqueues-of_Stores q wakes x (done q') no_drop stored = inr stored
Enqueues-of_Stores q wakes x waiting no_drop all = (ground arith, all)

-- `queue_enqueue`, whatever the well-formed states are in which it gets the lock back: it adds the
-- element to one of them and signals it, drops it in discard mode, or waits out of that mode.
pub enqueue-Enqueues :
    (wakes : List ArrayQueue) (q : ArrayQueue) (x : ℕ)
    → Every (λ s. IsValid s.ring) (q ∷ wakes)
    → Enqueues x q wakes (queue_enqueue wakes q x)
unfolding queue_enqueue
enqueue-Enqueues wakes q x ok = elim (Bool-cases (q.discard_mode && full q.ring)) [
  | inl drop ↦ rw drop (inl (ground arith, ground arith, refl))
  | inr keep ↦ rw keep (Enqueues-of_Stores q wakes x _ keep (loop-Stores wakes q x ok))
]
