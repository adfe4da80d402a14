-- ===== src/Queue/Refine.antt =====
-- An array queue behaves as the bounded list of its elements.
use modeling_unix.Base.{
  ℕ, ◌-◌, ◌≡◌, refl, ap₂, ◌∙◌, true, false, not, List, [], ◌∷◌, arith, ltb, if◌then◌else◌,
  Bool-cases, length, inl, inr,
}
use modeling_unix.Ring.{empty, full, IsValid}
use modeling_unix.Ring.Laws.{
  contents, length-contents, count-lt, empty_iff, full_iff, pop-IsValid, push-IsValid, contents-pop,
  contents-push, capacity-push, capacity-pop,
}
use modeling_unix.Queue.{
  ArrayQueue, Op, enqueue, dequeue, peek, Reply, stored, item, blocked, step, run, enqueued,
  dequeued,
}
use modeling_unix.Queue.Fifo

abbrev pub elems : ArrayQueue → List ℕ
elems q = contents q.ring

-- how many elements the queue can hold
abbrev pub limit : ArrayQueue → ℕ
limit q = q.ring.capacity - 1

-- The outcome of a call is the one that the bounded list has, and the queue then holds that list.
pub record Follows (q : ArrayQueue) (op : Op) (out : Reply × ArrayQueue) : Type 0 where
  pub valid : IsValid out.1.ring
  pub same_limit : limit out.1 ≡ limit q
  pub same_mode : out.1.discard_mode ≡ q.discard_mode
  pub reply : out.0 ≡ (Fifo.step (limit q) q.discard_mode (elems q) op).0
  pub holds : elems out.1 ≡ (Fifo.step (limit q) q.discard_mode (elems q) op).1

has_room : (q : ArrayQueue) → IsValid q.ring → ltb (length (elems q)) (limit q) ≡ not (full q.ring)
has_room q ok = ground (arith, length-contents q.ring, full_iff ok, count-lt ok)

module _ (q : ArrayQueue) (ok : IsValid q.ring) where
  step-enqueue_full :
      (x : ℕ)
      → full q.ring ≡ true
      → step q (enqueue x) ≡ (if q.discard_mode then stored else blocked, q)
  unfolding step
  step-enqueue_full x f = ground arith

  step-enqueue_room : (x : ℕ) → full q.ring ≡ false → step q (enqueue x) ≡ (stored, enqueued q x)
  unfolding step
  step-enqueue_room x f = ground arith

  step-dequeue_empty : empty q.ring ≡ true → step q dequeue ≡ (blocked, q)
  unfolding step
  step-dequeue_empty e = ground arith

  step-dequeue_some : empty q.ring ≡ false → step q dequeue ≡ (item (dequeued q).0, (dequeued q).1)
  unfolding step
  step-dequeue_some e = ground arith

  enqueue-Follows : (x : ℕ) → Follows q (enqueue x) (step q (enqueue x))
  unfolding Fifo.step enqueued
  enqueue-Follows x = elim (Bool-cases (full q.ring)) [
    | inl f ↦ rw (step-enqueue_full x f) (record {
      valid = ok;
      same_limit = refl;
      same_mode = refl;
      reply = rw (has_room q ok, f) (ground arith);
      holds = rw (has_room q ok, f) (ground arith);
    })
    | inr f ↦ rw (step-enqueue_room x f) (record {
      valid = push-IsValid ok x;
      same_limit = capacity-push q.ring x;
      same_mode = refl;
      reply = rw (has_room q ok, f);
      holds = rw (has_room q ok, f) (contents-push ok x f);
    })
  ]

  dequeue-Follows : Follows q dequeue (step q dequeue)
  unfolding Fifo.step dequeued
  dequeue-Follows = elim (Bool-cases (empty q.ring)) [
    | inl e ↦ rw (step-dequeue_empty e) (record {
      valid = ok;
      same_limit = refl;
      same_mode = refl;
      reply = rw ((empty_iff ok).0 e);
      holds = rw ((empty_iff ok).0 e);
    })
    | inr e ↦ rw (step-dequeue_some e) (record {
      valid = pop-IsValid ok;
      same_limit = capacity-pop q.ring;
      same_mode = refl;
      reply = rw (contents-pop ok e);
      holds = rw (contents-pop ok e);
    })
  ]

  peek-Follows : Follows q peek (step q peek)
  unfolding Fifo.step step
  peek-Follows = elim (Bool-cases (empty q.ring)) [
    | inl e ↦ record {
      valid = ok;
      same_limit = refl;
      same_mode = refl;
      reply = rw (e, (empty_iff ok).0 e);
      holds = rw ((empty_iff ok).0 e);
    }
    | inr e ↦ record {
      valid = ok;
      same_limit = refl;
      same_mode = refl;
      reply = rw (e, contents-pop ok e);
      holds = rw (contents-pop ok e);
    }
  ]

-- On a well-formed queue each of `queue_enqueue`, `queue_dequeue` and `queue_peek` returns what the
-- bounded list of its elements returns, keeps the queue well formed, and leaves it holding what the
-- list then is; a call that has to wait leaves it as it was.
pub step-Follows : (q : ArrayQueue) (op : Op) → IsValid q.ring → Follows q op (step q op)
step-Follows q (enqueue x) ok = enqueue-Follows q ok x
step-Follows q dequeue ok = dequeue-Follows q ok
step-Follows q peek ok = peek-Follows q ok

-- No sequence of calls tells a well-formed queue from the bounded list of its elements.
pub run_refines :
    (ops : List Op) (q : ArrayQueue)
    → IsValid q.ring
    → run q ops ≡ Fifo.run (limit q) q.discard_mode (elems q) ops
unfolding run Fifo.run
run_refines [] q ok = refl
run_refines (op ∷ ops) q ok =
    let f = step-Follows q op ok in
    ap₂ ◌∷◌ f.reply
      (run_refines ops (step q op).1 f.valid ∙ rw (f.same_limit, f.same_mode, f.holds))
