-- ===== src/Monitor.antt =====
-- The part of the monitors of threads/synch.c that their clients see. A call that meets `cond_wait`
-- gives up the lock, and goes on from the state in which it gets the lock back: these states are an
-- argument of the call, in order. Where they run out, the call has not returned.

pub data Outcome {ℓ} (A : Type ℓ) : Type ℓ where
  done : A → Outcome A
  waiting : Outcome A

infixl 5 ◌>>=◌
abbrev pub ◌>>=◌ {ℓ κ} : {A : Type ℓ} {B : Type κ} → Outcome A → (A → Outcome B) → Outcome B
done a >>= f = f a
waiting >>= f = waiting

-- The condition variables of a ring buffer; a `cond_signal` of one is recorded by its name.
pub data Channel : Type 0 where
  items_avail slots_avail : Channel
