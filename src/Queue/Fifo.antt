-- ===== src/Queue/Fifo.antt =====
-- What an array queue promises: a list of at most `cap` elements, the oldest first.
use modeling_unix.Base.{ℕ, ◌-◌, ◌^◌, Bool, List, [], ◌∷◌, ◌++◌, ltb, if◌then◌else◌, length}
use modeling_unix.Queue.{Op, enqueue, dequeue, peek, Reply, stored, item, blocked}

module _ (cap : ℕ) (discard : Bool) where
  unfoldable pub step : List ℕ → Op → Reply × List ℕ
  step xs (enqueue x) =
      if ltb (length xs) cap
      then (stored, xs ++ (x ∷ []))
      else if discard
      then (stored, xs)
      else (blocked, xs)
  step [] dequeue = (blocked, [])
  step (x ∷ xs) dequeue = (item x, xs)
  step [] peek = (item (2 ^ 32 - 1), [])
  step (x ∷ xs) peek = (item x, x ∷ xs)

  unfoldable pub run : List ℕ → List Op → List Reply
  unfolding step
  run xs [] = []
  run xs (op ∷ ops) = let (r, xs') = step xs op in r ∷ run xs' ops
