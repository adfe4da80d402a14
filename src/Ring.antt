-- ===== src/Ring.antt =====
-- The ring buffer that lib/kernel/queue.c and filesys/pipe.c both implement, field by field: one
-- spot is always empty, `head` points at it, right before the first element, and `tail` points at
-- the last element. The sums of `uint32_t` are taken modulo 2 ^ 32.
pub mod Items
pub mod Laws
use modeling_unix.Base.{
  ℕ, zero, suc, ◌+◌, ◌-◌, ◌%◌, ◌^◌, ◌≤◌, ◌<◌, ◌≡◌, Bool, List, [], ◌∷◌, ◌==◌, length, get_or, set,
  replicate,
}

pub record Ring : Type 0 where
  pub buffer : List ℕ
  pub capacity : ℕ
  pub head : ℕ
  pub tail : ℕ

-- `(pos + 1) % capacity`
abbrev pub next : Ring → ℕ → ℕ
next r pos = (pos + 1) % 2 ^ 32 % r.capacity

abbrev pub empty : Ring → Bool
empty r = r.head == r.tail

abbrev pub full : Ring → Bool
full r = r.head == next r r.tail

-- the element in front, and the ring without it
abbrev pub front : Ring → ℕ
front r = get_or r.buffer (next r r.head) 0

unfoldable pub pop : Ring → Ring
pop r = record r { head = next r r.head }

unfoldable pub push : Ring → ℕ → Ring
push r item = record r { tail = next r r.tail; buffer = set r.buffer (next r r.tail) item }

pub record IsValid (r : Ring) : Type 0 where
  pub room : r.capacity ≤ length r.buffer
  pub small : r.capacity < 2 ^ 32
  pub head_in : r.head < r.capacity
  pub tail_in : r.tail < r.capacity

-- how many elements the ring holds
abbrev pub count : Ring → ℕ
count r = (r.tail + r.capacity - r.head) % r.capacity
