-- ===== src/Pipe/Turns.antt =====
-- One turn of `pipe_dequeue` and of `pipe_enqueue` in filesys/pipe.c, on the bytes of the pipe.
use modeling_unix.Base.{
  ℕ, suc, ◌-◌, ◌<◌, ◌≡◌, ◌≢◌, refl, sym, ◌∙◌, true, false, none, some, List, [], ◌∷◌, ◌++◌, arith,
  if◌then◌else◌, length, Bool-cases, inl, inr,
}
use modeling_unix.Monitor.{done, items_avail, slots_avail}
use modeling_unix.Ring.{empty, full, front, pop, push, IsValid}
use modeling_unix.Ring.Laws.{
  contents, length-contents, empty_iff, full_iff, pop-IsValid, push-IsValid, contents-pop,
  contents-push, capacity-pop, capacity-push,
}
use modeling_unix.Pipe.{Pipe, is_null, try_dequeue, try_enqueue, pipe_dequeue, pipe_enqueue}

-- the bytes in the pipe, the oldest first
abbrev pub bytes : Pipe → List ℕ
bytes p = contents p.ring

abbrev pub NonZero : List ℕ → Type 0
NonZero [] = Unit
NonZero (x ∷ xs) = (x ≢ 0) × NonZero xs

-- `p'` is the pipe `p` with the bytes `xs` in it.
pub record Holds (p : Pipe) (xs : List ℕ) (p' : Pipe) : Type 0 where
  pub valid : IsValid p'.ring
  pub holds : bytes p' ≡ xs
  pub same_read_end : p'.read_end ≡ p.read_end
  pub same_write_end : p'.write_end ≡ p.write_end
  pub same_capacity : p'.ring.capacity - 1 ≡ p.ring.capacity - 1

pub Holds-trans : (p p₁ p₂ : Pipe) (xs ys : List ℕ) → Holds p xs p₁ → Holds p₁ ys p₂ → Holds p ys p₂
Holds-trans p p₁ p₂ xs ys a b = record {
  valid = b.valid;
  holds = b.holds;
  same_read_end = b.same_read_end ∙ a.same_read_end;
  same_write_end = b.same_write_end ∙ a.same_write_end;
  same_capacity = b.same_capacity ∙ a.same_capacity;
}

pub Holds-refl : (p : Pipe) → IsValid p.ring → Holds p (bytes p) p
Holds-refl p ok = record {
  valid = ok;
  holds = refl;
  same_read_end = refl;
  same_write_end = refl;
  same_capacity = refl;
}

pub nil≢cons : (x : ℕ) (xs : List ℕ) → ¬ ([] ≡ x ∷ xs)
nil≢cons x xs e = cc

module _ (p : Pipe) (ok : IsValid p.ring) where
  pub try_dequeue-cons :
      (x : ℕ) (rest : List ℕ)
      → bytes p ≡ x ∷ rest
      → (p' : Pipe) × (try_dequeue p ≡ some (x, p')) × Holds p rest p'
  unfolding try_dequeue
  try_dequeue-cons x rest e = elim (Bool-cases (empty p.ring)) [
    | inl none_left ↦ absurd (nil≢cons x rest (sym ((empty_iff ok).0 none_left) ∙ e))
    | inr filled ↦
        let split : front p.ring ∷ contents (pop p.ring) ≡ x ∷ rest =
          sym (contents-pop ok filled) ∙ e in
        let is_x : front p.ring ≡ x = cc in
        let is_rest : contents (pop p.ring) ≡ rest = cc in
        (
          record p { ring = pop p.ring; notified = slots_avail ∷ p.notified },
          rw (filled, is_x),
          record {
            valid = pop-IsValid ok;
            holds = is_rest;
            same_read_end = refl;
            same_write_end = refl;
            same_capacity = capacity-pop p.ring;
          },
        )
  ]

  -- with nothing in the pipe, a byte 0 where the write end is closed, a wait where it is open
  pub try_dequeue-nil :
      bytes p ≡ [] → try_dequeue p ≡ (if is_null p.write_end then some (0, p) else none)
  unfolding try_dequeue
  try_dequeue-nil e = rw ((empty_iff ok).1 e)

  pub try_enqueue-room :
      (x : ℕ)
      → full p.ring ≡ false
      → (p' : Pipe) × (try_enqueue p x ≡ some p') × Holds p (bytes p ++ (x ∷ [])) p'
  unfolding try_enqueue
  try_enqueue-room x room = (
    record p { ring = push p.ring x; notified = items_avail ∷ p.notified },
    rw room,
    record {
      valid = push-IsValid ok x;
      holds = contents-push ok x room;
      same_read_end = refl;
      same_write_end = refl;
      same_capacity = capacity-push p.ring x;
    },
  )

  pub not_full : suc (length (bytes p)) < p.ring.capacity → full p.ring ≡ false
  not_full h = ground (arith, full_iff ok, length-contents p.ring)

pub try_enqueue_broken :
    (p : Pipe) → full p.ring ≡ true → p.read_end ≡ none → (x : ℕ) → try_enqueue p x ≡ some p
unfolding try_enqueue
try_enqueue_broken p f closed x = ground arith

-- A turn under the lock that does not wait leaves the later states alone.
pub dequeue_of_try :
    (wakes : List Pipe) (p : Pipe) (x : ℕ) (p' : Pipe)
    → try_dequeue p ≡ some (x, p')
    → pipe_dequeue wakes p ≡ done (x, p', wakes)
unfolding pipe_dequeue
dequeue_of_try [] p x p' e = ground arith
dequeue_of_try (q ∷ wakes) p x p' e = ground arith

pub enqueue_of_try :
    (wakes : List Pipe) (p : Pipe) (x : ℕ) (p' : Pipe)
    → try_enqueue p x ≡ some p'
    → pipe_enqueue wakes p x ≡ done (p', wakes)
unfolding pipe_enqueue
enqueue_of_try [] p x p' e = ground arith
enqueue_of_try (q ∷ wakes) p x p' e = ground arith
