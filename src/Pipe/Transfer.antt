-- ===== src/Pipe/Transfer.antt =====
-- What `pipe_read` and `pipe_write` of filesys/pipe.c move through the pipe.
use modeling_unix.Base.{
  ℕ, suc, ◌+◌, ◌<◌, ◌≡◌, ◌≢◌, refl, sym, ap, ◌∙◌, true, false, none, some, List, [], ◌∷◌, ◌++◌,
  arith, ◌==◌, length, length-append,
}
use mathlib.Core.List.{append-nil, append_assoc}
use modeling_unix.Monitor.{Outcome, done, waiting, ◌>>=◌}
use modeling_unix.Ring.{full, IsValid}
use modeling_unix.Pipe.{
  Pipe, try_dequeue, try_enqueue, pipe_dequeue, pipe_enqueue, read_loop, write_loop, pipe_read,
  pipe_write,
}
use modeling_unix.Pipe.Turns.{
  bytes, NonZero, Holds, Holds-trans, Holds-refl, try_dequeue-cons, try_dequeue-nil,
  try_enqueue-room, not_full, try_enqueue_broken, dequeue_of_try, enqueue_of_try,
}

-- what is left of a read once the bytes `xs` have been taken
abbrev then_bytes :
    List ℕ → Outcome (ℕ × List ℕ × Pipe × List Pipe) → Outcome (ℕ × List ℕ × Pipe × List Pipe)
then_bytes xs out = out >>= λ (total, bs, p, wakes). done (total, xs ++ bs, p, wakes)

then_bytes-nil : (out : Outcome (ℕ × List ℕ × Pipe × List Pipe)) → then_bytes [] out ≡ out
then_bytes-nil (done (total, bs, p, wakes)) = refl
then_bytes-nil waiting = refl

then_bytes-cons :
    (x : ℕ) (xs : List ℕ) (out : Outcome (ℕ × List ℕ × Pipe × List Pipe))
    → then_bytes (x ∷ []) (then_bytes xs out) ≡ then_bytes (x ∷ xs) out
then_bytes-cons x xs (done (total, bs, p, wakes)) = refl
then_bytes-cons x xs waiting = refl

module _ (wakes : List Pipe) where
  read_loop-suc :
      (n got x : ℕ) (p p' : Pipe)
      → pipe_dequeue wakes p ≡ done (x, p', wakes)
      → x ≢ 0
      → read_loop (suc n) wakes p got ≡ then_bytes (x ∷ []) (read_loop n wakes p' (got + 1))
  unfolding read_loop
  read_loop-suc n got x p p' e nz = rw e (ground arith)

  read_loop_end :
      (n got : ℕ) (p p' : Pipe)
      → pipe_dequeue wakes p ≡ done (0, p', wakes)
      → read_loop (suc n) wakes p got ≡ done (got, 0 ∷ [], p', wakes)
  unfolding read_loop
  read_loop_end n got p p' e = rw e

  read_loop-prefix :
      (xs ys : List ℕ) (p : Pipe) (k n : ℕ)
      → IsValid p.ring
      → bytes p ≡ xs ++ ys
      → NonZero xs
      → (p' : Pipe) × Holds p ys p'
        × (read_loop (length xs + k) wakes p n
            ≡ then_bytes xs (read_loop k wakes p' (n + length xs)))
  read_loop-prefix [] ys p k n ok e nz =
      let r : 0 + k ≡ k = omega arith in
      let r' : n + 0 ≡ n = omega arith in
      (p, rw (← e) (Holds-refl p ok), rw (r, r') (sym (then_bytes-nil (read_loop k wakes p n))))
  read_loop-prefix (x ∷ xs) ys p k n ok e nz =
      let (p₁, tried, took) = try_dequeue-cons p ok x (xs ++ ys) e in
      let (p₂, rest, ran) = read_loop-prefix xs ys p₁ k (n + 1) took.valid took.holds nz.1 in
      let s : suc (length xs) + k ≡ suc (length xs + k) = omega arith in
      let t : n + 1 + length xs ≡ n + suc (length xs) = omega arith in
      (
        p₂,
        Holds-trans p p₁ p₂ (xs ++ ys) ys took rest,
        rw (s, ← t)
            (read_loop-suc (length xs + k) n x p p₁ (dequeue_of_try wakes p x p₁ tried) nz.0
              ∙ ap (then_bytes (x ∷ [])) ran
              ∙ then_bytes-cons x xs (read_loop k wakes p₂ (n + 1 + length xs))),
      )

  -- A read of as many bytes as stand in front of the pipe, none of them 0, gives exactly these,
  -- waits for nothing, and leaves the others.
  pub read_exact :
      (xs ys : List ℕ) (p : Pipe)
      → IsValid p.ring
      → bytes p ≡ xs ++ ys
      → NonZero xs
      → (p' : Pipe) × Holds p ys p'
        × (pipe_read wakes p (length xs) ≡ done (length xs, xs, p', wakes))
  unfolding pipe_read
  read_exact xs ys p ok e nz =
      let (p', holds, ran) = read_loop-prefix xs ys p 0 0 ok e nz in
      let r : length xs + 0 ≡ length xs = omega arith in
      let r' : 0 + length xs ≡ length xs = omega arith in
      (p', holds, (rw r at ran) ∙ rw (r', append-nil))

  -- A byte 0 in the pipe ends a longer read there: the read takes the 0 too, and does not count it.
  pub read_zero :
      (xs ys : List ℕ) (p : Pipe) (k : ℕ)
      → IsValid p.ring
      → bytes p ≡ xs ++ 0 ∷ ys
      → NonZero xs
      → (p' : Pipe) × Holds p ys p'
        × (pipe_read wakes p (length xs + suc k) ≡ done (length xs, xs ++ 0 ∷ [], p', wakes))
  unfolding pipe_read
  read_zero xs ys p k ok e nz =
      let (p₁, holds, ran) = read_loop-prefix xs (0 ∷ ys) p (suc k) 0 ok e nz in
      let (p₂, tried, took) = try_dequeue-cons p₁ holds.valid 0 ys holds.holds in
      let r' : 0 + length xs ≡ length xs = omega arith in
      (
        p₂,
        Holds-trans p p₁ p₂ (0 ∷ ys) ys holds took,
        ran
            ∙ ap (then_bytes xs)
                (read_loop_end k (0 + length xs) p₁ p₂ (dequeue_of_try wakes p₁ 0 p₂ tried))
            ∙ rw r',
      )

  -- With the write end closed, a read of more bytes than are left gives what is left and ends with
  -- a byte 0: the end of the file.
  pub read_eof :
      (xs : List ℕ) (p : Pipe) (k : ℕ)
      → IsValid p.ring
      → bytes p ≡ xs
      → NonZero xs
      → p.write_end ≡ none
      → (p' : Pipe) × Holds p [] p'
        × (pipe_read wakes p (length xs + suc k) ≡ done (length xs, xs ++ 0 ∷ [], p', wakes))
  unfolding pipe_read
  read_eof xs p k ok e nz closed =
      let (p₁, holds, ran) = read_loop-prefix xs [] p (suc k) 0 ok (e ∙ sym (append-nil xs)) nz in
      let gone : p₁.write_end ≡ none = holds.same_write_end ∙ closed in
      let tried : try_dequeue p₁ ≡ some (0, p₁) =
        try_dequeue-nil p₁ holds.valid holds.holds ∙ rw gone in
      let r' : 0 + length xs ≡ length xs = omega arith in
      (
        p₁,
        holds,
        ran
            ∙ ap (then_bytes xs)
                (read_loop_end k (0 + length xs) p₁ p₁ (dequeue_of_try wakes p₁ 0 p₁ tried))
            ∙ rw r',
      )

  write_loop-suc :
      (xs : List ℕ) (n x : ℕ) (p p' : Pipe)
      → pipe_enqueue wakes p x ≡ done (p', wakes)
      → x ≢ 0
      → write_loop (x ∷ xs) wakes p n ≡ write_loop xs wakes p' (n + 1)
  unfolding write_loop
  write_loop-suc xs n x p p' e nz = let test : (x == 0) ≡ false = ground arith in rw (e, test)

  write_loop-room :
      (xs : List ℕ) (p : Pipe) (n : ℕ)
      → IsValid p.ring
      → length (bytes p) + length xs < p.ring.capacity
      → NonZero xs
      → (p' : Pipe) × Holds p (bytes p ++ xs) p'
        × (write_loop xs wakes p n ≡ done (n + length xs, p', wakes))
  unfolding write_loop
  write_loop-room [] p n ok room nz =
      (p, rw append-nil (Holds-refl p ok), ap (λ t. done (t, p, wakes)) (omega arith))
  write_loop-room (x ∷ xs) p n ok room nz =
      let (p₁, tried, put) = try_enqueue-room p ok x (not_full p ok (omega arith)) in
      let grown : length (bytes p₁) ≡ length (bytes p) + 1 =
        ap length put.holds ∙ length-append (bytes p) (x ∷ []) in
      let (p₂, rest, ran) =
        write_loop-room xs p₁ (n + 1) put.valid
          (omega (arith, grown, put.same_capacity, put.valid.head_in)) nz.1 in
      let t : n + 1 + length xs ≡ n + suc (length xs) = omega arith in
      (
        p₂,
        Holds-trans p p₁ p₂ (bytes p ++ (x ∷ [])) (bytes p ++ (x ∷ xs)) put (
            let q : bytes p₁ ++ xs ≡ bytes p ++ (x ∷ xs) =
              ap (λ l. l ++ xs) put.holds ∙ append_assoc (bytes p) (x ∷ []) xs in
            rw q at rest),
        rw (← t) (write_loop-suc xs n x p p₁ (enqueue_of_try wakes p x p₁ tried) nz.0 ∙ ran),
      )

  -- A write of bytes that fit, none of them 0, adds them all behind those in the pipe, in order,
  -- waits for nothing, and returns how many they are.
  pub write_fits :
      (xs : List ℕ) (p : Pipe)
      → IsValid p.ring
      → length (bytes p) + length xs < p.ring.capacity
      → NonZero xs
      → (p' : Pipe) × Holds p (bytes p ++ xs) p'
        × (pipe_write wakes p xs ≡ done (length xs, p', wakes))
  unfolding pipe_write
  write_fits xs p ok room nz =
      let (p', holds, ran) = write_loop-room xs p 0 ok room nz in
      let r' : 0 + length xs ≡ length xs = omega arith in (p', holds, rw r' at ran)

  -- What is written into an empty pipe is what a read of that many bytes then gives, if it fits and
  -- has no byte 0; the pipe is empty again.
  pub read-write :
      (xs : List ℕ) (p : Pipe)
      → IsValid p.ring
      → bytes p ≡ []
      → length xs < p.ring.capacity
      → NonZero xs
      → (p₁ p₂ : Pipe) × (pipe_write wakes p xs ≡ done (length xs, p₁, wakes))
        × (pipe_read wakes p₁ (length xs) ≡ done (length xs, xs, p₂, wakes))
        × Holds p [] p₂
  read-write xs p ok e room nz =
      let (p₁, put, wrote) = write_fits xs p ok (omega (arith, ap length e)) nz in
      let all : bytes p₁ ≡ xs ++ [] = put.holds ∙ ap (λ l. l ++ xs) e ∙ sym (append-nil xs) in
      let (p₂, took, got) = read_exact xs [] p₁ put.valid all nz in
      (p₁, p₂, wrote, got, Holds-trans p p₁ p₂ (bytes p ++ xs) [] put took)

  -- With the read end closed and the pipe full, `pipe_write` returns that it has written all of its
  -- bytes, and has written none: the pipe is as it was.
  pub write_broken :
      (xs : List ℕ) (p : Pipe)
      → full p.ring ≡ true
      → p.read_end ≡ none
      → NonZero xs
      → pipe_write wakes p xs ≡ done (length xs, p, wakes)
  unfolding pipe_write
  write_broken xs p f closed nz = lost xs 0 nz ∙ ap (λ t. done (t, p, wakes)) (omega arith)
    where
      tried : (x : ℕ) → try_enqueue p x ≡ some p
      tried x = try_enqueue_broken p f closed x

      lost :
          (xs : List ℕ) (n : ℕ)
          → NonZero xs
          → write_loop xs wakes p n ≡ done (n + length xs, p, wakes)
      lost [] n nz = ap (λ t. done (t, p, wakes)) (omega arith)
      lost (x ∷ xs) n nz =
          write_loop-suc xs n x p p (enqueue_of_try wakes p x p (tried x)) nz.0
          ∙ lost xs (n + 1) nz.1
          ∙ ap (λ t. done (t, p, wakes)) (omega arith)
