-- ===== src/Strings/Memory.antt =====
-- The memory of lib/string.c: what a load and a store do to its bytes, and strings in it.
use modeling_unix.Base.{
  ℕ, zero, suc, ◌+◌, ◌-◌, ◌<◌, ◌≡◌, ◌≢◌, refl, ap, ◌∙◌, false, some, [], ◌∷◌, lt→ltb, ◌==◌, length,
  get_or, set, arith,
}
use modeling_unix.Strings.{Memory, load, store, strlen_loop, strlen}

abbrev pub byte : Memory → ℕ → ℕ
byte m p = get_or m p 0

pub load_in : (m : Memory) (p : ℕ) → p < length m → load m p ≡ some (byte m p)
load_in [] p h = absurd (omega arith)
load_in (x ∷ xs) zero h = refl
load_in (x ∷ xs) (suc p) h = load_in xs p (omega arith)

pub store_in : (m : Memory) (p v : ℕ) → p < length m → store m p v ≡ some (set m p v)
store_in m p v h = rw (lt→ltb p (length m) h) refl

-- A null-terminated string of `n` characters starts at `p`.
pub record IsString (m : Memory) (p n : ℕ) : Type 0 where
  pub ends : p + n < length m
  pub nonzero : (i : ℕ) → i < n → byte m (p + i) ≢ 0
  pub terminated : byte m (p + n) ≡ 0

-- the walk along the rest of a string, `i` characters from its start
strlen_loop-rest :
    (fuel : ℕ) (m : Memory) (p n i left : ℕ)
    → IsString m p n
    → i + left ≡ n
    → left < fuel
    → strlen_loop fuel m p (p + i) ≡ some n
unfolding strlen_loop
strlen_loop-rest zero m p n i left ok e h = absurd (omega arith)
strlen_loop-rest (suc fuel) m p n i zero ok e h =
    let at_end : p + i ≡ p + n = omega arith in
    let dist : p + n - p ≡ n = omega arith in
    rw (at_end, load_in m (p + n) ok.ends, ok.terminated, dist) refl
strlen_loop-rest (suc fuel) m p n i (suc left) ok e h =
    let more : (byte m (p + i) == 0) ≡ false = ground (arith, ok.nonzero i (omega arith)) in
    let assoc : p + i + 1 ≡ p + (i + 1) = omega arith in
    rw (load_in m (p + i) (omega (arith, ok.ends)), more, assoc)
      (strlen_loop-rest fuel m p n (i + 1) left ok (omega arith) (omega arith))

-- `strlen` of a string is the number of its characters.
pub strlen-IsString : (m : Memory) (p n : ℕ) → 0 < p → IsString m p n → strlen m p ≡ some n
unfolding strlen
strlen-IsString m p n h ok =
    let set_up : (p == 0) ≡ false = ground arith in
    let start : p ≡ p + 0 = omega arith in
    rw set_up (
      ap (λ q. strlen_loop (length m) m p q) start
      ∙ strlen_loop-rest (length m) m p n 0 n ok (omega arith) (omega (arith, ok.ends)))
