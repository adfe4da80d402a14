-- ===== src/Strings/Move.antt =====
-- `memcpy` and `memmove` of lib/string.c: blocks that may overlap.
use modeling_unix.Base.{
  ℕ, zero, suc, ◌+◌, ◌-◌, ◌≤◌, ◌<◌, ◌≡◌, ◌≢◌, ◌⊎◌, inl, inr, refl, sym, ap, ◌∙◌, false, some, ltb,
  ◌==◌, if◌then◌else◌, length, length-set, set, get_or-set_self, get_or-set_ne, arith, Bool-cases,
}
use modeling_unix.Strings.{Memory, copy_up, copy_down, memmove}
use modeling_unix.Strings.Memory.{byte, load_in, store_in}

-- In `m'` the block at `dst` has what the block at `src` had in `m`, and no other byte has changed.
pub record Copied (m : Memory) (dst src size : ℕ) (m' : Memory) : Type 0 where
  pub same_size : length m' ≡ length m
  pub copied : (i : ℕ) → i < size → byte m' (dst + i) ≡ byte m (src + i)
  pub kept : (j : ℕ) → (j < dst) ⊎ (dst + size ≤ j) → byte m' j ≡ byte m j

-- both blocks lie in the memory
abbrev pub Inside : Memory → (dst src size : ℕ) → Type 0
Inside m dst src size = (dst + size ≤ length m) × (src + size ≤ length m)

byte-set_other : (m : Memory) (p j v : ℕ) → p ≢ j → byte (set m p v) j ≡ byte m j
byte-set_other m p j v h = get_or-set_ne m p j v 0 h

byte-set_self : (m : Memory) (p v : ℕ) → p < length m → byte (set m p v) p ≡ v
byte-set_self m p v h = get_or-set_self m p v 0 h

byte_at : (m : Memory) (p q : ℕ) → p ≡ q → byte m p ≡ byte m q
byte_at m p q e = ap (byte m) e

-- The first byte is copied, and then the others from there on.
Copied-first :
    (n : ℕ) (m m' : Memory) (dst src : ℕ)
    → Inside m dst src (suc n)
    → (dst ≤ src) ⊎ (src + suc n ≤ dst)
    → Copied (set m dst (byte m src)) (dst + 1) (src + 1) n m'
    → Copied m dst src (suc n) m'
Copied-first n m m' dst src h apart c = record {
  same_size = c.same_size ∙ length-set m dst (byte m src);
  copied = copied;
  kept = λ j k. c.kept j (ground arith) ∙ byte-set_other m dst j (byte m src) (ground arith);
}
  where
    copied : (i : ℕ) → i < suc n → byte m' (dst + i) ≡ byte m (src + i)
    copied zero k =
        byte_at m' (dst + 0) dst (omega arith)
        ∙ c.kept dst (inl (omega arith))
        ∙ byte-set_self m dst (byte m src) (omega arith)
        ∙ byte_at m src (src + 0) (omega arith)
    copied (suc i) k =
        byte_at m' (dst + suc i) (dst + 1 + i) (omega arith)
        ∙ c.copied i (omega arith)
        ∙ byte-set_other m dst (src + 1 + i) (byte m src) (ground arith)
        ∙ byte_at m (src + 1 + i) (src + suc i) (omega arith)

-- The last byte is copied, and then the others before it.
Copied-last :
    (n : ℕ) (m m' : Memory) (dst src : ℕ)
    → Inside m dst src (suc n)
    → (src ≤ dst) ⊎ (dst + suc n ≤ src)
    → Copied (set m (dst + n) (byte m (src + n))) dst src n m'
    → Copied m dst src (suc n) m'
Copied-last n m m' dst src h apart c = record {
  same_size = c.same_size ∙ length-set m (dst + n) (byte m (src + n));
  copied = copied;
  kept = λ j k.
      c.kept j (ground arith) ∙ byte-set_other m (dst + n) j (byte m (src + n)) (ground arith);
}
  where
    copied : (i : ℕ) → i < suc n → byte m' (dst + i) ≡ byte m (src + i)
    copied i k = elim (Bool-cases (i == n)) [
      | inl e ↦
          let last : n ≡ i = ground arith in
          rw (sym last) (
            c.kept (dst + n) (inr (omega arith))
            ∙ byte-set_self m (dst + n) (byte m (src + n)) (omega arith))
      | inr e ↦
          c.copied i (ground arith)
          ∙ byte-set_other m (dst + n) (src + i) (byte m (src + n)) (ground arith)
    ]

-- Copying upwards is right where the destination does not start inside the source.
pub copy_up-Copied :
    (size : ℕ) (m : Memory) (dst src : ℕ)
    → Inside m dst src size
    → (dst ≤ src) ⊎ (src + size ≤ dst)
    → (m' : Memory) × (copy_up size m dst src ≡ some m') × Copied m dst src size m'
unfolding copy_up
copy_up-Copied zero m dst src h apart =
    (m, refl, record { same_size = refl; copied = λ i k. absurd (omega arith); kept = λ j k. refl })
copy_up-Copied (suc n) m dst src h apart =
    let m₁ = set m dst (byte m src) in
    let len : length m₁ ≡ length m = length-set m dst (byte m src) in
    let (m', ran, c) =
      copy_up-Copied n m₁ (dst + 1) (src + 1) (omega arith, omega arith) (ground arith) in
    (
      m',
      rw (load_in m src (omega arith), store_in m dst (byte m src) (omega arith)) ran,
      Copied-first n m m' dst src h apart c,
    )

-- Copying downwards is right where the source does not start inside the destination.
pub copy_down-Copied :
    (size : ℕ) (m : Memory) (dst src : ℕ)
    → Inside m dst src size
    → (src ≤ dst) ⊎ (dst + size ≤ src)
    → (m' : Memory) × (copy_down size m (dst + size) (src + size) ≡ some m')
      × Copied m dst src size m'
unfolding copy_down
copy_down-Copied zero m dst src h apart =
    (m, refl, record { same_size = refl; copied = λ i k. absurd (omega arith); kept = λ j k. refl })
copy_down-Copied (suc n) m dst src h apart =
    let m₁ = set m (dst + n) (byte m (src + n)) in
    let len : length m₁ ≡ length m = length-set m (dst + n) (byte m (src + n)) in
    let (m', ran, c) = copy_down-Copied n m₁ dst src (omega arith, omega arith) (ground arith) in
    let d : dst + suc n - 1 ≡ dst + n = omega arith in
    let s : src + suc n - 1 ≡ src + n = omega arith in
    (
      m',
      rw
          (
            d,
            s,
            load_in m (src + n) (omega arith),
            store_in m (dst + n) (byte m (src + n)) (omega arith),
          )
          ran,
      Copied-last n m m' dst src h apart c,
    )

-- Of two blocks of the memory that may overlap, `memmove` copies the one at `src` to `dst` and
-- changes no other byte; it returns the end of the destination where it copied upwards, and its
-- start otherwise.
pub memmove-Copied :
    (m : Memory) (dst src size : ℕ)
    → 0 < dst
    → 0 < src
    → Inside m dst src size
    → (m' : Memory) × (memmove m dst src size ≡ some (if ltb dst src then dst + size else dst, m'))
      × Copied m dst src size m'
unfolding memmove
memmove-Copied m dst src size hd hs h =
    let set_dst : (dst == 0) ≡ false = ground arith in
    let set_src : (src == 0) ≡ false = ground arith in
    elim (Bool-cases (ltb dst src)) [
      | inl e ↦
          let (m', ran, c) = copy_up-Copied size m dst src h (inl (ground arith)) in
          (m', rw (set_dst, set_src, e, ran) refl, c)
      | inr e ↦
          let (m', ran, c) = copy_down-Copied size m dst src h (inl (ground arith)) in
          (m', rw (set_dst, set_src, e, ran) refl, c)
    ]
