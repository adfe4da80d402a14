-- ===== src/Bitmap/View.antt =====
-- The array of bits that a bitmap of lib/kernel/bitmap.c stands for, and when it is well formed.
use modeling_unix.Base.{
  ℕ, ◌-◌, ◌*◌, ◌/◌, ◌%◌, ◌^◌, ◌≤◌, ◌<◌, ◌≡◌, ◌≢◌, refl, inl, inr, Bool, arith, ◌==◌, Bool-cases,
  length, get_or, set, length-set, get_or-set_self, get_or-set_ne,
}
use modeling_unix.Base.Bits.{digit}
use modeling_unix.Bitmap.{Bitmap, word}

-- The words have room for the bits, and no word or sum of bit numbers overflows.
pub record IsValid (b : Bitmap) : Type 0 where
  pub room : b.bit_cnt ≤ 32 * length b.bits
  pub small : b.bit_cnt < 2 ^ 32 - 32
  pub fits : (i : ℕ) → word b i < 2 ^ 32

-- bit number `j`
abbrev pub bit : Bitmap → ℕ → Bool
bit b j = digit (word b (j / 32)) (j % 32) == 1

-- what a bitmap looks like after a write of the value `v` to bit `idx`
pub record Updated (b : Bitmap) (idx : ℕ) (v : Bool) (b' : Bitmap) : Type 0 where
  pub valid : IsValid b'
  pub cnt : b'.bit_cnt ≡ b.bit_cnt
  pub hit : bit b' idx ≡ v
  pub miss : (j : ℕ) → j ≢ idx → bit b' j ≡ bit b j

-- A write of one word that changes the digit of `idx` to `v` and no other is such an update.
pub Updated-of_word :
    (b : Bitmap) (idx w : ℕ) (v : Bool)
    → IsValid b
    → idx < b.bit_cnt
    → w < 2 ^ 32
    → (digit w (idx % 32) == 1) ≡ v
    → ((k : ℕ) → k < 32 → k ≢ idx % 32 → digit w k ≡ digit (word b (idx / 32)) k)
    → Updated b idx v (record b { bits = set b.bits (idx / 32) w })
Updated-of_word b idx w v ok below small at_idx others = record {
  valid = record {
    room = omega (arith, ok.room, length-set b.bits (idx / 32) w);
    small = ok.small;
    fits = fits;
  };
  cnt = refl;
  hit = rw (get_or-set_self b.bits (idx / 32) w 0 inside) at_idx;
  miss = miss;
}
  where
    inside : idx / 32 < length b.bits
    inside = omega (arith, ok.room)

    elsewhere : (i : ℕ) → idx / 32 ≢ i → get_or (set b.bits (idx / 32) w) i 0 ≡ word b i
    elsewhere i ne = get_or-set_ne b.bits (idx / 32) i w 0 ne

    fits : (i : ℕ) → get_or (set b.bits (idx / 32) w) i 0 < 2 ^ 32
    fits i = elim (Bool-cases ((idx / 32) == i)) [
      | inl e ↦
          let p : i ≡ idx / 32 = ground arith in
          rw (p, get_or-set_self b.bits (idx / 32) w 0 inside) small
      | inr n ↦ rw (elsewhere i (ground arith)) (ok.fits i)
    ]

    miss :
        (j : ℕ)
        → j ≢ idx
        → (digit (get_or (set b.bits (idx / 32) w) (j / 32) 0) (j % 32) == 1) ≡ bit b j
    miss j ne = elim (Bool-cases ((idx / 32) == (j / 32))) [
      | inl e ↦
          let p : j / 32 ≡ idx / 32 = ground arith in
          rw (
            p,
            get_or-set_self b.bits (idx / 32) w 0 inside,
            others (j % 32) (omega arith) (omega arith),
          )
      | inr n ↦ rw (elsewhere (j / 32) (ground arith))
    ]
