-- ===== src/Bitmap/Single.antt =====
-- The operations of lib/kernel/bitmap.c on one bit, against the array of bits.
use Prim.Native.Nat.{bit_and, bit_or, bit_xor, differ}
use modeling_unix.Base.{
  ℕ, zero, suc, ◌/◌, ◌%◌, ◌^◌, ◌<◌, ◌≡◌, ◌≢◌, refl, Bool, true, false, not, some, arith, ◌==◌,
  lt→ltb,
}
use modeling_unix.Base.Bits.{
  digit, digit-lt, digit-bit_and, digit-bit_or, digit-bit_xor, digit_pow, digit_complement,
  bit_and_pow, one-le-pow, pow-lt, bit_or-lt, bit_and-le, bit_xor-lt,
}
use modeling_unix.Bitmap.{
  Bitmap, word, elem_idx, bit_mask, complement, bitmap_mark, bitmap_reset, bitmap_flip, bitmap_set,
  bitmap_test,
}
use modeling_unix.Bitmap.View.{IsValid, bit, Updated, Updated-of_word}

mask-lt : (idx : ℕ) → bit_mask idx < 2 ^ 32
mask-lt idx = pow-lt (idx % 32) 32 (omega arith)

digit-mask_self : (idx : ℕ) → digit (bit_mask idx) (idx % 32) ≡ 1
digit-mask_self idx = ground (arith, digit_pow (idx % 32) (idx % 32))

digit-mask_ne : (idx k : ℕ) → k ≢ idx % 32 → digit (bit_mask idx) k ≡ 0
digit-mask_ne idx k ne = ground (arith, digit_pow (idx % 32) k)

differ_zero : (d : ℕ) → differ d 0 ≡ d
differ_zero zero = refl
differ_zero (suc d) = refl

differ_one : (d : ℕ) → d < 2 → (differ d 1 == 1) ≡ not (d == 1)
differ_one zero h = refl
differ_one (suc zero) h = refl
differ_one (suc (suc d)) h = absurd (omega arith)

module _ (b : Bitmap) (idx : ℕ) (ok : IsValid b) (below : idx < b.bit_cnt) where
  abbrev old : ℕ
  old = word b (elem_idx idx)

  pub mark-Updated : Updated b idx true (bitmap_mark b idx)
  unfolding bitmap_mark
  mark-Updated =
      Updated-of_word b idx (bit_or old (bit_mask idx)) true ok below
        (bit_or-lt 32 old (bit_mask idx) (ok.fits (idx / 32)) (mask-lt idx))
        (ground (
          arith,
          digit-bit_or (idx % 32) old (bit_mask idx),
          digit-mask_self idx,
          digit-lt old (idx % 32),
        ))
        (λ k p ne. omega (arith, digit-bit_or k old (bit_mask idx), digit-mask_ne idx k ne))

  pub reset-Updated : Updated b idx false (bitmap_reset b idx)
  unfolding bitmap_reset
  reset-Updated =
      Updated-of_word b idx (bit_and old (complement (bit_mask idx))) false ok below
        (omega (arith, bit_and-le old (complement (bit_mask idx)), ok.fits (idx / 32)))
        (ground (
          arith,
          digit-bit_and (idx % 32) old (complement (bit_mask idx)),
          digit_complement 32 (idx % 32) (bit_mask idx) (mask-lt idx) (omega arith),
          digit-mask_self idx,
        ))
        (λ k p ne. omega (
          arith,
          digit-bit_and k old (complement (bit_mask idx)),
          digit_complement 32 k (bit_mask idx) (mask-lt idx) p,
          digit-mask_ne idx k ne,
          digit-lt old k,
        ))

  pub flip-Updated : Updated b idx (not (bit b idx)) (bitmap_flip b idx)
  unfolding bitmap_flip
  flip-Updated =
      Updated-of_word b idx (bit_xor old (bit_mask idx)) (not (bit b idx)) ok below
        (bit_xor-lt 32 old (bit_mask idx) (ok.fits (idx / 32)) (mask-lt idx))
        (rw (digit-bit_xor (idx % 32) old (bit_mask idx), digit-mask_self idx)
          (differ_one (digit old (idx % 32)) (digit-lt old (idx % 32))))
        (λ k p ne.
          rw (digit-bit_xor k old (bit_mask idx), digit-mask_ne idx k ne)
            (differ_zero (digit old k)))

  -- Inside the range the test reads the bit.
  pub test-eq-bit : bitmap_test b idx ≡ some (bit b idx)
  unfolding bitmap_test
  test-eq-bit =
      rw (lt→ltb _ _ below, bit_and_pow (idx % 32) old)
        (ground (arith, digit-lt old (idx % 32), one-le-pow (idx % 32)))

  -- At a bit that the map has, `bitmap_set` passes its ASSERT, and changes that bit alone.
  pub set-Updated : (v : Bool) → (b' : Bitmap) × (bitmap_set b idx v ≡ some b') × Updated b idx v b'
  unfolding bitmap_set
  set-Updated true = (bitmap_mark b idx, rw (lt→ltb _ _ below), mark-Updated)
  set-Updated false = (bitmap_reset b idx, rw (lt→ltb _ _ below), reset-Updated)
