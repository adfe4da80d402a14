-- ===== src/Bitmap/Tests.antt =====
-- Runs of lib/kernel/bitmap.c, and its theorems at concrete bitmaps.
use modeling_unix.Base.{ℕ, zero, suc, ◌^◌, ◌<◌, ◌≡◌, refl, false, some, none, [], ◌∷◌, arith}
use modeling_unix.Bitmap.{
  Bitmap, bitmap_error, word, bitmap_contains, bitmap_test, bitmap_scan, bitmap_scan_and_flip,
  last_mask,
}
use modeling_unix.Bitmap.View.{IsValid}
use modeling_unix.Bitmap.Scan.{Flipped, scan_and_flip-Flipped}

-- 40 bits in two words; bits 0, 2, 3 and 33 are set
abbrev sample : Bitmap
sample = record { bit_cnt = 40; bits = 13 ∷ 2 ∷ [] }

sample_fits : (i : ℕ) → word sample i < 2 ^ 32
sample_fits zero = omega arith
sample_fits (suc zero) = omega arith
sample_fits (suc (suc i)) = omega arith

sample-IsValid : IsValid sample
sample-IsValid = record { room = omega arith; small = omega arith; fits = sample_fits }

scan_runs :
    (bitmap_scan sample 0 3 false ≡ some 4)
    × (bitmap_scan sample 0 30 false ≡ some bitmap_error)
    × (bitmap_scan sample 41 1 false ≡ none)
unfolding bitmap_scan bitmap_contains bitmap_test
scan_runs = (refl, refl, refl)

scan_and_flip_runs : bitmap_scan_and_flip sample 3 30 false ≡ some (bitmap_error, sample)
unfolding bitmap_scan_and_flip bitmap_contains bitmap_test
scan_and_flip_runs = refl

-- 40 bits use 8 of the last word
last_mask_runs : last_mask sample ≡ 255
unfolding last_mask
last_mask_runs = refl

scan_and_flip-Flipped_example :
    (idx : ℕ) × (b' : Bitmap) × (bitmap_scan_and_flip sample 0 5 false ≡ some (idx, b'))
    × Flipped sample 0 5 false idx b'
scan_and_flip-Flipped_example = scan_and_flip-Flipped sample 0 5 false sample-IsValid (omega arith)
