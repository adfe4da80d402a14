-- ===== src/Palloc/Tests.antt =====
-- Runs of threads/palloc.c, and its theorems at two small pools.
use modeling_unix.Base.{
  ℕ, zero, suc, ◌+◌, ◌*◌, ◌^◌, ◌<◌, ◌≡◌, ◌⊎◌, refl, true, false, some, [], ◌∷◌, arith,
}
use modeling_unix.Bitmap.{
  bitmap_scan_and_flip, bitmap_contains, bitmap_test, bitmap_set_multiple, bitmap_set, word,
}
use modeling_unix.Bitmap.View.{bit}
use modeling_unix.Bitmap.Scan.{NoRun}
use modeling_unix.Palloc.{
  Pool, Pools, PallocFlags, page_size, palloc_get_multiple, hand_out, palloc_free_multiple,
}
use modeling_unix.Palloc.Pages.{IsPool, Got, get_multiple-Got}
use modeling_unix.Palloc.Free.{free-get}

-- five pages from 4096 on, the first one in use
abbrev kernel : Pool
kernel = record { used_map = record { bit_cnt = 5; bits = 1 ∷ [] }; base = 4096 }

abbrev pools : Pools
pools = record {
  kernel_pool = kernel;
  user_pool = record { used_map = record { bit_cnt = 4; bits = 0 ∷ [] }; base = 40960 };
  fills = [];
}

abbrev zeroed : PallocFlags
zeroed = record { pal_assert = false; pal_zero = true; pal_user = false }

-- the pools with the second and the third page of the kernel's in use
abbrev taken : Pools
taken = record {
  kernel_pool = record { used_map = record { bit_cnt = 5; bits = 7 ∷ [] }; base = 4096 };
  user_pool = pools.user_pool;
  fills = record { dst = 8192; value = 0; size = 8192 } ∷ [];
}

kernel-IsPool : IsPool kernel
kernel-IsPool = record {
  valid = record { room = omega arith; small = omega arith; fits = fits };
  aligned = refl;
  nonzero = omega arith;
  below = omega arith;
}
  where
    fits : (i : ℕ) → word kernel.used_map i < 2 ^ 32
    fits zero = omega arith
    fits (suc i) = omega arith

gets_two : palloc_get_multiple pools zeroed 2 ≡ some (8192, taken)
unfolding palloc_get_multiple hand_out bitmap_scan_and_flip bitmap_contains bitmap_test
    bitmap_set_multiple bitmap_set
gets_two = refl

get_multiple-Got_example :
    ((idx : ℕ) × (s' : Pools) × (palloc_get_multiple pools zeroed 2
        ≡ some (4096 + page_size * idx, s'))
      × Got pools false 2 idx s')
    ⊎ (NoRun (bit kernel.used_map) 0 4 2 false
        × (palloc_get_multiple pools zeroed 2 ≡ some (0, pools)))
get_multiple-Got_example = get_multiple-Got pools zeroed 2 (omega arith) kernel-IsPool

free-get_example :
    (s₂ : Pools) × (palloc_free_multiple taken 8192 2 ≡ some s₂)
    × ((j : ℕ) → bit s₂.kernel_pool.used_map j ≡ bit kernel.used_map j)
    × (s₂.user_pool ≡ pools.user_pool)
free-get_example =
    free-get pools taken zeroed 2 8192 (omega arith) kernel-IsPool (omega arith) gets_two
      (omega arith)
