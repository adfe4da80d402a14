-- ===== src/FreeMap/Tests.antt =====
-- Runs of filesys/free-map.c, and its theorems at a small device.
use modeling_unix.Base.{
  Bool, ℕ, zero, suc, ◌^◌, ◌<◌, ◌≡◌, refl, true, Option, some, none, List, [], ◌∷◌, arith,
}
use modeling_unix.Bitmap.{
  Bitmap, word, bitmap_mark, bitmap_create, bitmap_scan_and_flip, bitmap_set_multiple,
  bitmap_contains, bitmap_test, bitmap_set,
}
use modeling_unix.Bitmap.View.{IsValid, bit}
use modeling_unix.Bitmap.Scan.{Run}
use modeling_unix.FreeMap.{bitmap_write, free_map_init, free_map_allocate, free_map_release}
use modeling_unix.FreeMap.Laws.{Allocated, allocate-Allocated, release-allocate}

-- a file that keeps what was last written to it
abbrev write_all : List ℕ → List ℕ → ℕ → Option (ℕ × List ℕ)
write_all file words size = some (size, words)

-- ten sectors; 0 and 1 are in use
abbrev device : Bitmap
device = record { bit_cnt = 10; bits = 3 ∷ [] }

device-IsValid : IsValid device
device-IsValid = record { room = omega arith; small = omega arith; fits = device_fits }
  where
    device_fits : (i : ℕ) → word device i < 2 ^ 32
    device_fits zero = omega arith
    device_fits (suc i) = omega arith

-- the device with sectors 2 to 4 handed out, then 5 and 6
abbrev device₁ : Bitmap
device₁ = record { bit_cnt = 10; bits = 31 ∷ [] }

abbrev device₂ : Bitmap
device₂ = record { bit_cnt = 10; bits = 127 ∷ [] }

init_runs :
    free_map_init true (some (0xdead ∷ [])) 10 ≡ some (record { bit_cnt = 10; bits = 0xdc03 ∷ [] })
unfolding free_map_init bitmap_create bitmap_mark bitmap_set
init_runs = refl

allocate_runs :
    (free_map_allocate device 3 ≡ some (some 2, device₁))
    × (free_map_allocate device 9 ≡ some (none, device))
unfolding free_map_allocate bitmap_scan_and_flip bitmap_set_multiple bitmap_contains bitmap_test
    bitmap_set
allocate_runs = (refl, refl)

allocate_again : free_map_allocate device₁ 2 ≡ some (some 5, device₂)
unfolding free_map_allocate bitmap_scan_and_flip bitmap_set_multiple bitmap_contains bitmap_test
    bitmap_set
allocate_again = refl

used-Run : Run (bit device) 0 2 true
used-Run zero lo hi = refl
used-Run (suc zero) lo hi = refl
used-Run (suc (suc j)) lo hi = absurd (omega arith)

allocate-Allocated_example :
    (r : Option ℕ) × (m' : Bitmap) × (free_map_allocate device 3 ≡ some (r, m'))
    × Allocated device 3 r m'
allocate-Allocated_example = allocate-Allocated device 3 device-IsValid

release-allocate_example :
    (m₂ : Bitmap) × (file' : List ℕ) × (done : Bool) × (free_map_release write_all device₁ [] 2 3
      ≡ some (m₂, file'))
    × (bitmap_write write_all m₂ [] ≡ some (done, file'))
    × IsValid m₂
    × (m₂.bit_cnt ≡ 10)
    × ((j : ℕ) → bit m₂ j ≡ bit device j)
release-allocate_example =
    release-allocate write_all (λ f w n. ((n, w), refl)) device device₁ [] 3 2 device-IsValid
      (allocate_runs.0)
