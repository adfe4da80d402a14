-- ===== src/FreeMap.antt =====
-- filesys/free-map.c: the sectors of the file system device that are in use, one bit for each.
-- `none` is a failed ASSERT or a PANIC. The free map's file is a file of filesys/file.c, which stands on
-- this map: its type, and the write to it, which may stop the kernel, are parameters.
pub mod Laws
mod Tests
use modeling_unix.Base.{
  ℕ, ◌+◌, ◌*◌, Bool, true, false, not, Option, none, some, List, ltb, ◌==◌, if◌then◌else◌, ◌>>=◌,
  ◌>>◌, assert,
}
use modeling_unix.Bitmap.{
  Bitmap, bitmap_error, byte_cnt, bitmap_create, bitmap_mark, bitmap_all, bitmap_set_multiple,
  bitmap_scan_and_flip,
}

abbrev pub free_map_sector : ℕ
free_map_sector = 0

abbrev pub root_dir_sector : ℕ
root_dir_sector = 1

-- `room` and `storage` are what `bitmap_create` gets from malloc, `sectors` is the device's size.
pub free_map_init : (room : Bool) (storage : Option (List ℕ)) (sectors : ℕ) → Option Bitmap
free_map_init room storage sectors = bitmap_create room storage sectors >>= λ made. elim made [
  | none ↦ none
  | some b ↦ some (bitmap_mark (bitmap_mark b free_map_sector) root_dir_sector)
]

-- The answer, with the sector that goes through `sectorp` where it is true, and the new map.
pub free_map_allocate : Bitmap → (cnt : ℕ) → Option (Option ℕ × Bitmap)
free_map_allocate free_map cnt = bitmap_scan_and_flip free_map 0 cnt false >>= λ (sector, map').
    some (if sector == bitmap_error then none else some sector, map')

module _ {File : Type 0} (write_at : File → List ℕ → (size : ℕ) → Option (ℕ × File)) where
  -- `bitmap_write`: all the words go to the start of the file.
  pub bitmap_write : Bitmap → File → Option (Bool × File)
  bitmap_write b file = write_at file b.bits (byte_cnt b.bit_cnt) >>= λ (written, file').
      some (written == byte_cnt b.bit_cnt, file')

  pub free_map_release : Bitmap → File → (sector cnt : ℕ) → Option (Bitmap × File)
  unfolding bitmap_write
  free_map_release free_map file sector cnt = do
    used ← bitmap_all free_map sector cnt
    assert used
    map' ← bitmap_set_multiple free_map sector cnt false
    (done, file') ← bitmap_write map' file
    some (map', file')

  -- It PANICs where the file cannot be written.
  pub free_map_close : Bitmap → File → Option File
  unfolding bitmap_write
  free_map_close free_map file =
      bitmap_write free_map file >>= λ (done, file'). if done then some file' else none
