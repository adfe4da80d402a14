-- ===== src/Inode/Open/Tests.antt =====
-- Runs of the list of open inodes of filesys/inode.c, and its theorems at small systems.
use modeling_unix.Base.{
  Option, ℕ, zero, suc, ◌^◌, ◌<◌, ◌≡◌, ◌≢◌, refl, true, some, none, List, [], ◌∷◌, arith,
}
use modeling_unix.Bitmap.{Bitmap, word}
use modeling_unix.Bitmap.View.{IsValid}
use modeling_unix.Inode.{Volume, inode_read_at}
use modeling_unix.Inode.Slots.{IsIndex}
use modeling_unix.Inode.Open.{
  System, new_inode, inode_open, open_found, find_sector, inode_close, inode_create,
}
use modeling_unix.Inode.Open.Table.{WellFormed}
use modeling_unix.Inode.Open.Sharing.{Reach, here, next, opened, Reach-WellFormed}
use modeling_unix.Inode.Open.Pairs.{close-open}
use modeling_unix.Inode.Open.Create.{created, create-IsIndex}

-- ten sectors; 0 and 1 are in use
abbrev device : Bitmap
device = record { bit_cnt = 10; bits = 3 ∷ [] }

device-IsValid : IsValid device
device-IsValid = record { room = omega arith; small = omega arith; fits = device_fits }
  where
    device_fits : (i : ℕ) → word device i < 2 ^ 32
    device_fits zero = omega arith
    device_fits (suc i) = omega arith

abbrev file : Volume
file = created (record { disk = λ t w. 0; free_map = device }) 1 0 0

-- a file that keeps what was last written to it
abbrev write_all : List ℕ → List ℕ → ℕ → Option (ℕ × List ℕ)
write_all old words size = some (size, words)

-- no open inodes, and one that is open at the address 64
abbrev idle : System
idle = record { volume = file; open_inodes = [] }

abbrev busy : System
busy = record { volume = file; open_inodes = new_inode 64 1 ∷ [] }

open_runs : inode_open idle 1 (some 64) ≡ some (some 64, busy)
unfolding inode_open open_found find_sector
open_runs = refl

close-open_example : inode_close write_all busy [] (some 64) ≡ some (idle, [])
close-open_example = close-open write_all idle busy [] 1 64 (some 64) tt tt tt open_runs

opening : Reach write_all idle busy
opening = next here (opened 1 64 (some 64) tt tt open_runs)

Reach-WellFormed_example : WellFormed busy.open_inodes
Reach-WellFormed_example = Reach-WellFormed write_all opening tt

abbrev blank : Volume
blank = record { disk = λ t w. 0; free_map = device }

create-IsIndex_example :
    (v : Volume) × (inode_create write_all (record idle { volume = blank }) [] 1 0 1 none
      ≡ some (true, record idle { volume = v }, []))
    × IsIndex v 1
    × ((size offset : ℕ) → inode_read_at v 1 size offset ≡ some ([], v))
    × ((t w : ℕ) → t ≢ 1 → v.disk t w ≡ blank.disk t w)
    × (v.free_map ≡ blank.free_map)
create-IsIndex_example =
    create-IsIndex write_all (record idle { volume = blank }) [] 1 1 none device-IsValid
      (omega arith) refl
