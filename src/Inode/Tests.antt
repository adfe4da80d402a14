-- ===== src/Inode/Tests.antt =====
-- Runs of filesys/inode.c, and its theorems at a small device.
use modeling_unix.Base.{
  Option, ℕ, zero, suc, ◌+◌, ◌-◌, ◌/◌, ◌%◌, ◌^◌, ◌<◌, ◌≡◌, ◌⊎◌, refl, true, some, List, [], ◌∷◌,
  length, map, take, max, arith,
}
use modeling_unix.Bitmap.{Bitmap, word}
use modeling_unix.Bitmap.View.{IsValid}
use modeling_unix.Inode.{
  Volume, lesser, byte_to_sector, inode_length, inode_read_at, inode_write_at,
}
use modeling_unix.Inode.Slots.{IsIndex}
use modeling_unix.Inode.Grant.{Taken}
use modeling_unix.Inode.Sector.{Outcome, byte_to_sector-Located}
use modeling_unix.Inode.Bytes.{file_byte, file_bytes, read_at-file_bytes}
use modeling_unix.Inode.Write.{Wrote}
use modeling_unix.Inode.RoundTrip.{write_at-read_at}
use modeling_unix.Inode.WriteLoop.{write_at-Wrote}
use modeling_unix.Inode.Open.Create.{
  created, created-IsIndex, blank-IsIndex, blank-Disjoint, inode_block-blank, inode_block-length,
}
use modeling_unix.Inode.Isolation.{Disjoint, write_at-isolated}

-- ten sectors; 0 and 1 are in use
abbrev device : Bitmap
device = record { bit_cnt = 10; bits = 3 ∷ [] }

device-IsValid : IsValid device
device-IsValid = record { room = omega arith; small = omega arith; fits = device_fits }
  where
    device_fits : (i : ℕ) → word device i < 2 ^ 32
    device_fits zero = omega arith
    device_fits (suc i) = omega arith

abbrev empty : Volume
empty = record { disk = λ t w. 0; free_map = device }

-- an empty file, and a file of 1000 bytes that is one hole, in the sector 1
abbrev pub file : Volume
file = created empty 1 0 0

abbrev hole : Volume
hole = created empty 1 1000 0

pub file-IsIndex : IsIndex file 1
file-IsIndex = created-IsIndex empty 1 0 0 device-IsValid (omega arith) refl (omega arith)

hole-IsIndex : IsIndex hole 1
hole-IsIndex = created-IsIndex empty 1 1000 0 device-IsValid (omega arith) refl (omega arith)

byte_to_sector-Located_example : Outcome file 1 (700 / 512) (byte_to_sector file 1 700 true)
byte_to_sector-Located_example = byte_to_sector-Located file 1 file-IsIndex 700 (omega arith)

read_at-file_bytes_example :
    inode_read_at hole 1 8 996
    ≡ some (file_bytes (lesser 8 (inode_length hole 1 - 996)) hole 1 996, hole)
read_at-file_bytes_example = read_at-file_bytes hole 1 8 996 hole-IsIndex

abbrev pub buffer : List ℕ
buffer = 7 ∷ 8 ∷ 9 ∷ []

write_at-Wrote_example :
    (n : ℕ) × (v' : Volume) × (inode_write_at file 1 0 buffer 510 ≡ some (n, v'))
    × Wrote file 1 510 buffer n (max (inode_length file 1) (510 + n)) v'
write_at-Wrote_example = write_at-Wrote file 1 buffer 510 file-IsIndex (omega arith)

write_at-read_at_example :
    (n : ℕ) × (v' : Volume) × (inode_write_at file 1 0 buffer 510 ≡ some (n, v'))
    × (inode_read_at v' 1 n 510 ≡ some (take n (map (λ b. b % 256) buffer), v'))
    × ((n ≡ length buffer) ⊎ ((n < length buffer) × Taken v'.free_map))
write_at-read_at_example = write_at-read_at file 1 buffer 510 file-IsIndex (omega arith)

-- a file that keeps what was last written to it
abbrev write_all : List ℕ → List ℕ → ℕ → Option (ℕ × List ℕ)
write_all old words size = some (size, words)

-- two empty files, in the sectors 1 and 2
abbrev two_files : Volume
two_files =
    created (created (record empty { free_map = record { bit_cnt = 10; bits = 7 ∷ [] } }) 1 0 0) 2 0
      0

two_files-IsValid : IsValid two_files.free_map
two_files-IsValid = record { room = omega arith; small = omega arith; fits = fits }
  where
    fits : (i : ℕ) → word two_files.free_map i < 2 ^ 32
    fits zero = omega arith
    fits (suc i) = omega arith

first-IsIndex : IsIndex two_files 1
first-IsIndex =
    blank-IsIndex two_files 1 two_files-IsValid (omega arith) refl (inode_block-blank 0 0)
      (omega (arith, inode_block-length 0 0))

second-IsIndex : IsIndex two_files 2
second-IsIndex =
    blank-IsIndex two_files 2 two_files-IsValid (omega arith) refl (inode_block-blank 0 0)
      (omega (arith, inode_block-length 0 0))

write_at-isolated_example :
    (n : ℕ) × (v' : Volume) × (inode_write_at two_files 1 0 buffer 510 ≡ some (n, v'))
    × IsIndex v' 2
    × (inode_length v' 2 ≡ inode_length two_files 2)
    × ((p : ℕ) → file_byte v' 2 p ≡ file_byte two_files 2 p)
    × Disjoint v' 1 2
write_at-isolated_example =
    write_at-isolated two_files 1 2 buffer 510 first-IsIndex second-IsIndex
      (blank-Disjoint two_files 1 2 (omega arith) (omega arith) (omega arith)
        (inode_block-blank 0 0) (inode_block-blank 0 0))
      (omega arith)
