-- ===== src/Inode/Close.antt =====
-- `inode_close` of filesys/inode.c, the part that gives the sectors of a removed file back. The free
-- map is written to its own file: that write is a parameter, and it leaves the sectors that are read
-- here as they were.
pub mod Steps
pub mod Release
use modeling_unix.Base.{
  ◌≡◌, refl, ℕ, zero, suc, ◌+◌, ◌-◌, ◌*◌, ◌/◌, ◌^◌, Bool, true, false, Option, none, some, List,
  ltb, ◌==◌, if◌then◌else◌, ◌>>=◌,
}
use modeling_unix.FreeMap.{free_map_release}
use modeling_unix.Inode.{
  Volume, no_sector, num_indirect, block_sector_size, indirect_word, double_indirect_word,
  byte_to_sector, inode_length,
}

abbrev pub bytes_to_sectors : (size : ℕ) → ℕ
bytes_to_sectors size = (size + (block_sector_size - 1)) / block_sector_size

module _ {File : Type 0} (write_at : File → List ℕ → (size : ℕ) → Option (ℕ × File)) where
  -- a sector that is given back where a pointer names it
  abbrev pub release_sector : Volume → File → (sector : ℕ) → Option (Volume × File)
  release_sector v file sector =
      if sector == no_sector
      then some (v, file)
      else (free_map_release write_at v.free_map file sector 1 >>= λ (map, file').
          some (record v { free_map = map }, file'))

  -- The loop over the data, with as many rounds as the length asks for.
  pub release_data : (fuel : ℕ) → Volume → File → (inode pos : ℕ) → Option (Volume × File)
  release_data zero v file inode pos = some (v, file)
  release_data (suc fuel) v file inode pos =
      if ltb pos (inode_length v inode)
      then (byte_to_sector v inode pos false >>= λ (sector, v').
          release_sector v' file sector >>= λ (v'', file').
          release_data fuel v'' file' inode (pos + block_sector_size))
      else some (v, file)

  -- the loop over `n` entries of the doubly indirect table, from `i` on
  pub release_tables : (n : ℕ) → Volume → File → (table i : ℕ) → Option (Volume × File)
  release_tables zero v file table i = some (v, file)
  release_tables (suc n) v file table i = release_sector v file (v.disk table i) >>= λ (v', file').
      release_tables n v' file' table (i + 1)

  pub release_blocks : Volume → File → (inode : ℕ) → Option (Volume × File)
  release_blocks v file inode = do
    (v₁, file₁) ← release_data (bytes_to_sectors (inode_length v inode)) v file inode 0
    (v₂, file₂) ← release_sector v₁ file₁ (v₁.disk inode indirect_word)
    let double_indirect = v₂.disk inode double_indirect_word
    (v₃, file₃) ←
        (if double_indirect == no_sector
          then some (v₂, file₂)
          else (release_tables num_indirect v₂ file₂ double_indirect 0 >>= λ (v', file').
              free_map_release write_at v'.free_map file' double_indirect 1 >>= λ (map, file'').
              some (record v' { free_map = map }, file'')))
    (map, file₄) ← free_map_release write_at v₃.free_map file₃ inode 1
    some (record v₃ { free_map = map }, file₄)
