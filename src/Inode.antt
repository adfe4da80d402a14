-- ===== src/Inode.antt =====
-- filesys/inode.c, the contents of a file: the multi-level index of its sectors, reads and writes.
-- The buffer cache gives each sector's last contents, so a `Disk` is a map from a sector and a word's
-- number to that 32-bit word; `cache_read_ahead` changes no contents. An inode is the number of its
-- sector. `none` is a PANIC of the block layer, or a failed ASSERT: a sector that the device does not
-- have is refused where the code reads its block. A block that is written whole is not read first.
pub mod Slots
pub mod Install
pub mod Frame
pub mod Grant
pub mod Kept
pub mod Lookup
pub mod Sector
pub mod Read
pub mod Bytes
pub mod Words
pub mod Keep
pub mod Write
pub mod WriteLoop
pub mod RoundTrip
pub mod Isolation
pub mod Close
pub mod Open
pub mod Tests
use modeling_unix.Base.{
  ℕ, zero, suc, ◌+◌, ◌-◌, ◌*◌, ◌/◌, ◌%◌, ◌^◌, Bool, true, false, not, ◌&&◌, ◌||◌, Option, none,
  some, List, [], ◌∷◌, ◌++◌, ltb, leb, ◌==◌, if◌then◌else◌, take, drop, length, replicate, ◌>>=◌,
  ◌>>◌, assert,
}
use modeling_unix.Bitmap.{Bitmap}
use modeling_unix.FreeMap.{free_map_allocate}

abbrev pub Disk : Type 0
Disk = (sector word : ℕ) → ℕ

-- the sector numbers -1 and -2
abbrev pub no_sector : ℕ
no_sector = 2 ^ 32 - 1

abbrev pub no_space : ℕ
no_space = 2 ^ 32 - 2

abbrev pub num_direct : ℕ
num_direct = 123

abbrev pub num_indirect : ℕ
num_indirect = 128

abbrev pub num_double_indirect : ℕ
num_double_indirect = 16384

abbrev pub block_sector_size : ℕ
block_sector_size = 512

-- the words of `struct inode_disk`, with `direct[i]` at `direct_word i`
abbrev pub length_word : ℕ
length_word = 0

abbrev pub is_dir_word : ℕ
is_dir_word = 1

abbrev pub direct_word : ℕ → ℕ
direct_word i = 3 + i

abbrev pub indirect_word : ℕ
indirect_word = 126

abbrev pub double_indirect_word : ℕ
double_indirect_word = 127

-- The device has as many sectors as the free map has bits.
pub record Volume : Type 0 where
  pub disk : Disk
  pub free_map : Bitmap

abbrev pub put_word : Disk → (sector word value : ℕ) → Disk
put_word d s w v = λ t j. if t == s && j == w then v else d t j

abbrev pub fill_sector : Disk → (sector value : ℕ) → Disk
fill_sector d s v = λ t j. if t == s then v else d t j

abbrev pub is_sector : ℕ → Bool
is_sector s = not (s == no_sector) && not (s == no_space)

-- the answer of `free_map_allocate (1, …)`, and what is done to the disk with a new sector
pub grant : Volume → (ℕ → Disk) → Option (ℕ × Volume)
grant v install = free_map_allocate v.free_map 1 >>= λ (r, map). elim r [
  | none ↦ some (no_space, record v { free_map = map })
  | some n ↦ some (n, record { disk = install n; free_map = map })
]

pub access_indirect_block : Volume → (indirect : ℕ) → (write : Bool) → Option (ℕ × Volume)
unfolding grant
access_indirect_block v indirect write =
    if indirect == no_sector
    then (if write then grant v (λ n. fill_sector v.disk n no_sector) else some (no_sector, v))
    else some (indirect, v)

-- The end of each lookup: the entry `word` of the table in the sector `table`, which is filled in
-- on a write.
pub lookup_entry : Volume → (table word : ℕ) → (write : Bool) → Option (ℕ × Volume)
unfolding grant
lookup_entry v table word write =
    let sector = v.disk table word in
    if sector == no_sector
    then (if write then grant v (λ n. put_word v.disk table word n) else some (no_sector, v))
    else some (sector, v)

pub lookup_direct_table : Volume → (inode mapping : ℕ) → (write : Bool) → Option (ℕ × Volume)
lookup_direct_table v inode mapping write = lookup_entry v inode (direct_word mapping) write

-- A pointer at `word` of `table`: its sector, which is made on a write, is noted there.
pub follow : Volume → (table word : ℕ) → (write : Bool) → Option (ℕ × Volume)
unfolding access_indirect_block
follow v table word write = access_indirect_block v (v.disk table word) write >>= λ (s, v').
    some (s, if is_sector s then record v' { disk = put_word v'.disk table word s } else v')

pub lookup_indirect_table : Volume → (inode mapping : ℕ) → (write : Bool) → Option (ℕ × Volume)
unfolding follow
lookup_indirect_table v inode mapping write =
    follow v inode indirect_word write >>= λ (indirect, v').
    if is_sector indirect
    then lookup_entry v' indirect (mapping - num_direct) write
    else some (indirect, v')

pub lookup_double_indirect_table :
    Volume → (inode mapping : ℕ) → (write : Bool) → Option (ℕ × Volume)
unfolding follow
lookup_double_indirect_table v inode mapping write =
    let index = mapping - num_direct - num_indirect in
    follow v inode double_indirect_word write >>= λ (double_indirect, v').
    if is_sector double_indirect
    then (follow v' double_indirect (index / num_indirect) write >>= λ (indirect, v'').
        if is_sector indirect
        then lookup_entry v'' indirect (index % num_indirect) write
        else some (indirect, v''))
    else some (double_indirect, v')

-- The code also marks the blocks that it changes as dirty; here a changed block is a changed disk.
pub byte_to_sector : Volume → (inode pos : ℕ) → (write : Bool) → Option (ℕ × Volume)
unfolding lookup_direct_table lookup_indirect_table lookup_double_indirect_table
byte_to_sector v inode pos write =
    let mapping = pos / block_sector_size in
    if ltb mapping num_direct
    then lookup_direct_table v inode mapping write
    else if ltb mapping (num_direct + num_indirect)
    then lookup_indirect_table v inode mapping write
    else if ltb mapping (num_direct + num_indirect + num_double_indirect)
    then lookup_double_indirect_table v inode mapping write
    else some (no_sector, v)

-- Of type `off_t`, which is signed: the word reads the same below 2^31, as Slots has it for a well-formed
-- index.
pub inode_length : Volume → (inode : ℕ) → ℕ
inode_length v inode = v.disk inode length_word

pub inode_is_dir : Volume → (inode : ℕ) → Bool
inode_is_dir v inode = v.disk inode is_dir_word == 1

-- the byte at `ofs` of a sector: its words are little endian
abbrev pub get_byte : Disk → (sector ofs : ℕ) → ℕ
get_byte d s ofs = d s (ofs / 4) / 256 ^ (ofs % 4) % 256

abbrev pub put_byte : Disk → (sector ofs byte : ℕ) → Disk
put_byte d s ofs byte =
    put_word d s (ofs / 4)
      (d s (ofs / 4) - get_byte d s ofs * 256 ^ (ofs % 4) + byte % 256 * 256 ^ (ofs % 4))

-- `memcpy` from and to a sector's data
pub get_bytes : (size : ℕ) → Disk → (sector ofs : ℕ) → List ℕ
get_bytes zero d s ofs = []
get_bytes (suc n) d s ofs = get_byte d s ofs ∷ get_bytes n d s (ofs + 1)

pub put_bytes : List ℕ → Disk → (sector ofs : ℕ) → Disk
put_bytes [] d s ofs = d
put_bytes (byte ∷ bytes) d s ofs = put_bytes bytes (put_byte d s ofs byte) s (ofs + 1)

abbrev pub lesser : ℕ → ℕ → ℕ
lesser a b = if ltb a b then a else b

-- A block whose sector the device has. Beyond the device the code stops where it reads a block that is
-- not in the cache. Only the sector -1 can be cached, after a write of a whole sector past the largest
-- size of a file; which blocks the cache holds is not in this model, and it stops there too.
abbrev pub check_sector : Volume → ℕ → Option (Unit {0})
check_sector v sector = assert (ltb sector v.free_map.bit_cnt)

-- The loop of `inode_read_at`, with the bytes that it puts into the buffer. Each round but the last
-- takes at least one of the `size` bytes.
pub read_loop : (fuel : ℕ) → Volume → (inode length size offset : ℕ) → Option (List ℕ × Volume)
unfolding byte_to_sector get_bytes
read_loop zero v inode len size offset = some ([], v)
read_loop (suc fuel) v inode len size offset =
    let sector_ofs = offset % block_sector_size in
    let min_left = lesser (len - offset) (block_sector_size - sector_ofs) in
    let chunk_size = lesser size min_left in
    let rest =
      λ (v' : Volume). read_loop fuel v' inode len (size - chunk_size) (offset + chunk_size) in
    if size == 0
    then some ([], v)
    else (byte_to_sector v inode offset false >>= λ (sector, v').
        if chunk_size == 0
        then some ([], v')
        else if sector == no_sector
        then (rest v' >>= λ (bytes, v''). some (replicate chunk_size 0 ++ bytes, v''))
        else (check_sector v' sector
            >> (rest v' >>= λ (bytes, v'').
                some (get_bytes chunk_size v'.disk sector sector_ofs ++ bytes, v''))))

pub inode_read_at : Volume → (inode size offset : ℕ) → Option (List ℕ × Volume)
unfolding read_loop inode_length
inode_read_at v inode size offset =
    let len = inode_length v inode in
    if ltb len offset then some ([], v) else read_loop size v inode len size offset

-- The loop of `inode_write_at`: how many bytes it writes, and where it stops.
pub write_loop : (fuel : ℕ) → Volume → (inode : ℕ) → List ℕ → (offset : ℕ) → Option (ℕ × ℕ × Volume)
unfolding byte_to_sector put_bytes
write_loop zero v inode buffer offset = some (0, offset, v)
write_loop (suc fuel) v inode buffer offset =
    let sector_ofs = offset % block_sector_size in
    let chunk_size = lesser (length buffer) (block_sector_size - sector_ofs) in
    let rest =
      λ (v' : Volume). write_loop fuel v' inode (drop chunk_size buffer) (offset + chunk_size) in
    if length buffer == 0
    then some (0, offset, v)
    else (byte_to_sector v inode offset true >>= λ (sector, v').
        if sector == no_space
        then some (0, offset, v')
        else ((if sector_ofs == 0 && chunk_size == block_sector_size
              then some tt
              else check_sector v' sector)
            >> (rest (record v' {
              disk = put_bytes (take chunk_size buffer) v'.disk sector sector_ofs;
            })
                >>= λ (written, end_offset, v''). some (chunk_size + written, end_offset, v''))))

-- `denied` is `inode->deny_write_cnt`.
pub inode_write_at : Volume → (inode denied : ℕ) → List ℕ → (offset : ℕ) → Option (ℕ × Volume)
unfolding write_loop inode_length
inode_write_at v inode denied buffer offset =
    if not (denied == 0)
    then some (0, v)
    else (write_loop (length buffer) v inode buffer offset >>= λ (written, end_offset, v'). some (
      written,
      if ltb (inode_length v' inode) end_offset
          then record v' { disk = put_word v'.disk inode length_word end_offset }
          else v',
    ))
