-- ===== src/Inode/Open.antt =====
-- The open inodes of filesys/inode.c: opening, closing, removal, and the denial of writes. A pointer
-- to a `struct inode` is the address that malloc gave, and `none` is the null pointer. A use of an
-- address that is not of an open inode has the result `none`, as a failed ASSERT or a PANIC. An open
-- is one step here: the code gives the list's lock up between its search and its insertion.
pub mod Create
mod Tests
pub mod Table
pub mod Sharing
pub mod Overlap
pub mod Pairs
use modeling_unix.Base.{
  ◌≡◌, refl, ℕ, zero, suc, ◌+◌, ◌-◌, ◌%◌, ◌^◌, Bool, true, false, not, Option, none, some, List, [],
  ◌∷◌, ltb, leb, ◌==◌, if◌then◌else◌, ◌>>=◌, ◌>>◌, assert,
}
use modeling_unix.Inode.{
  Disk, Volume, no_sector, length_word, is_dir_word, direct_word, check_sector, inode_write_at,
}
use modeling_unix.Inode.Close.{release_blocks}

pub record Inode : Type 0 where
  pub address : ℕ
  pub sector : ℕ
  pub open_cnt : ℕ
  pub removed : Bool
  pub deny_write_cnt : ℕ

pub record System : Type 0 where
  pub volume : Volume
  pub open_inodes : List Inode

-- an `int` that is counted up and down
abbrev pub count_up : ℕ → ℕ
count_up n = (n + 1) % 2 ^ 32

abbrev pub count_down : ℕ → ℕ
count_down n = (n + (2 ^ 32 - 1)) % 2 ^ 32

pub find_sector : (sector : ℕ) → List Inode → Option Inode
find_sector s [] = none
find_sector s (x ∷ xs) = if x.sector == s then some x else find_sector s xs

-- the inode that a pointer is to
pub find_address : (address : ℕ) → List Inode → Option Inode
find_address a [] = none
find_address a (x ∷ xs) = if x.address == a then some x else find_address a xs

-- the inode with the address of `y` becomes `y`
pub store : Inode → List Inode → List Inode
store y [] = []
store y (x ∷ xs) = if x.address == y.address then y ∷ xs else x ∷ store y xs

-- `list_remove`
pub list_remove : (address : ℕ) → List Inode → List Inode
list_remove a [] = []
list_remove a (x ∷ xs) = if x.address == a then xs else x ∷ list_remove a xs

abbrev pub put_inode : System → Inode → System
put_inode s y = record s { open_inodes = store y s.open_inodes }

pub inode_reopen : System → (inode : Option ℕ) → Option (Option ℕ × System)
inode_reopen s none = some (none, s)
inode_reopen s (some a) = find_address a s.open_inodes >>= λ x.
    some (some a, put_inode s (record x { open_cnt = count_up x.open_cnt }))

abbrev pub new_inode : (address sector : ℕ) → Inode
new_inode a sector = record {
  address = a;
  sector = sector;
  open_cnt = 1;
  removed = false;
  deny_write_cnt = 0;
}

-- Once the list was searched: `room` is what malloc gives.
pub open_found :
    System → (sector : ℕ) → (room : Option ℕ) → (found : Option Inode) → Option (Option ℕ × System)
open_found s sector room (some x) = inode_reopen s (some x.address)
open_found s sector none none = some (none, s)
open_found s sector (some a) none =
    check_sector s.volume sector
    >> some (some a, record s { open_inodes = new_inode a sector ∷ s.open_inodes })

pub inode_open : System → (sector : ℕ) → (room : Option ℕ) → Option (Option ℕ × System)
inode_open s sector room = open_found s sector room (find_sector sector s.open_inodes)

pub inode_remove : System → (inode : Option ℕ) → Option System
inode_remove s none = none
inode_remove s (some a) =
    find_address a s.open_inodes >>= λ x. some (put_inode s (record x { removed = true }))

pub inode_deny_write : System → (inode : ℕ) → Option System
inode_deny_write s a = find_address a s.open_inodes >>= λ x.
    assert (leb (count_up x.deny_write_cnt) x.open_cnt)
    >> some (put_inode s (record x { deny_write_cnt = count_up x.deny_write_cnt }))

pub inode_allow_write : System → (inode : ℕ) → Option System
inode_allow_write s a = find_address a s.open_inodes >>= λ x.
    assert (ltb 0 x.deny_write_cnt)
    >> assert (leb x.deny_write_cnt x.open_cnt)
    >> some (put_inode s (record x { deny_write_cnt = count_down x.deny_write_cnt }))

module _ {File : Type 0} (write_at : File → List ℕ → (size : ℕ) → Option (ℕ × File)) where
  pub inode_close : System → File → (inode : Option ℕ) → Option (System × File)
  inode_close s file none = some (s, file)
  inode_close s file (some a) = find_address a s.open_inodes >>= λ x.
      let open_cnt = count_down x.open_cnt in
      if not (open_cnt == 0)
      then some (put_inode s (record x { open_cnt = open_cnt }), file)
      else if not x.removed
      then some (record s { open_inodes = list_remove a s.open_inodes }, file)
      else (release_blocks write_at s.volume file x.sector >>= λ (v, file').
          some (record { volume = v; open_inodes = list_remove a s.open_inodes }, file'))

-- the block of a new inode
pub inode_block : (length is_dir word : ℕ) → ℕ
inode_block length is_dir w =
    if w == length_word
    then length
    else if w == is_dir_word
    then is_dir
    else if ltb w (direct_word 0)
    then 0
    else no_sector

abbrev pub put_block : Disk → (sector : ℕ) → (ℕ → ℕ) → Disk
put_block d s block = λ t w. if t == s then block w else d t w

module _ {File : Type 0} (write_at : File → List ℕ → (size : ℕ) → Option (ℕ × File)) where
  -- The inode that `inode_open` gave, where a write of its last byte fails or not.
  abbrev pub extend : System → File → (inode sector length : ℕ) → Option (Bool × System × File)
  extend s file a sector length = find_address a s.open_inodes >>= λ x.
      inode_write_at s.volume sector x.deny_write_cnt (0 ∷ []) (length - 1) >>= λ (written, v).
      let s' = record s { volume = v } in
      if written == 1
      then (inode_close write_at s' file (some a) >>= λ (s'', file'). some (true, s'', file'))
      else (inode_remove s' (some a) >>= λ removed.
          inode_close write_at removed file (some a) >>= λ (s'', file'). some (false, s'', file'))

  pub inode_create :
      System → File → (sector length is_dir : ℕ) → (room : Option ℕ) → Option (Bool × System × File)
  inode_create s file sector length is_dir room =
      let v = record s.volume {
        disk = put_block s.volume.disk sector (inode_block length is_dir);
      } in
      let s₁ = record s { volume = v } in
      if ltb 0 length
      then (inode_open s₁ sector room >>= λ (inode, s₂). elim inode [
        | none ↦ inode_remove s₂ none >>= λ s'. some (false, s', file)
        | some a ↦ extend s₂ file a sector length
      ])
      else some (true, s₁, file)
