-- ===== src/Inode/Slots.antt =====
-- The places of an inode's index that name a sector: the inode itself, its two pointers to tables,
-- the tables of the doubly indirect table, and one place for each sector of the file's data.
use modeling_unix.Base.{
  ◌^◌, ℕ, ◌+◌, ◌-◌, ◌/◌, ◌%◌, ◌<◌, ◌≡◌, ◌≢◌, refl, true, ltb, ◌==◌, if◌then◌else◌, arith,
}
use modeling_unix.Bitmap.View.{IsValid, bit}
use modeling_unix.Inode.{Disk, Volume, no_sector}

-- Place 0 is the inode, 1 and 2 its pointers, `3 + k` the doubly indirect table's entry `k`, and
-- `131 + m` the `m`-th sector of the data.
abbrev pub first_data : ℕ
first_data = 131

abbrev pub places : ℕ
places = 16766

-- which place has the table that a place stands in, and at which word
abbrev pub data_owner : ℕ → ℕ
data_owner m = if ltb m 123 then 0 else if ltb m 251 then 1 else 3 + (m - 251) / 128

abbrev pub data_word : ℕ → ℕ
data_word m = if ltb m 123 then 3 + m else if ltb m 251 then m - 123 else (m - 251) % 128

abbrev pub owner : ℕ → ℕ
owner r = if ltb r 3 then 0 else if ltb r 131 then 2 else data_owner (r - 131)

abbrev pub word : ℕ → ℕ
word r = if ltb r 3 then 125 + r else if ltb r 131 then r - 3 else data_word (r - 131)

-- A table that is not there has no entries.
abbrev pub entry : Disk → (table word : ℕ) → ℕ
entry d t w = if t == no_sector then no_sector else d t w

pub top_slot : Disk → (inode place : ℕ) → ℕ
top_slot d i r = if r == 0 then i else entry d i (word r)

pub table_slot : Disk → (inode place : ℕ) → ℕ
unfolding top_slot
table_slot d i r = if ltb r 3 then top_slot d i r else entry d (top_slot d i 2) (word r)

-- the sector number at a place
unfoldable pub slot : Disk → (inode place : ℕ) → ℕ
unfolding table_slot
slot d i r = if ltb r 131 then table_slot d i r else entry d (table_slot d i (owner r)) (word r)

pub slot_zero : (d : Disk) (i : ℕ) → slot d i 0 ≡ i
unfolding slot
slot_zero d i = refl

-- A place's sector number is read in its owner's table.
pub slot-owner :
    (d : Disk) (i r : ℕ) → 0 < r → r < places → slot d i r ≡ entry d (slot d i (owner r)) (word r)
unfolding slot
slot-owner d i r h k = ground arith

-- Two places of one table have different words.
pub place_inj :
    (r q : ℕ)
    → 0 < r
    → 0 < q
    → r < places
    → q < places
    → owner r ≡ owner q
    → word r ≡ word q
    → r ≡ q
place_inj r q hr hq kr kq o w = ground arith

pub owner-lt : (r : ℕ) → 0 < r → r < places → (owner r < r) × (owner r < 131)
owner-lt r h k = ground arith

-- The places name sectors that are in use, no two the same, and the length is not negative.
pub record IsIndex (v : Volume) (i : ℕ) : Type 0 where
  pub valid : IsValid v.free_map
  pub inode_real : i ≢ no_sector
  pub length_small : v.disk i 0 < 2 ^ 31
  pub on_device :
      (r : ℕ) → r < places → slot v.disk i r ≢ no_sector → slot v.disk i r < v.free_map.bit_cnt
  pub used :
      (r : ℕ) → r < places → slot v.disk i r ≢ no_sector → bit v.free_map (slot v.disk i r) ≡ true
  pub apart :
      (r q : ℕ)
      → r < places
      → q < places
      → r ≢ q
      → slot v.disk i r ≢ no_sector
      → slot v.disk i r ≢ slot v.disk i q
