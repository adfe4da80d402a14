-- ===== src/Malloc.antt =====
-- lib/user/malloc.c: the allocator of user programs, on a heap of 32-bit words. Pointers are numbers of
-- words, so they wrap around at 2^30; a word that holds a boundary tag is given by its fields. The
-- signed field `int size:30` is given by what it reads as where it is converted to `size_t`. The links of the free lists, which stand in the free blocks' payloads, are lists of blocks.
pub mod Layout
pub mod Tiling
pub mod Lists
pub mod Join
pub mod Payload
pub mod Merge
pub mod Coalesce
pub mod Extend
pub mod Place
pub mod Split
pub mod Search
pub mod Allocate
mod Tests
use modeling_unix.Base.{
  ℕ, zero, suc, ◌+◌, ◌-◌, ◌*◌, ◌/◌, ◌%◌, ◌^◌, max, Bool, true, false, not, ◌&&◌, ◌||◌, Option, none,
  some, List, [], ◌∷◌, ◌++◌, ltb, leb, ◌==◌, if◌then◌else◌, assert, ◌>>=◌, ◌>>◌,
}

-- What a number reads as after it was written to a signed bit-field of 30 bits: from 2^29 on it is
-- negative, and `size_t` extends the sign.
abbrev pub int30 : (n : ℕ) → ℕ
int30 n = let m = n % 2 ^ 30 in if ltb m (2 ^ 29) then m else m + (2 ^ 32 - 2 ^ 30)

pub record Tag : Type 0 where
  pub inuse : Bool
  pub pinuse : Bool
  pub size : ℕ

abbrev pub fence : Tag
fence = record { inuse = true; pinuse = false; size = 0 }

pub record Heap : Type 0 where
  pub tags : ℕ → Tag
  pub listp : ℕ
  pub seg_list : ℕ → List ℕ
  pub brk : ℕ  -- the end of the data segment

abbrev pub upd {ℓ} : {A : Type ℓ} → (ℕ → A) → ℕ → A → ℕ → A
upd f i v t = if i == t then v else f t

abbrev pub min_block_size_words : ℕ
min_block_size_words = 8

abbrev pub chunksize : ℕ
chunksize = 2 ^ 7

pub align : (size : ℕ) → ℕ
align size = (size + 15) % 2 ^ 32 / 16 * 16

-- the number of the list for a free block of this size
pub get_list : (size : ℕ) → ℕ
get_list size =
    if leb 32768 size
    then 15
    else if leb 16384 size
    then 14
    else if leb 8192 size
    then 13
    else if leb 4096 size
    then 12
    else if leb 2048 size
    then 11
    else if leb 1024 size
    then 10
    else if leb 512 size
    then 9
    else if leb 256 size
    then 8
    else if ltb 128 size
    then 7
    else if leb 64 size
    then 6
    else if leb 32 size
    then 5
    else if leb 16 size
    then 4
    else if leb 8 size
    then 3
    else if leb 4 size
    then 2
    else if leb 2 size
    then 1
    else 0

abbrev pub list_empty : List ℕ → Bool
list_empty [] = true
list_empty (x ∷ xs) = false

-- where the search for a block of this size starts
pub get_non_empty_list : (ℕ → List ℕ) → (size : ℕ) → ℕ
get_non_empty_list l size =
    if leb size 8 && not (list_empty (l 0))
    then 0
    else if leb size 24 && not (list_empty (l 1))
    then 1
    else if leb size 48 && not (list_empty (l 2))
    then 2
    else if leb size 80 && not (list_empty (l 3))
    then 3
    else if leb size 160 && not (list_empty (l 4))
    then 4
    else if leb size 320 && not (list_empty (l 5))
    then 5
    else if leb size 640 && not (list_empty (l 6))
    then 6
    else if leb size 960 && not (list_empty (l 7))
    then 7
    else if leb size 512 && not (list_empty (l 8))
    then 8
    else if leb size 1024 && not (list_empty (l 9))
    then 9
    else if leb size 2048 && not (list_empty (l 10))
    then 10
    else if leb size 4096 && not (list_empty (l 11))
    then 11
    else if leb size 8192 && not (list_empty (l 12))
    then 12
    else if leb size 16384 && not (list_empty (l 13))
    then 13
    else if leb size 32768 && not (list_empty (l 14))
    then 14
    else 15

abbrev pub remove : ℕ → List ℕ → List ℕ
remove a [] = []
remove a (x ∷ xs) = if x == a then xs else x ∷ remove a xs

-- An element is unlinked from the list that it is in.
abbrev pub list_remove : ℕ → Heap → Heap
list_remove a h = record h { seg_list = λ i. remove a (h.seg_list i) }

abbrev pub list_push_back : (size : ℕ) → ℕ → Heap → Heap
list_push_back size a h =
    let i = get_list size in record h { seg_list = upd h.seg_list i (h.seg_list i ++ (a ∷ [])) }

abbrev pub put : ℕ → Tag → Heap → Heap
put a t h = record h { tags = upd h.tags a t }

abbrev pub set_pinuse : ℕ → Bool → Heap → Heap
set_pinuse a b h = put a (record (h.tags a) { pinuse = b }) h

abbrev pub next_blk : Heap → ℕ → Option ℕ
next_blk h blk = let n = (h.tags blk).size in assert (not (n == 0)) >> some ((blk + n) % 2 ^ 30)

abbrev pub prev_blk : Heap → ℕ → Option ℕ
prev_blk h blk =
    let n = (h.tags (blk - 1)).size in
    assert (not (n == 0)) >> some ((blk + (2 ^ 30 - n % 2 ^ 30)) % 2 ^ 30)

abbrev pub set_header_and_footer : ℕ → ℕ → Bool → Heap → Heap
set_header_and_footer blk size inuse h =
    let n = int30 size in
    let t : Tag = record (h.tags blk) { inuse = inuse; size = n } in
    put ((blk + n + (2 ^ 30 - 1)) % 2 ^ 30) t (put blk t h)

abbrev pub mark_block_used : ℕ → ℕ → Heap → Option Heap
mark_block_used blk size h =
    let h' = put blk (record (h.tags blk) { inuse = true; size = int30 size }) h in
    next_blk h' blk >>= λ n. some (set_pinuse n true h')

abbrev pub mark_block_free : ℕ → ℕ → Heap → Option Heap
mark_block_free blk size h =
    let h' = set_header_and_footer blk size false h in
    next_blk h' blk >>= λ n. some (set_pinuse n false h')

-- the end of the three cases of `coalesce` that join blocks
abbrev pub put_back : ℕ → Heap → ℕ × Heap
put_back blk h = (blk, list_push_back (h.tags blk).size blk h)

abbrev pub merge : (prev_alloc next_alloc : Bool) → (bp next size : ℕ) → Heap → Option (ℕ × Heap)
merge true true bp next size h = some (bp, h)
merge true false bp next size h = mark_block_free bp (size + (h.tags next).size) h >>= λ h'.
    some (put_back bp (list_remove bp (list_remove next h')))
merge false true bp next size h = prev_blk h bp >>= λ prev.
    mark_block_free prev (size + (h.tags prev).size) h >>= λ h'.
    some (put_back prev (list_remove prev (list_remove bp h')))
merge false false bp next size h = prev_blk h bp >>= λ prev.
    mark_block_free prev (size + (h.tags next).size + (h.tags prev).size) h >>= λ h'.
    prev_blk h' bp >>= λ prev'.
    some (put_back prev' (list_remove prev' (list_remove next (list_remove bp h'))))

pub coalesce : (bp : ℕ) → Heap → Option (ℕ × Heap)
coalesce bp h = next_blk h bp >>= λ next.
    merge (h.tags bp).pinuse (h.tags next).inuse bp next (h.tags bp).size h

-- `room` is the kernel's answer to `sbrk`, from the break and the words that are asked for.
pub extend_heap : (room : ℕ → ℕ → Bool) → (words : ℕ) → Heap → Option (Option ℕ × Heap)
extend_heap room words h =
    if room h.brk words
    then (let blk = h.brk - 1 in
        mark_block_free blk words (record h { brk = h.brk + words }) >>= λ h'.
        next_blk h' blk >>= λ next.
        let h'' = put next fence h' in
        coalesce blk (list_push_back (h''.tags blk).size blk h'') >>= λ (bp, h3).
        some (some bp, h3))
    else some (none, h)

abbrev pub minus_32 : ℕ → ℕ → ℕ
minus_32 a b = (a + (2 ^ 32 - b % 2 ^ 32)) % 2 ^ 32

-- `place` of a block of `csize` words, of which `left` are left
abbrev pub place_left : (bp asize csize left : ℕ) → Heap → Option Heap
place_left bp asize csize left h =
    if leb min_block_size_words left
    then (mark_block_used bp asize h >>= λ h'. next_blk h' bp >>= λ next.
        mark_block_free next left h' >>= λ h''.
        coalesce next (list_push_back (h''.tags next).size next h'') >>= λ r. some r.1)
    else mark_block_used bp csize h

pub place : (bp asize : ℕ) → Heap → Option Heap
place bp asize h =
    let csize = (h.tags bp).size in place_left bp asize csize (minus_32 csize asize) h

-- The inner loop of `find_fit`, with its count of the blocks that were too small.
abbrev pub scan_list : (ℕ → Tag) → (asize : ℕ) → List ℕ → (check : ℕ) → Option ℕ × ℕ
scan_list tags asize [] check = (none, check)
scan_list tags asize (bp ∷ bps) check =
    let rest = scan_list tags asize bps (check + 1) in
    if leb asize (tags bp).size
    then (some bp, check)
    else if leb 50 (check + 1)
    then (none, check + 1)
    else rest

abbrev pub found_or : Option ℕ × ℕ → (ℕ → Option ℕ) → Option ℕ
found_or (some bp, check) next = some bp
found_or (none, check) next = next check

-- its outer loop, over the `left` lists from `index` on
abbrev pub scan_lists : (left : ℕ) → Heap → (asize index check : ℕ) → Option ℕ
scan_lists zero h asize index check = none
scan_lists (suc left) h asize index check =
    found_or (scan_list h.tags asize (h.seg_list index) check)
      (λ c. scan_lists left h asize (index + 1) c)

pub find_fit : (asize : ℕ) → Heap → Option ℕ
find_fit asize h =
    let index = get_non_empty_list h.seg_list asize in scan_lists (16 - index) h asize index 0

pub mm_init : (room : ℕ → ℕ → Bool) → Heap → Option Heap
mm_init room h =
    if room h.brk 4
    then (let h' : Heap = record {
      tags = upd (upd h.tags (h.brk + 2) fence) (h.brk + 3) (record fence { pinuse = true });
      listp = h.brk + 3;
      seg_list = λ i. [];
      brk = h.brk + 4;
    } in
        extend_heap room chunksize h' >>= λ (bp, h''). some h'')
    else some h

-- the block's size in words for a request in bytes
pub adjusted : (size : ℕ) → ℕ
adjusted size = max min_block_size_words (align ((size + 4) % 2 ^ 32) / 4)

-- the end of `malloc`: a pointer to the payload
abbrev pub take_block : (asize bp : ℕ) → Heap → Option (Option ℕ × Heap)
take_block asize bp h = place bp asize (list_remove bp h) >>= λ h'. some (some (bp + 1), h')

abbrev pub grow : (room : ℕ → ℕ → Bool) → (awords : ℕ) → Option ℕ × Heap → Option (Option ℕ × Heap)
grow room awords (none, h) = some (none, h)
grow room awords (some bp, h) = take_block awords bp h

abbrev pub get_block :
    (room : ℕ → ℕ → Bool) → (awords : ℕ) → Option ℕ → Heap → Option (Option ℕ × Heap)
get_block room awords (some bp) h = take_block awords bp h
get_block room awords none h = extend_heap room (max awords chunksize) h >>= λ r. grow room awords r

-- Without a heap the search would read the lists' null pointers.
abbrev pub malloc_in : (room : ℕ → ℕ → Bool) → (size : ℕ) → Heap → Option (Option ℕ × Heap)
malloc_in room size h =
    if size == 0
    then some (none, h)
    else assert (not (h.listp == 0))
      >> get_block room (adjusted size) (find_fit (adjusted size) h) h

pub malloc : (room : ℕ → ℕ → Bool) → (size : ℕ) → Heap → Option (Option ℕ × Heap)
malloc room size h =
    (if h.listp == 0 then mm_init room h else some h) >>= λ h'. malloc_in room size h'

pub free : (bp : ℕ) → Heap → Option Heap
free bp h =
    assert (not (h.listp == 0))
    >> (if bp == 0
        then some h
        else (let blk = bp - 1 in
            let h' = list_push_back (h.tags blk).size blk h in
            mark_block_free blk (h'.tags blk).size h' >>= λ h''.
            coalesce blk h'' >>= λ (b, h3). some h3))
