-- ===== src/Palloc.antt =====
-- threads/palloc.c: the two pools of pages, each with a bitmap of the pages in use. The contents of
-- the pages are not in the model: `fills` lists the calls of `memset`, the newest first. `none` is a
-- PANIC or a failed ASSERT.
pub mod Pages
pub mod Free
mod Tests
use modeling_unix.Base.{
  ◌^◌, ℕ, ◌+◌, ◌-◌, ◌*◌, ◌/◌, ◌%◌, Bool, true, false, not, ◌&&◌, ◌||◌, Option, none, some, List, [],
  ◌∷◌, ltb, leb, ◌==◌, if◌then◌else◌, ◌>>=◌, ◌>>◌, assert,
}
use modeling_unix.Bitmap.{
  Bitmap, bitmap_error, bitmap_scan_and_flip, bitmap_all, bitmap_set_multiple, bitmap_buf_size,
  bitmap_create_in_buf, bitmap_size,
}

-- `struct pool`, without its lock
pub record Pool : Type 0 where
  pub used_map : Bitmap
  pub base : ℕ

-- a call of `memset`
pub record Fill : Type 0 where
  pub dst : ℕ
  pub value : ℕ
  pub size : ℕ

pub record Pools : Type 0 where
  pub kernel_pool : Pool
  pub user_pool : Pool
  pub fills : List Fill

pub record PallocFlags : Type 0 where
  pub pal_assert : Bool
  pub pal_zero : Bool
  pub pal_user : Bool

abbrev pub page_size : ℕ
page_size = 4096

abbrev pub pg_ofs : ℕ → ℕ
pg_ofs va = va % page_size

abbrev pub pg_no : ℕ → ℕ
pg_no va = va / page_size

-- Physical memory starts at 3 GB of the kernel's addresses; `palloc_init` has the ASSERT.
abbrev pub ptov : ℕ → ℕ
ptov paddr = paddr + 3221225472

-- The pool's bitmap stands at its base; `storage` has the words there.
pub init_pool : (storage : List ℕ) (base page_cnt : ℕ) → Option Pool
init_pool storage base page_cnt =
    let bm_pages = (bitmap_buf_size page_cnt + page_size - 1) / page_size in
    if ltb page_cnt bm_pages
    then none
    else (bitmap_create_in_buf storage (page_cnt - bm_pages) (bm_pages * page_size) >>= λ map.
        some (record { used_map = map; base = base + bm_pages * page_size }))

pub palloc_init :
    (kernel_words user_words : List ℕ) (init_ram_pages user_page_limit : ℕ) → Option Pools
unfolding init_pool
palloc_init kernel_words user_words init_ram_pages user_page_limit =
    let free_start = ptov (1024 * 1024) in
    let free_end = ptov (init_ram_pages * page_size) in
    let free_pages = (free_end - free_start) / page_size in
    let half = free_pages / 2 in
    let user_pages = if ltb user_page_limit half then user_page_limit else half in
    let kernel_pages = free_pages - user_pages in
    assert (ltb (init_ram_pages * page_size) 3221225472)
    >> init_pool kernel_words free_start kernel_pages
    >>= λ kernel.
        init_pool user_words (free_start + kernel_pages * page_size) user_pages >>= λ user.
        some (record { kernel_pool = kernel; user_pool = user; fills = [] })

abbrev pub pool_of : Pools → (user : Bool) → Pool
pool_of s true = s.user_pool
pool_of s false = s.kernel_pool

abbrev pub set_pool : Pools → (user : Bool) → Pool → Pools
set_pool s true p = record s { user_pool = p }
set_pool s false p = record s { kernel_pool = p }

-- `memset (pages, value, PGSIZE * page_cnt)`
abbrev pub fill : Pools → (pages value page_cnt : ℕ) → Pools
fill s pages value page_cnt = record s {
  fills = record { dst = pages; value = value; size = page_size * page_cnt } ∷ s.fills;
}

-- what `palloc_get_multiple` does with the answer of `bitmap_scan_and_flip`
pub hand_out : Pools → PallocFlags → (page_cnt page_idx : ℕ) → Bitmap → Option (ℕ × Pools)
hand_out s flags page_cnt page_idx map =
    let pool = pool_of s flags.pal_user in
    let s' = set_pool s flags.pal_user (record pool { used_map = map }) in
    let pages : ℕ =
      if not (page_idx == bitmap_error) then (pool.base + page_size * page_idx) % 2 ^ 32 else 0 in
    if not (pages == 0)
    then some (pages, if flags.pal_zero then fill s' pages 0 page_cnt else s')
    else if flags.pal_assert
    then none
    else some (0, s')

-- The null pointer is 0.
pub palloc_get_multiple : Pools → PallocFlags → (page_cnt : ℕ) → Option (ℕ × Pools)
unfolding hand_out
palloc_get_multiple s flags page_cnt =
    if page_cnt == 0
    then some (0, s)
    else (bitmap_scan_and_flip (pool_of s flags.pal_user).used_map 0 page_cnt false
        >>= λ (idx, map). hand_out s flags page_cnt idx map)

pub palloc_get_page : Pools → PallocFlags → Option (ℕ × Pools)
unfolding palloc_get_multiple
palloc_get_page s flags = palloc_get_multiple s flags 1

pub page_from_pool : Pool → (page : ℕ) → Bool
page_from_pool pool page =
    let start_page = pg_no pool.base in
    leb start_page (pg_no page) && ltb (pg_no page) (start_page + bitmap_size pool.used_map)

-- `palloc_free_multiple` once the pool is found
pub free_to : Pools → (user : Bool) → (pages page_cnt : ℕ) → Option Pools
free_to s user pages page_cnt = do
  let pool = pool_of s user
  let page_idx = pg_no pages - pg_no pool.base
  used ← bitmap_all pool.used_map page_idx page_cnt
  assert used
  map ← bitmap_set_multiple pool.used_map page_idx page_cnt false
  some (fill (set_pool s user (record pool { used_map = map })) pages 204 page_cnt)

pub palloc_free_multiple : Pools → (pages page_cnt : ℕ) → Option Pools
unfolding page_from_pool free_to
palloc_free_multiple s pages page_cnt = do
  assert (pg_ofs pages == 0)
  if pages == 0 || page_cnt == 0
      then some s
      else if page_from_pool s.kernel_pool pages
      then free_to s false pages page_cnt
      else if page_from_pool s.user_pool pages
      then free_to s true pages page_cnt
      else none

pub palloc_free_page : Pools → (page : ℕ) → Option Pools
unfolding palloc_free_multiple
palloc_free_page s page = palloc_free_multiple s page 1
