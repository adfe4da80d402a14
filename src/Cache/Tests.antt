-- ===== src/Cache/Tests.antt =====
-- The theorems on filesys/cache.c at a small cache.
use modeling_unix.Base.{
  ℕ, ◌+◌, ◌≡◌, refl, Bool, true, some, List, [], ◌∷◌, length, arith, false, if◌then◌else◌,
}
use modeling_unix.Inode.{Disk}
use modeling_unix.RwLock.{rw_lock_init}
use modeling_unix.Cache.{Block, Cache, max_cache_size, cache_init, cache_flush}
use modeling_unix.Cache.Blocks.{view, WellFormed}
use modeling_unix.Cache.Init.{init-WellFormed}
use modeling_unix.Cache.Refine.{Op, look, change, overwrite, ahead, run, disk_run, uses_refine}
use modeling_unix.Cache.Flush.{flush-written}

-- a device of ten sectors, and a cache of one block
abbrev device : Disk
device = λ t w. t

abbrev small : Cache
small = record {
  buffer_cache = [];
  free_cache =
      record { sector = 0; dirty = false; valid = false; contents = λ w. 7; rw_lock = rw_lock_init }
      ∷ [];
  device = device;
  size = 10;
}

small-WellFormed : WellFormed small
small-WellFormed = record {
  hold = tt;
  apart = tt;
  empties = (refl, refl, refl, tt);
  some_block = omega arith;
}

-- The second use evicts the block that the first one changed.
abbrev uses : List Op
uses = change 3 (λ words w. words w + 1) ∷ overwrite 4 (λ w. 9) ∷ look 3 ∷ ahead 5 ∷ look 4 ∷ []

uses_refine_example :
    (c' : Cache) × (run small uses ≡ some ((disk_run (view small) uses).0, c'))
    × WellFormed c'
    × ((t : ℕ) → view c' t ≡ (disk_run (view small) uses).1 t)
uses_refine_example =
    uses_refine small uses small-WellFormed
      (omega arith, (omega arith, (omega arith, (omega arith, (omega arith, tt)))))

-- a cache of two blocks, of which one is dirty, and a free block
abbrev block : (sector : ℕ) → Bool → Block
block sector dirty = record {
  sector = sector;
  dirty = dirty;
  valid = true;
  contents = λ w. if dirty then 8 else sector;
  rw_lock = rw_lock_init;
}

abbrev filled : Cache
filled = record small { buffer_cache = block 3 true ∷ block 5 false ∷ [] }

filled-WellFormed : WellFormed filled
filled-WellFormed = record {
  hold = (refl, ((λ v d. cc), λ d. (refl, omega arith)), (refl, ((λ v d. refl), λ d. cc), tt));
  apart = ((omega arith, tt), (tt, tt));
  empties = (refl, refl, refl, tt);
  some_block = omega arith;
}

flush-written_example :
    (c' : Cache) × (cache_flush filled ≡ some c')
    × WellFormed c'
    × ((t : ℕ) → c'.device t ≡ view filled t)
    × ((t : ℕ) → view c' t ≡ view filled t)
flush-written_example = flush-written filled filled-WellFormed

init-WellFormed_example :
    (c : Cache) × (cache_init (λ k. some (λ w. k)) device 10 ≡ some c)
    × WellFormed c
    × (length c.free_cache ≡ max_cache_size)
    × (c.size ≡ 10)
    × ((t : ℕ) → view c t ≡ device t)
init-WellFormed_example = init-WellFormed (λ k. some (λ w. k)) device 10 (λ k. (λ w. k, refl))
