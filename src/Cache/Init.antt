-- ===== src/Cache/Init.antt =====
-- `cache_init` of filesys/cache.c.
use modeling_unix.Base.{
  ℕ, zero, suc, ◌+◌, ◌^◌, ◌≡◌, refl, false, Option, some, ◌-◌, List, [], ◌∷◌, length, arith,
}
use modeling_unix.Inode.{Disk}
use modeling_unix.RwLock.{rw_lock_init}
use modeling_unix.Cache.{Block, Cache, max_cache_size, block_init, init_loop, cache_init}
use modeling_unix.Cache.Blocks.{view, AllEmpty, WellFormed, view_of-NoBlock}

init_loop-AllEmpty :
    (n : ℕ) (room : ℕ → Option (ℕ → ℕ)) (bs : List Block)
    → ((k : ℕ) → (words : ℕ → ℕ) × (room k ≡ some words))
    → AllEmpty bs
    → (bs' : List Block) × (init_loop n room bs ≡ some bs')
      × AllEmpty bs'
      × (length bs' ≡ n + length bs)
unfolding init_loop block_init
init_loop-AllEmpty zero room bs given ok = (bs, refl, ok, omega arith)
init_loop-AllEmpty (suc n) room bs given ok =
    let (words, e) = given n in
    let b : Block = record {
      sector = 2 ^ 32 - 1;
      dirty = false;
      valid = false;
      contents = words;
      rw_lock = rw_lock_init;
    } in
    let (bs', ran, fine, count) = init_loop-AllEmpty n room (b ∷ bs) given (refl, refl, refl, ok) in
    (bs', rw e ran, fine, omega (arith, count))

-- The start of the buffer cache, where malloc has room: 64 free blocks, the invariant, and the words of
-- each sector are those on the device.
pub init-WellFormed :
    (room : ℕ → Option (ℕ → ℕ)) (device : Disk) (size : ℕ)
    → ((k : ℕ) → (words : ℕ → ℕ) × (room k ≡ some words))
    → (c : Cache) × (cache_init room device size ≡ some c)
      × WellFormed c
      × (length c.free_cache ≡ max_cache_size)
      × (c.size ≡ size)
      × ((t : ℕ) → view c t ≡ device t)
unfolding cache_init
init-WellFormed room device size given =
    let (bs, ran, fine, count) = init_loop-AllEmpty max_cache_size room [] given tt in
    (
      record { buffer_cache = []; free_cache = bs; device = device; size = size },
      rw ran refl,
      record { hold = tt; apart = tt; empties = fine; some_block = omega (arith, count) },
      count,
      refl,
      λ t. view_of-NoBlock device t [] tt,
    )
