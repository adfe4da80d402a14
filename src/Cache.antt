-- ===== src/Cache.antt =====
-- filesys/cache.c: the buffer cache, as one thread uses it. `none` is a failed ASSERT, a PANIC of the
-- block layer, an exit of the thread, or a wait that only another thread could end. A pointer to a
-- block that is held is its sector's number: such a block is not evicted.
pub mod Blocks
pub mod Reserve
pub mod Use
pub mod Init
pub mod Refine
pub mod Flush
mod Tests
use modeling_unix.Base.{
  ℕ, zero, suc, ◌-◌, ◌^◌, Bool, true, false, not, ◌&&◌, Option, none, some, List, [], ◌∷◌, ltb,
  ◌==◌, if◌then◌else◌, ◌>>=◌, ◌>>◌, assert,
}
use modeling_unix.Inode.{Disk}
use modeling_unix.RwLock.{
  RwLock, rw_lock_init, Mode, Turn, enter, sleep, Signal, read_lock_acquire, read_lock_release,
  write_lock_acquire, write_lock_try_acquire, write_lock_release,
}

-- `struct cache_block`, with its data as words
pub record Block : Type 0 where
  pub sector : ℕ
  pub dirty : Bool
  pub valid : Bool
  pub contents : ℕ → ℕ
  pub rw_lock : RwLock

-- The front of `buffer_cache` is the block that was used last.
pub record Cache : Type 0 where
  pub buffer_cache : List Block
  pub free_cache : List Block
  pub device : Disk
  pub size : ℕ

abbrev pub max_cache_size : ℕ
max_cache_size = 64

-- `room` is the data that malloc gives, if any.
pub block_init : (room : Option (ℕ → ℕ)) → Option Block
block_init room = room >>= λ words. some (record {
  sector = 2 ^ 32 - 1;
  dirty = false;
  valid = false;
  contents = words;
  rw_lock = rw_lock_init;
})

-- the loop of `cache_init`, with the blocks that it pushed so far
pub init_loop : (n : ℕ) → (room : ℕ → Option (ℕ → ℕ)) → List Block → Option (List Block)
unfolding block_init
init_loop zero room blocks = some blocks
init_loop (suc n) room blocks = block_init (room n) >>= λ b. init_loop n room (b ∷ blocks)

pub cache_init : (room : ℕ → Option (ℕ → ℕ)) → Disk → (size : ℕ) → Option Cache
cache_init room device size = init_loop max_cache_size room [] >>= λ blocks.
    some (record { buffer_cache = []; free_cache = blocks; device = device; size = size })

-- the block of a sector, as `list_remove` takes it out of the list
pub cache_lookup : (sector : ℕ) → List Block → Option (Block × List Block)
cache_lookup s [] = none
cache_lookup s (x ∷ xs) =
    if x.sector == s then some (x, xs) else (cache_lookup s xs >>= λ (b, rest). some (b, x ∷ rest))

-- the last block of the list that no one holds, held and taken out of the list
pub find_victim : List Block → Option (Block × List Block)
find_victim [] = none
find_victim (x ∷ xs) =
    let (free, l) = write_lock_try_acquire x.rw_lock in
    elim (find_victim xs) [
      | some (b, rest) ↦ some (b, x ∷ rest)
      | none ↦ if free then some (record x { rw_lock = l }, xs) else none
    ]

abbrev pub block_write : Disk → (size sector : ℕ) → (ℕ → ℕ) → Option Disk
block_write d size s words = assert (ltb s size) >> some (λ t. if t == s then words else d t)

abbrev pub block_read : Disk → (size sector : ℕ) → Option (ℕ → ℕ)
block_read d size s = assert (ltb s size) >> some (d s)

-- The victim of the cache, and the cache without it.
pub evict_lru_block : Cache → (sector : ℕ) → Option (Block × Cache)
evict_lru_block c sector = do
  (b, rest) ← find_victim c.buffer_cache
  device' ← (if b.dirty then block_write c.device c.size b.sector b.contents else some c.device)
  (l, s) ← write_lock_release b.rw_lock
  some (
    record b { sector = sector; valid = false; dirty = false; rw_lock = l },
    record c { buffer_cache = rest; device = device' },
  )

-- what an acquire leaves, where it does not sleep
abbrev pub entered : Turn → Mode → Option RwLock
entered (enter l) m = some (record l { mode = m })
entered (sleep l) m = none

pub acquire : Block → (exclusive : Bool) → Option Block
acquire b exclusive =
    (if exclusive
      then (write_lock_acquire b.rw_lock >>= λ t. entered t Mode.write_locked)
      else entered (read_lock_acquire b.rw_lock) Mode.read_locked)
    >>= λ l. some (record b { rw_lock = l })

-- the block for a sector that is not cached
pub fresh_block : Cache → (sector : ℕ) → (free : List Block) → Option (Block × Cache)
fresh_block c s [] = evict_lru_block c s
fresh_block c s (b ∷ bs) = some (record b { sector = s }, record c { free_cache = bs })

pub reserve_found : Cache → (sector : ℕ) → Option (Block × List Block) → Option (Block × Cache)
reserve_found c s (some (b, rest)) = some (b, record c { buffer_cache = rest })
reserve_found c s none = fresh_block c s c.free_cache

-- the block that is to hold the sector, and the cache without it
pub reserve : Cache → (sector : ℕ) → Option (Block × Cache)
reserve c s = reserve_found c s (cache_lookup s c.buffer_cache)

pub cache_get_block : Cache → (sector : ℕ) → (exclusive : Bool) → Option Cache
cache_get_block c sector exclusive = reserve c sector >>= λ (b, c').
    acquire b exclusive >>= λ held. some (record c' { buffer_cache = held ∷ c'.buffer_cache })

-- A change of the block of a sector, which the caller holds.
pub change_block : (sector : ℕ) → (Block → Option Block) → List Block → Option (List Block)
change_block s f [] = none
change_block s f (x ∷ xs) =
    if x.sector == s
    then (f x >>= λ y. some (y ∷ xs))
    else (change_block s f xs >>= λ ys. some (x ∷ ys))

abbrev pub on_block : Cache → (sector : ℕ) → (Block → Option Block) → Option Cache
on_block c s f = change_block s f c.buffer_cache >>= λ l. some (record c { buffer_cache = l })

abbrev pub release : Block → Option Block
release b = elim b.rw_lock.mode [
  | Mode.write_locked ↦ write_lock_release b.rw_lock >>= λ (l, s). some (record b { rw_lock = l })
  | Mode.read_locked ↦ some (record b { rw_lock = (read_lock_release b.rw_lock).0 })
  | Mode.unlocked ↦ some b
]

pub cache_put_block : Cache → (block : ℕ) → Option Cache
cache_put_block c s = on_block c s release

pub cache_read_block : Cache → (block : ℕ) → Option Cache
cache_read_block c s = on_block c s (λ b.
    if b.valid
    then some b
    else (block_read c.device c.size b.sector >>= λ words.
        some (record b { contents = words; valid = true })))

pub cache_zero_block : Cache → (block : ℕ) → Option Cache
cache_zero_block c s =
    on_block c s (λ b. some (record b { contents = λ w. 0; dirty = true; valid = true }))

pub cache_mark_block_dirty : Cache → (block : ℕ) → Option Cache
cache_mark_block_dirty c s = on_block c s (λ b. some (record b { dirty = true }))

-- The blocks from the back of the list on, with what is on the device then. A block that is held is
-- passed over.
pub flush_loop : List Block → Disk → (size : ℕ) → Option (List Block × Disk)
flush_loop [] d size = some ([], d)
flush_loop (x ∷ xs) d size = flush_loop xs d size >>= λ (ys, d').
    if not x.dirty
    then some (x ∷ ys, d')
    else let (free, l) = write_lock_try_acquire x.rw_lock in
      if not free
      then some (x ∷ ys, d')
      else ((if x.valid && x.dirty then block_write d' size x.sector x.contents else some d')
          >>= λ d''. write_lock_release l >>= λ (l', s). some (
            record x { dirty = if x.valid && x.dirty then false else x.dirty; rw_lock = l' } ∷ ys,
            d'',
          ))

pub cache_flush : Cache → Option Cache
cache_flush c = flush_loop c.buffer_cache c.device c.size >>= λ (l, d).
    some (record c { buffer_cache = l; device = d })

-- the daemon's work for one sector
pub read_ahead : Cache → (sector : ℕ) → Option Cache
read_ahead c s = do c₁ ← cache_get_block c s false; c₂ ← cache_read_block c₁ s; cache_put_block c₂ s
