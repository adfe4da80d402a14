-- ===== src/Cache/Use.antt =====
-- One use of a block of filesys/cache.c: the block is got, its words are read or changed, and it is put.
use mathlib.Core.Path.{subst}
use modeling_unix.Base.{
  ℕ, ◌<◌, ◌≡◌, ◌≢◌, inl, inr, refl, sym, ap, ◌∙◌, Bool, true, false, Option, some, ◌∷◌, ltb, lt→ltb,
  ◌==◌, if◌then◌else◌, arith, Bool-cases, ◌>>=◌,
}
use modeling_unix.Inode.{Disk}
use modeling_unix.RwLock.{RwLock, Mode}
use modeling_unix.RwLock.Alone.{
  idle, reading, writing, write_acquire_idle, write_release_writing, read_acquire_idle,
  read_release_reading,
}
use modeling_unix.Cache.{
  Block, Cache, acquire, read_ahead, cache_lookup, cache_get_block, change_block, on_block, release,
  block_read, cache_put_block, cache_read_block, cache_zero_block, cache_mark_block_dirty,
}
use modeling_unix.Cache.Blocks.{view, Unheld, Holds, NoBlock, WellFormed, view_of-hit, view_of-miss}
use modeling_unix.Cache.Reserve.{Reserved, reserve-Reserved}

abbrev pub held : Bool → RwLock
held exclusive = if exclusive then writing Mode.write_locked else reading Mode.read_locked

abbrev pub unused : Bool → RwLock
unused exclusive = if exclusive then idle Mode.write_locked else idle Mode.read_locked

acquire-held :
    (b : Block) (exclusive : Bool)
    → Unheld b.rw_lock
    → acquire b exclusive ≡ some (record b { rw_lock = held exclusive })
unfolding acquire
acquire-held b true u = rw (u, write_acquire_idle b.rw_lock.mode) refl
acquire-held b false u = rw (u, read_acquire_idle b.rw_lock.mode) refl

-- the cache with the block at its front
abbrev pub with_front : Cache → Block → Cache
with_front c b = record c { buffer_cache = b ∷ c.buffer_cache }

pub get_block-front :
    (c : Cache) (s : ℕ) (exclusive : Bool)
    → WellFormed c
    → (b : Block) × (c' : Cache) × (cache_get_block c s exclusive
        ≡ some (with_front c' (record b { rw_lock = held exclusive })))
      × Reserved c s b c'
unfolding cache_get_block
get_block-front c s exclusive ok =
    let (b, c', ran, res) = reserve-Reserved c s ok in
    (b, c', rw (ran, acquire-held b exclusive res.unheld) refl, res)

-- A change of the block at the front.
on_block-front :
    (c : Cache) (s : ℕ) (f : Block → Option Block) (x y : Block)
    → x.sector ≡ s
    → f x ≡ some y
    → on_block (with_front c x) s f ≡ some (with_front c y)
unfolding change_block
on_block-front c s f x y e done =
    let hit : (x.sector == s) ≡ true = ground arith in rw (hit, done) refl

-- the words that a block gets on a read
abbrev pub words_of : Disk → Block → ℕ → ℕ
words_of d b = if b.valid then b.contents else d b.sector

pub read_block-front :
    (c : Cache) (s : ℕ) (b : Block)
    → b.sector ≡ s
    → s < c.size
    → cache_read_block (with_front c b) s
      ≡ some (with_front c (record b { contents = words_of c.device b; valid = true }))
unfolding cache_read_block
read_block-front c s b e small =
    on_block-front c s
      (λ x.
        if x.valid
        then some x
        else (block_read c.device c.size x.sector >>= λ words.
            some (record x { contents = words; valid = true })))
      b (record b { contents = words_of c.device b; valid = true }) e
      (elim (Bool-cases b.valid) [
        | inl v ↦ rw v refl
        | inr v ↦
            let device : ltb b.sector c.size ≡ true = lt→ltb b.sector c.size (omega arith) in
            rw (v, device) refl
      ])

pub put_block-front :
    (c : Cache) (s : ℕ) (b : Block) (exclusive : Bool)
    → b.sector ≡ s
    → cache_put_block (with_front c (record b { rw_lock = held exclusive })) s
      ≡ some (with_front c (record b { rw_lock = unused exclusive }))
unfolding cache_put_block
put_block-front c s b true e =
    on_block-front c s release (record b { rw_lock = held true })
      (record b { rw_lock = unused true }) e (rw (write_release_writing Mode.write_locked) refl)
put_block-front c s b false e =
    on_block-front c s release (record b { rw_lock = held false })
      (record b { rw_lock = unused false }) e (rw (read_release_reading Mode.read_locked) refl)

pub zero_block-front :
    (c : Cache) (s : ℕ) (b : Block)
    → b.sector ≡ s
    → cache_zero_block (with_front c b) s
      ≡ some (with_front c (record b { contents = λ w. 0; dirty = true; valid = true }))
unfolding cache_zero_block
zero_block-front c s b e =
    on_block-front c s (λ x. some (record x { contents = λ w. 0; dirty = true; valid = true })) b
      (record b { contents = λ w. 0; dirty = true; valid = true }) e refl

pub mark_dirty-front :
    (c : Cache) (s : ℕ) (b : Block)
    → b.sector ≡ s
    → cache_mark_block_dirty (with_front c b) s ≡ some (with_front c (record b { dirty = true }))
unfolding cache_mark_block_dirty
mark_dirty-front c s b e =
    on_block-front c s (λ x. some (record x { dirty = true })) b (record b { dirty = true }) e refl

-- After a use, with the block `y` for the sector: the invariant, and the sectors' words.
pub after-WellFormed :
    (c c' : Cache) (s : ℕ) (b y : Block)
    → Reserved c s b c'
    → y.sector ≡ s
    → Unheld y.rw_lock
    → Holds c'.device c'.size y
    → WellFormed (with_front c' y)
after-WellFormed c c' s b y res e u h = record {
  hold = (u, h, res.hold);
  apart = (subst (λ k. NoBlock k c'.buffer_cache) (sym e) res.alone, res.apart);
  empties = res.empties;
  some_block = omega arith;
}

pub after-here :
    (c' : Cache) (s : ℕ) (y : Block)
    → y.sector ≡ s
    → y.valid ≡ true
    → view (with_front c' y) s ≡ y.contents
after-here c' s y e v =
    view_of-hit c'.device y c'.buffer_cache s e ∙ ap (λ k. if k then y.contents else c'.device s) v

pub after-others :
    (c c' : Cache) (s t : ℕ) (b y : Block)
    → Reserved c s b c'
    → y.sector ≡ s
    → t ≢ s
    → view (with_front c' y) t ≡ view c t
after-others c c' s t b y res e h =
    view_of-miss c'.device y c'.buffer_cache t (λ z. h (sym z ∙ e))
    ∙ sym (view_of-miss c'.device b c'.buffer_cache t (λ z. h (sym z ∙ res.at)))
    ∙ res.same t

-- the words that a read gives
pub words_of-view :
    (c c' : Cache) (s : ℕ) (b : Block) → Reserved c s b c' → words_of c'.device b ≡ view c s
words_of-view c c' s b res =
    ap (λ k. if b.valid then b.contents else c'.device k) res.at
    ∙ sym (view_of-hit c'.device b c'.buffer_cache s res.at)
    ∙ res.same s

pub write_data-front :
    (c : Cache) (s : ℕ) (f : (ℕ → ℕ) → ℕ → ℕ) (b : Block)
    → b.sector ≡ s
    → on_block (with_front c b) s (λ x. some (record x { contents = f x.contents }))
      ≡ some (with_front c (record b { contents = f b.contents }))
write_data-front c s f b e =
    on_block-front c s (λ x. some (record x { contents = f x.contents })) b
      (record b { contents = f b.contents }) e refl

pub lookup-front :
    (c : Cache) (s : ℕ) (b : Block)
    → b.sector ≡ s
    → cache_lookup s (with_front c b).buffer_cache ≡ some (b, c.buffer_cache)
unfolding cache_lookup
lookup-front c s b e = let hit : (b.sector == s) ≡ true = ground arith in rw hit refl

pub read_ahead-eq :
    (c : Cache) (s : ℕ) (c₁ c₂ c₃ : Cache)
    → cache_get_block c s false ≡ some c₁
    → cache_read_block c₁ s ≡ some c₂
    → cache_put_block c₂ s ≡ some c₃
    → read_ahead c s ≡ some c₃
unfolding read_ahead
read_ahead-eq c s c₁ c₂ c₃ got read put = rw (got, read, put) refl
