-- ===== src/Cache/Reserve.antt =====
-- `cache_get_block` of filesys/cache.c: a block is found, taken from the free ones, or evicted.
use mathlib.Core.Path.{subst}
use modeling_unix.Base.{
  ℕ, ◌<◌, ◌≡◌, ◌≢◌, ◌⊎◌, inl, inr, refl, sym, ap, ◌∙◌, true, false, Option, none, some, List, [],
  ◌∷◌, length, ltb, lt→ltb, ◌==◌, if◌then◌else◌, arith, Bool-cases,
}
use modeling_unix.Inode.{Disk}
use modeling_unix.Inode.Install.{eq-cases}
use modeling_unix.RwLock.Alone.{idle, writing, try_acquire_idle, write_release_writing}
use modeling_unix.Cache.{
  Block, Cache, cache_lookup, find_victim, evict_lru_block, fresh_block, reserve_found, reserve,
}
use modeling_unix.Cache.Blocks.{
  view_of, view, Unheld, Holds, AllHold, NoBlock, Apart, AllEmpty, WellFormed, Removes, here, there,
  Removes-hold, Removes-Apart, Removes-view, Removes-NoBlock_rest, view_of-invalid, view_of-left,
  AllHold-device,
}

-- A block of the list was found, or none has the sector.
lookup-cases :
    (s : ℕ) (xs : List Block)
    → ((b : Block) × (rest : List Block) × (cache_lookup s xs ≡ some (b, rest))
        × (b.sector ≡ s)
        × Removes b xs rest)
      ⊎ ((cache_lookup s xs ≡ none) × NoBlock s xs)
unfolding cache_lookup
lookup-cases s [] = inr (refl, tt)
lookup-cases s (x ∷ xs) = elim (eq-cases x.sector s) [
  | inl (e, test) ↦ inl (x, xs, rw test refl, e, here)
  | inr (e, test) ↦ elim (lookup-cases s xs) [
    | inl (b, rest, ran, at, r) ↦ inl (b, x ∷ rest, rw (test, ran) refl, at, there r)
    | inr (ran, n) ↦ inr (rw (test, ran) refl, (e, n))
  ]
]

-- Where no one holds a block, the last one is the victim.
victim-last :
    (d : Disk) (size : ℕ) (x : Block) (xs : List Block)
    → AllHold d size (x ∷ xs)
    → (b : Block) × (rest : List Block) × (find_victim (x ∷ xs)
        ≡ some (record b { rw_lock = writing b.rw_lock.mode }, rest))
      × Removes b (x ∷ xs) rest
unfolding find_victim
victim-last d size x [] (u, h, others) = (x, [], rw (u, try_acquire_idle x.rw_lock.mode) refl, here)
victim-last d size x (y ∷ ys) (u, h, others) =
    let (b, rest, ran, r) = victim-last d size y ys others in (b, x ∷ rest, rw ran refl, there r)

victim-some :
    (d : Disk) (size : ℕ) (xs : List Block)
    → 0 < length xs
    → AllHold d size xs
    → (b : Block) × (rest : List Block) × (find_victim xs
        ≡ some (record b { rw_lock = writing b.rw_lock.mode }, rest))
      × Removes b xs rest
victim-some d size [] more ok = absurd (omega arith)
victim-some d size (x ∷ xs) more ok = victim-last d size x xs ok

-- The block that is to hold the sector `s`, and the cache without it: no sector changes its words.
pub record Reserved (c : Cache) (s : ℕ) (b : Block) (c' : Cache) : Type 0 where
  pub at : b.sector ≡ s
  pub unheld : Unheld b.rw_lock
  pub block : Holds c'.device c'.size b
  pub hold : AllHold c'.device c'.size c'.buffer_cache
  pub alone : NoBlock s c'.buffer_cache
  pub apart : Apart c'.buffer_cache
  pub empties : AllEmpty c'.free_cache
  pub size : c'.size ≡ c.size
  pub same : (t : ℕ) → view_of (b ∷ c'.buffer_cache) c'.device t ≡ view c t

abbrev Reserves : Cache → ℕ → Option (Block × Cache) → Type 0
Reserves c s out = (b : Block) × (c' : Cache) × (out ≡ some (b, c')) × Reserved c s b c'

found-Reserved :
    (c : Cache) (s : ℕ) (b : Block) (rest : List Block)
    → WellFormed c
    → b.sector ≡ s
    → Removes b c.buffer_cache rest
    → Reserved c s b (record c { buffer_cache = rest })
found-Reserved c s b rest ok at r =
    let (u, h, others) = Removes-hold c.device c.size b r ok.hold in
    let (alone, apart) = Removes-Apart b r ok.apart in
    record {
      at = at;
      unheld = u;
      block = h;
      hold = others;
      alone = subst (λ k. NoBlock k rest) at alone;
      apart = apart;
      empties = ok.empties;
      size = refl;
      same = λ t. Removes-view c.device b t r ok.apart;
    }

free-Reserved :
    (c : Cache) (s : ℕ) (b : Block) (bs : List Block)
    → WellFormed c
    → NoBlock s c.buffer_cache
    → c.free_cache ≡ b ∷ bs
    → Reserved c s (record b { sector = s }) (record c { free_cache = bs })
free-Reserved c s b bs ok n e =
    let (u, v, w, others) = subst AllEmpty e ok.empties in
    record {
      at = refl;
      unheld = u;
      block = (λ valid clean. cc, λ dirty. cc);
      hold = ok.hold;
      alone = n;
      apart = ok.apart;
      empties = others;
      size = refl;
      same = λ t. view_of-invalid c.device (record b { sector = s }) c.buffer_cache t v n;
    }

-- the device after a victim's words were written back, where it is dirty
abbrev written_back : Disk → Block → Disk
written_back d x = if x.dirty then (λ t. if t == x.sector then x.contents else d t) else d

back_here :
    (d : Disk) (size : ℕ) (x : Block)
    → Holds d size x
    → written_back d x x.sector ≡ (if x.valid then x.contents else d x.sector)
back_here d size x (clean, dirty) = elim (Bool-cases x.dirty) [
  | inl e ↦
      let self : (x.sector == x.sector) ≡ true = ground arith in
      let (valid, small) = dirty e in rw (e, self, valid) refl
  | inr e ↦ rw e (elim (Bool-cases x.valid) [ inl v ↦ rw v (sym (clean v e)) | inr v ↦ rw v refl ])
]

back_others : (d : Disk) (x : Block) (u : ℕ) → u ≢ x.sector → written_back d x u ≡ d u
back_others d x u h =
    let miss : (u == x.sector) ≡ false = ground arith in
    elim (Bool-cases x.dirty) [ inl e ↦ rw (e, miss) refl | inr e ↦ rw e refl ]

evicted-Reserved :
    (c : Cache) (s : ℕ) (x : Block) (rest : List Block)
    → WellFormed c
    → NoBlock s c.buffer_cache
    → Removes x c.buffer_cache rest
    → Reserved c s
        (record x { sector = s; valid = false; dirty = false; rw_lock = idle x.rw_lock.mode })
        (record c { buffer_cache = rest; device = written_back c.device x })
evicted-Reserved c s x rest ok n r =
    let (u, h, others) = Removes-hold c.device c.size x r ok.hold in
    let (alone, apart) = Removes-Apart x r ok.apart in
    let d' = written_back c.device x in
    let none_left = Removes-NoBlock_rest x s r n in
    let b = record x { sector = s; valid = false; dirty = false; rw_lock = idle x.rw_lock.mode } in
    record {
      at = refl;
      unheld = refl;
      block = (λ valid clean. cc, λ dirty. cc);
      hold = AllHold-device c.device d' c.size x.sector rest alone (back_others c.device x) others;
      alone = none_left;
      apart = apart;
      empties = ok.empties;
      size = refl;
      same = λ t.
          view_of-invalid d' b rest t refl none_left
          ∙ view_of-left c.device d' x rest t alone (back_here c.device c.size x h)
              (back_others c.device x)
          ∙ Removes-view c.device x t r ok.apart;
    }

-- the eviction of a block that no one holds
evict_lru_block-idle :
    (c : Cache) (s : ℕ) (x : Block) (rest : List Block)
    → Holds c.device c.size x
    → find_victim c.buffer_cache ≡ some (record x { rw_lock = writing x.rw_lock.mode }, rest)
    → evict_lru_block c s
      ≡ some (
        record x { sector = s; valid = false; dirty = false; rw_lock = idle x.rw_lock.mode },
        record c { buffer_cache = rest; device = written_back c.device x },
      )
unfolding evict_lru_block
evict_lru_block-idle c s x rest (clean, dirty) e = rw e (elim (Bool-cases x.dirty) [
  | inl d ↦
      let (valid, small) = dirty d in
      let device : ltb x.sector c.size ≡ true = lt→ltb x.sector c.size small in
      rw (d, device, write_release_writing x.rw_lock.mode) refl
  | inr d ↦ rw (d, write_release_writing x.rw_lock.mode) refl
])

-- a block for a sector that is not cached
fresh_block-Reserved :
    (c : Cache) (s : ℕ) (free : List Block)
    → WellFormed c
    → NoBlock s c.buffer_cache
    → c.free_cache ≡ free
    → (b : Block) × (c' : Cache) × (fresh_block c s free ≡ some (b, c')) × Reserved c s b c'
unfolding fresh_block
fresh_block-Reserved c s (b ∷ bs) ok n e =
    (record b { sector = s }, record c { free_cache = bs }, refl, free-Reserved c s b bs ok n e)
fresh_block-Reserved c s [] ok n e =
    let more : 0 < length c.buffer_cache = omega (arith, ok.some_block, ap length e) in
    let (x, rest, ran, r) = victim-some c.device c.size c.buffer_cache more ok.hold in
    let (u, h, others) = Removes-hold c.device c.size x r ok.hold in
    (_, _, evict_lru_block-idle c s x rest h ran, evicted-Reserved c s x rest ok n r)

-- The cache always has a block for a sector, where no one holds a block, and no sector's words change.
pub reserve-Reserved :
    (c : Cache) (s : ℕ)
    → WellFormed c
    → (b : Block) × (c' : Cache) × (reserve c s ≡ some (b, c')) × Reserved c s b c'
unfolding reserve reserve_found
reserve-Reserved c s ok = elim (lookup-cases s c.buffer_cache) [
  | inl (b, rest, ran, at, r) ↦ (
    b,
    record c { buffer_cache = rest },
    ap (reserve_found c s) ran,
    found-Reserved c s b rest ok at r,
  )
  | inr (ran, n) ↦
      let (b, c', made, res) = fresh_block-Reserved c s c.free_cache ok n refl in
      (b, c', ap (reserve_found c s) ran ∙ made, res)
]
