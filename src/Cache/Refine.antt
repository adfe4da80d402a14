-- ===== src/Cache/Refine.antt =====
-- filesys/cache.c against a plain disk: what its users read is what was last written.
use mathlib.Core.Path.{subst, fun_ext}
use modeling_unix.Base.{
  ℕ, ◌<◌, ◌≡◌, inl, inr, refl, sym, ap, ◌∙◌, true, false, Option, some, List, [], ◌∷◌, ◌++◌, ◌==◌,
  if◌then◌else◌, arith, Bool-cases, ◌>>=◌,
}
use modeling_unix.Inode.{Disk}
use modeling_unix.Inode.Install.{eq-cases}
use modeling_unix.Cache.{
  Block, Cache, cache_get_block, on_block, cache_lookup, cache_put_block, cache_read_block,
  cache_zero_block, cache_mark_block_dirty, read_ahead,
}
use modeling_unix.Cache.Blocks.{view, Holds, WellFormed}
use modeling_unix.Cache.Use.{
  held, unused, with_front, get_block-front, read_block-front, put_block-front, zero_block-front,
  mark_dirty-front, after-WellFormed, after-here, after-others, words_of, words_of-view,
  write_data-front, lookup-front, read_ahead-eq,
}

-- How the file system uses a block: it reads it, changes it, writes it whole, or has it read ahead.
pub data Op : Type 0 where
  look : (sector : ℕ) → Op
  change : (sector : ℕ) → (f : (ℕ → ℕ) → ℕ → ℕ) → Op
  overwrite : (sector : ℕ) → (words : ℕ → ℕ) → Op
  ahead : (sector : ℕ) → Op

-- the words of a block that is held
abbrev pub data_of : Cache → (block : ℕ) → Option (ℕ → ℕ)
data_of c s = cache_lookup s c.buffer_cache >>= λ (b, rest). some b.contents

-- a store through the pointer to a block's data
abbrev pub write_data : Cache → (block : ℕ) → ((ℕ → ℕ) → ℕ → ℕ) → Option Cache
write_data c s f = on_block c s (λ b. some (record b { contents = f b.contents }))

abbrev pub op_sector : Op → ℕ
op_sector (look s) = s
op_sector (change s f) = s
op_sector (overwrite s words) = s
op_sector (ahead s) = s

-- one use, with what it reads
pub exec : Cache → Op → Option (List (ℕ → ℕ) × Cache)
exec c (look s) = do
  c₁ ← cache_get_block c s false
  c₂ ← cache_read_block c₁ s
  words ← data_of c₂ s
  c₃ ← cache_put_block c₂ s
  some (words ∷ [], c₃)
exec c (change s f) = do
  c₁ ← cache_get_block c s true
  c₂ ← cache_read_block c₁ s
  c₃ ← write_data c₂ s f
  c₄ ← cache_mark_block_dirty c₃ s
  c₅ ← cache_put_block c₄ s
  some ([], c₅)
exec c (overwrite s words) = do
  c₁ ← cache_get_block c s true
  c₂ ← cache_zero_block c₁ s
  c₃ ← write_data c₂ s (λ old. words)
  c₄ ← cache_put_block c₃ s
  some ([], c₄)
exec c (ahead s) = read_ahead c s >>= λ c'. some ([], c')

-- the same on a plain disk
pub reads : Disk → Op → List (ℕ → ℕ)
reads d (look s) = d s ∷ []
reads d (change s f) = []
reads d (overwrite s words) = []
reads d (ahead s) = []

pub writes : Disk → Op → Disk
writes d (look s) = d
writes d (change s f) = λ t. if t == s then f (d s) else d t
writes d (overwrite s words) = λ t. if t == s then words else d t
writes d (ahead s) = d

-- A use reads the words that the sector has, changes them as on a disk, and keeps the invariant.
abbrev Serves : Cache → Op → Option (List (ℕ → ℕ) × Cache) → Type 0
Serves c op out =
    (c' : Cache) × (out ≡ some (reads (view c) op, c'))
    × WellFormed c'
    × (c'.size ≡ c.size)
    × ((t : ℕ) → view c' t ≡ writes (view c) op t)

exec-change :
    (c : Cache) (s : ℕ) (f : (ℕ → ℕ) → ℕ → ℕ)
    → WellFormed c
    → s < c.size
    → Serves c (change s f) (exec c (change s f))
unfolding exec reads writes
exec-change c s f ok small =
    let (b, c', got, res) = get_block-front c s true ok in
    let b₁ = record b { rw_lock = held true } in
    let b₂ = record b₁ { contents = words_of c'.device b₁; valid = true } in
    let b₃ = record b₂ { contents = f b₂.contents } in
    let b₄ = record b₃ { dirty = true } in
    let b₅ = record b₄ { rw_lock = unused true } in
    let in_range : s < c'.size = omega (arith, res.size) in
    let read = read_block-front c' s b₁ res.at in_range in
    let wrote = write_data-front c' s f b₂ res.at in
    let marked = mark_dirty-front c' s b₃ res.at in
    let put = put_block-front c' s (record b₄ { rw_lock = unused true }) true res.at in
    let out = with_front c' b₅ in
    (
      out,
      rw (got, read, wrote, marked, put) refl,
      after-WellFormed c c' s b b₅ res res.at refl
          (λ v clean. cc, λ dirty. (refl, omega (arith, res.at))),
      res.size,
      λ t. elim (eq-cases t s) [
        | inl (e, test) ↦
            rw test
              (ap (view out) e ∙ after-here c' s b₅ res.at refl ∙ ap f (words_of-view c c' s b res))
        | inr (e, test) ↦ rw test (after-others c c' s t b b₅ res res.at e)
      ],
    )

exec-overwrite :
    (c : Cache) (s : ℕ) (words : ℕ → ℕ)
    → WellFormed c
    → s < c.size
    → Serves c (overwrite s words) (exec c (overwrite s words))
unfolding exec reads writes
exec-overwrite c s words ok small =
    let (b, c', got, res) = get_block-front c s true ok in
    let b₁ = record b { rw_lock = held true } in
    let b₂ = record b₁ { contents = λ w. 0; dirty = true; valid = true } in
    let b₃ = record b₂ { contents = words } in
    let b₄ = record b₃ { rw_lock = unused true } in
    let in_range : s < c'.size = omega (arith, res.size) in
    let zeroed = zero_block-front c' s b₁ res.at in
    let wrote = write_data-front c' s (λ old. words) b₂ res.at in
    let put = put_block-front c' s b₄ true res.at in
    let out = with_front c' b₄ in
    (
      out,
      rw (got, zeroed, wrote, put) refl,
      after-WellFormed c c' s b b₄ res res.at refl
          (λ v clean. cc, λ dirty. (refl, omega (arith, res.at))),
      res.size,
      λ t. elim (eq-cases t s) [
        | inl (e, test) ↦ rw test (ap (view out) e ∙ after-here c' s b₄ res.at refl)
        | inr (e, test) ↦ rw test (after-others c c' s t b b₄ res res.at e)
      ],
    )

-- A read and a read ahead leave the same block.
abbrev Looks : Cache → ℕ → Type 0
Looks c s =
    (c₁ : Cache) × (c₂ : Cache) × (c₃ : Cache) × (cache_get_block c s false ≡ some c₁)
    × (cache_read_block c₁ s ≡ some c₂)
    × (data_of c₂ s ≡ some (view c s))
    × (cache_put_block c₂ s ≡ some c₃)
    × WellFormed c₃
    × (c₃.size ≡ c.size)
    × ((t : ℕ) → view c₃ t ≡ view c t)

-- a block that was read
read-Holds :
    (d : Disk) (size : ℕ) (b : Block)
    → Holds d size b
    → (true ≡ true → b.dirty ≡ false → words_of d b ≡ d b.sector)
      × (b.dirty ≡ true → (true ≡ true) × (b.sector < size))
read-Holds d size b (clean, dirty) = (
  λ v c. elim (Bool-cases b.valid) [ inl e ↦ rw e (clean e c) | inr e ↦ rw e refl ],
  λ e. (refl, (dirty e).1),
)

look-Looks : (c : Cache) (s : ℕ) → WellFormed c → s < c.size → Looks c s
look-Looks c s ok small =
    let (b, c', got, res) = get_block-front c s false ok in
    let b₁ = record b { rw_lock = held false } in
    let b₂ = record b₁ { contents = words_of c'.device b₁; valid = true } in
    let b₃ = record b₂ { rw_lock = unused false } in
    let in_range : s < c'.size = omega (arith, res.size) in
    let out = with_front c' b₃ in
    (
      with_front c' b₁,
      with_front c' b₂,
      out,
      got,
      read_block-front c' s b₁ res.at in_range,
      ap (λ o. o >>= λ (x, rest). some x.contents) (lookup-front c' s b₂ res.at)
          ∙ ap some (words_of-view c c' s b res),
      put_block-front c' s b₃ false res.at,
      after-WellFormed c c' s b b₃ res res.at refl (read-Holds c'.device c'.size b res.block),
      res.size,
      λ t. elim (eq-cases t s) [
        | inl (e, test) ↦
            ap (view out) e
            ∙ after-here c' s b₃ res.at refl
            ∙ words_of-view c c' s b res
            ∙ ap (view c) (sym e)
        | inr (e, test) ↦ after-others c c' s t b b₃ res res.at e
      ],
    )

exec-look : (c : Cache) (s : ℕ) → WellFormed c → s < c.size → Serves c (look s) (exec c (look s))
unfolding exec reads writes
exec-look c s ok small =
    let (c₁, c₂, c₃, got, read, words, put, fine, size, same) = look-Looks c s ok small in
    (c₃, rw (got, read, words, put) refl, fine, size, same)

exec-ahead : (c : Cache) (s : ℕ) → WellFormed c → s < c.size → Serves c (ahead s) (exec c (ahead s))
unfolding exec reads writes
exec-ahead c s ok small =
    let (c₁, c₂, c₃, got, read, words, put, fine, size, same) = look-Looks c s ok small in
    (c₃, rw (read_ahead-eq c s c₁ c₂ c₃ got read put) refl, fine, size, same)

pub exec-Serves :
    (c : Cache) (op : Op) → WellFormed c → op_sector op < c.size → Serves c op (exec c op)
exec-Serves c (look s) ok small = exec-look c s ok small
exec-Serves c (change s f) ok small = exec-change c s f ok small
exec-Serves c (overwrite s words) ok small = exec-overwrite c s words ok small
exec-Serves c (ahead s) ok small = exec-ahead c s ok small

pub run : Cache → List Op → Option (List (ℕ → ℕ) × Cache)
unfolding exec
run c [] = some ([], c)
run c (op ∷ ops) =
    exec c op >>= λ (words, c'). run c' ops >>= λ (more, c''). some (words ++ more, c'')

pub disk_run : Disk → List Op → List (ℕ → ℕ) × Disk
unfolding reads writes
disk_run d [] = ([], d)
disk_run d (op ∷ ops) = let (more, d') = disk_run (writes d op) ops in (reads d op ++ more, d')

-- the uses are of sectors that the device has
abbrev pub InRange : (size : ℕ) → List Op → Type 0
InRange size [] = Unit
InRange size (op ∷ ops) = (op_sector op < size) × InRange size ops

-- Any uses of the buffer cache, of sectors that the device has, where no one else holds a block: none
-- of them fails or waits, all reads give what the same uses of a plain disk give, each sector has
-- in the end the words that it has on that disk, and the invariant holds again.
pub uses_refine :
    (c : Cache) (ops : List Op)
    → WellFormed c
    → InRange c.size ops
    → (c' : Cache) × (run c ops ≡ some ((disk_run (view c) ops).0, c'))
      × WellFormed c'
      × ((t : ℕ) → view c' t ≡ (disk_run (view c) ops).1 t)
unfolding run disk_run
uses_refine c [] ok range = (c, refl, ok, λ t. refl)
uses_refine c (op ∷ ops) ok (small, range) =
    let (c', ran, fine, size, same) = exec-Serves c op ok small in
    let (c'', ran', fine', same') =
      uses_refine c' ops fine (subst (λ k. InRange k ops) (sym size) range) in
    let disk : view c' ≡ writes (view c) op = fun_ext same in
    (c'', rw (ran, ran', disk) refl, fine', λ t. same' t ∙ ap (λ d. (disk_run d ops).1 t) disk)
