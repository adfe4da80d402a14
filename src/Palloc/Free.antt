-- ===== src/Palloc/Free.antt =====
-- `palloc_free_multiple` of threads/palloc.c, after `palloc_get_multiple`.
use modeling_unix.Base.{
  ℕ, ◌+◌, ◌-◌, ◌*◌, ◌%◌, ◌≤◌, ◌<◌, ◌≡◌, ◌≢◌, inl, inr, refl, sym, ◌∙◌, Bool, true, false, not,
  Option, none, some, ◌==◌, if◌then◌else◌, arith,
}
use modeling_unix.Bitmap.{Bitmap, bitmap_contains, bitmap_all, bitmap_size}
use modeling_unix.Bitmap.View.{IsValid, bit}
use modeling_unix.Bitmap.Range.{
  Contains, Filled, bitmap_contains_lem, set_multiple-Filled, bitmap_all_lem,
}
use modeling_unix.Bitmap.Scan.{Run}
use modeling_unix.Palloc.{
  Pool, Pools, PallocFlags, pool_of, set_pool, fill, palloc_get_multiple, page_from_pool, free_to,
  palloc_free_multiple, page_size, pg_no,
}
use modeling_unix.Palloc.Pages.{
  IsPool, Got, get_multiple-Got, pool_of-set_pool, pool_of-set_other, pool_of-fill,
}

all_used :
    (b : Bitmap) (start cnt : ℕ)
    → IsValid b
    → start + cnt ≤ b.bit_cnt
    → Run (bit b) start cnt true
    → bitmap_all b start cnt ≡ some true
all_used b start cnt ok h used = pick (bitmap_contains_lem b start cnt false ok h)
  where
    pick :
        (r : Bool) × (bitmap_contains b start cnt false ≡ some r)
          × Contains (bit b) start cnt false r
        → bitmap_all b start cnt ≡ some true
    pick (true, found, (j, lo, hi, clear)) = absurd (ground (arith, used j))
    pick (false, found, all) = rw (bitmap_all_lem, found)

module _ (s : Pools) (user : Bool) where
  abbrev mine : Pool
  mine = pool_of s user

  -- Freeing pages of a pool that are all in use passes its ASSERT and frees exactly them.
  free_to-Filled :
      (pages idx cnt : ℕ)
      → IsValid mine.used_map
      → pg_no pages ≡ pg_no mine.base + idx
      → idx + cnt ≤ mine.used_map.bit_cnt
      → Run (bit mine.used_map) idx cnt true
      → (s' : Pools) × (free_to s user pages cnt ≡ some s')
        × Filled mine.used_map idx cnt false (pool_of s' user).used_map
        × (pool_of s' (not user) ≡ pool_of s (not user))
  unfolding free_to
  free_to-Filled pages idx cnt ok at_idx room used =
      let from : pg_no pages - pg_no mine.base ≡ idx = omega arith in
      let (map, ran, filled) = set_multiple-Filled mine.used_map idx cnt false ok room in
      let s' = set_pool s user (record mine { used_map = map }) in
      (
        fill s' pages 204 cnt,
        rw (from, all_used mine.used_map idx cnt ok room used, ran) refl,
        rw
            (
              pool_of-fill s' user pages 204 cnt,
              pool_of-set_pool s user (record mine { used_map = map }),
            )
            filled,
        pool_of-fill s' (not user) pages 204 cnt
            ∙ pool_of-set_other s user (record mine { used_map = map }),
      )

-- The kernel pool lies below the user pool.
abbrev pub Apart : Pools → Type 0
Apart s = pg_no s.kernel_pool.base + s.kernel_pool.used_map.bit_cnt ≤ pg_no s.user_pool.base

page_from_pool-in :
    (p : Pool) (page idx : ℕ)
    → pg_no page ≡ pg_no p.base + idx
    → idx < p.used_map.bit_cnt
    → page_from_pool p page ≡ true
unfolding page_from_pool bitmap_size
page_from_pool-in p page idx e h = ground arith

page_from_pool-above :
    (p : Pool) (page : ℕ)
    → pg_no p.base + p.used_map.bit_cnt ≤ pg_no page
    → page_from_pool p page ≡ false
unfolding page_from_pool bitmap_size
page_from_pool-above p page h = ground arith

-- `palloc_free_multiple` finds the pool of the pages.
free_multiple-free_to :
    (s : Pools) (user : Bool) (pages idx cnt : ℕ)
    → Apart s
    → pages % 4096 ≡ 0
    → 0 < pages
    → 0 < cnt
    → pg_no pages ≡ pg_no (pool_of s user).base + idx
    → idx < (pool_of s user).used_map.bit_cnt
    → palloc_free_multiple s pages cnt ≡ free_to s user pages cnt
unfolding palloc_free_multiple
free_multiple-free_to s user pages idx cnt apart aligned hp hc at_idx room =
    let page_start : (pages % 4096 == 0) ≡ true = ground arith in
    let no_null : (pages == 0) ≡ false = ground arith in
    let some_pages : (cnt == 0) ≡ false = ground arith in
    rw (page_start, no_null, some_pages) (pick user at_idx room)
  where
    pick :
        (user : Bool)
        → pg_no pages ≡ pg_no (pool_of s user).base + idx
        → idx < (pool_of s user).used_map.bit_cnt
        → (if page_from_pool s.kernel_pool pages
            then free_to s false pages cnt
            else if page_from_pool s.user_pool pages
            then free_to s true pages cnt
            else none)
          ≡ free_to s user pages cnt
    pick false e h = rw (page_from_pool-in s.kernel_pool pages idx e h) refl
    pick true e h =
        let not_kernel = page_from_pool-above s.kernel_pool pages (omega arith) in
        rw (not_kernel, page_from_pool-in s.user_pool pages idx e h) refl

-- A request does not move the pools.
Got-Apart : (s s' : Pools) (user : Bool) (cnt idx : ℕ) → Got s user cnt idx s' → Apart s → Apart s'
Got-Apart s s' true cnt idx got apart =
    let kernel : s'.kernel_pool ≡ s.kernel_pool = got.other in
    rw kernel (omega (arith, apart, got.base))
Got-Apart s s' false cnt idx got apart =
    let user : s'.user_pool ≡ s.user_pool = got.other in
    rw user (omega (arith, apart, got.base, got.used.cnt))

-- The pages of a request that was met can be freed.
free-Got :
    (s s' : Pools) (user : Bool) (cnt idx pages : ℕ)
    → 0 < cnt
    → IsPool (pool_of s user)
    → Apart s
    → Got s user cnt idx s'
    → pages ≡ (pool_of s user).base + 4096 * idx
    → (s₂ : Pools) × (palloc_free_multiple s' pages cnt ≡ some s₂)
      × ((j : ℕ) → bit (pool_of s₂ user).used_map j ≡ bit (pool_of s user).used_map j)
      × (pool_of s₂ (not user) ≡ pool_of s (not user))
free-Got s s' user cnt idx pages hc ok apart got at_pages =
    let base : (pool_of s' user).base ≡ (pool_of s user).base = got.base in
    let total : (pool_of s' user).used_map.bit_cnt ≡ (pool_of s user).used_map.bit_cnt =
      got.used.cnt in
    let number : pg_no pages ≡ pg_no (pool_of s' user).base + idx =
      omega (arith, ok.aligned, base, at_pages) in
    let found =
      free_multiple-free_to s' user pages idx cnt (Got-Apart s s' user cnt idx got apart)
        (omega (arith, ok.aligned, at_pages)) (omega (arith, ok.nonzero, at_pages)) hc number
        (omega (arith, got.room, total, hc)) in
    let (s₂, ran, back, other) =
      free_to-Filled s' user pages idx cnt got.used.valid number (omega (arith, got.room, total))
        (λ j lo hi. ground (arith, got.used.bits j)) in
    (
      s₂,
      found ∙ ran,
      λ j. ground (arith, back.bits j, got.used.bits j, got.free j),
      other ∙ got.other,
    )

some-pair_inj :
    {a b : ℕ} {s t : Pools}
    → ◌≡◌ {A = Option (ℕ × Pools)} (some (a, s)) (some (b, t))
    → (a ≡ b) × (s ≡ t)
some-pair_inj e = (cc e, cc e)

no_pages :
    (panics : Bool) (s : Pools) (pages : ℕ) (s₁ : Pools)
    → ◌≡◌ {A = Option (ℕ × Pools)} (some (pages, s₁)) (if panics then none else some (0, s))
    → pages ≡ 0
no_pages true s pages s₁ e = absurd (cc e)
no_pages false s pages s₁ e = (some-pair_inj e).0

-- Where the kernel pool lies below the user pool, pages that a well-formed pool has handed out, at
-- least one and not as NULL, can be freed again; then each page of that pool is in use or free as it
-- was before, and the other pool is as it was.
pub free-get :
    (s s₁ : Pools) (flags : PallocFlags) (cnt pages : ℕ)
    → 0 < cnt
    → IsPool (pool_of s flags.pal_user)
    → Apart s
    → palloc_get_multiple s flags cnt ≡ some (pages, s₁)
    → pages ≢ 0
    → (s₂ : Pools) × (palloc_free_multiple s₁ pages cnt ≡ some s₂)
      × ((j : ℕ)
          → bit (pool_of s₂ flags.pal_user).used_map j ≡ bit (pool_of s flags.pal_user).used_map j)
      × (pool_of s₂ (not flags.pal_user) ≡ pool_of s (not flags.pal_user))
free-get s s₁ flags cnt pages hc ok apart ran real = elim (get_multiple-Got s flags cnt hc ok) [
  | inl (idx, s', ran', got) ↦
      let same : ◌≡◌ {A = Option (ℕ × Pools)} (some (pages, s₁))
          (some ((pool_of s flags.pal_user).base + page_size * idx, s')) =
        sym ran ∙ ran' in
      let (at_pages, pools) = some-pair_inj same in
      rw pools (free-Got s s' flags.pal_user cnt idx pages hc ok apart got at_pages)
  | inr (nothing, missed) ↦ absurd (real (no_pages flags.pal_assert s pages s₁ (sym ran ∙ missed)))
]
