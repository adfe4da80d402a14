-- ===== src/Palloc/Pages.antt =====
-- What threads/palloc.c promises of the pages that it hands out.
use modeling_unix.Base.{
  ◌^◌, ℕ, ◌+◌, ◌-◌, ◌*◌, ◌%◌, ◌≤◌, ◌<◌, ◌≡◌, ◌≢◌, ◌⊎◌, inl, inr, refl, ap, ◌∙◌, Bool, true, false,
  not, none, some, ◌==◌, if◌then◌else◌, arith, Bool-cases,
}
use modeling_unix.Bitmap.{Bitmap, bitmap_error}
use modeling_unix.Bitmap.View.{IsValid, bit}
use modeling_unix.Bitmap.Range.{Filled}
use modeling_unix.Bitmap.Scan.{Run, NoRun, scan_and_flip-Flipped}
use modeling_unix.Palloc.{
  Pool, Pools, PallocFlags, pool_of, set_pool, fill, hand_out, palloc_get_multiple, page_size,
}

-- The bitmap is well formed, the base is the address of a page, and the pages end below 2^32.
pub record IsPool (p : Pool) : Type 0 where
  pub valid : IsValid p.used_map
  pub aligned : p.base % 4096 ≡ 0
  pub nonzero : 0 < p.base
  pub below : p.base + page_size * p.used_map.bit_cnt < 2 ^ 32

-- `cnt` pages at `idx` of the pool go from free to used, and nothing else of the two pools changes.
pub record Got (s : Pools) (user : Bool) (cnt idx : ℕ) (s' : Pools) : Type 0 where
  pub room : idx + cnt ≤ (pool_of s user).used_map.bit_cnt
  pub free : Run (bit (pool_of s user).used_map) idx cnt false
  pub first : NoRun (bit (pool_of s user).used_map) 0 idx cnt false
  pub used : Filled (pool_of s user).used_map idx cnt true (pool_of s' user).used_map
  pub base : (pool_of s' user).base ≡ (pool_of s user).base
  pub other : pool_of s' (not user) ≡ pool_of s (not user)

pub pool_of-set_pool : (s : Pools) (user : Bool) (p : Pool) → pool_of (set_pool s user p) user ≡ p
pool_of-set_pool s true p = refl
pool_of-set_pool s false p = refl

pub pool_of-set_other :
    (s : Pools) (user : Bool) (p : Pool)
    → pool_of (set_pool s user p) (not user) ≡ pool_of s (not user)
pool_of-set_other s true p = refl
pool_of-set_other s false p = refl

set_pool-same : (s : Pools) (user : Bool) → set_pool s user (pool_of s user) ≡ s
set_pool-same s true = refl
set_pool-same s false = refl

pub pool_of-fill :
    (s : Pools) (user : Bool) (a v n : ℕ) → pool_of (fill s a v n) user ≡ pool_of s user
pool_of-fill s true a v n = refl
pool_of-fill s false a v n = refl

-- the pools after a request that is met
abbrev handed : Pools → PallocFlags → (cnt idx : ℕ) → Bitmap → Pools
handed s flags cnt idx map =
    let pool = pool_of s flags.pal_user in
    let s' = set_pool s flags.pal_user (record pool { used_map = map }) in
    if flags.pal_zero then fill s' (pool.base + page_size * idx) 0 cnt else s'

handed-pool :
    (s : Pools) (flags : PallocFlags) (cnt idx : ℕ) (map : Bitmap) (u : Bool)
    → pool_of (handed s flags cnt idx map) u
      ≡ pool_of (set_pool s flags.pal_user (record (pool_of s flags.pal_user) { used_map = map })) u
handed-pool s flags cnt idx map u = elim (Bool-cases flags.pal_zero) [
  | inl e ↦ rw e (
      pool_of-fill
        (set_pool s flags.pal_user (record (pool_of s flags.pal_user) { used_map = map })) u
        ((pool_of s flags.pal_user).base + page_size * idx) 0 cnt)
  | inr e ↦ rw e refl
]

hand_out-found :
    (s : Pools) (flags : PallocFlags) (cnt idx : ℕ) (map : Bitmap)
    → idx ≢ bitmap_error
    → 0 < (pool_of s flags.pal_user).base
    → (pool_of s flags.pal_user).base + page_size * idx < 2 ^ 32
    → hand_out s flags cnt idx map
      ≡ some ((pool_of s flags.pal_user).base + page_size * idx, handed s flags cnt idx map)
unfolding hand_out
hand_out-found s flags cnt idx map found h below =
    let real : (idx == bitmap_error) ≡ false = ground arith in
    let pages = (pool_of s flags.pal_user).base + page_size * idx in
    let fits : pages % 2 ^ 32 ≡ pages = omega arith in
    let set : (pages == 0) ≡ false = ground arith in rw (real, fits, set) refl

hand_out-missing :
    (s : Pools) (flags : PallocFlags) (cnt idx : ℕ)
    → idx ≡ bitmap_error
    → hand_out s flags cnt idx (pool_of s flags.pal_user).used_map
      ≡ (if flags.pal_assert then none else some (0, s))
unfolding hand_out
hand_out-missing s flags cnt idx e =
    let none_found : (idx == bitmap_error) ≡ true = ground arith in
    rw (none_found, set_pool-same s flags.pal_user) refl

handed-Got :
    (s : Pools) (flags : PallocFlags) (cnt idx : ℕ) (map : Bitmap)
    → idx + cnt ≤ (pool_of s flags.pal_user).used_map.bit_cnt
    → Run (bit (pool_of s flags.pal_user).used_map) idx cnt false
    → NoRun (bit (pool_of s flags.pal_user).used_map) 0 idx cnt false
    → Filled (pool_of s flags.pal_user).used_map idx cnt true map
    → Got s flags.pal_user cnt idx (handed s flags cnt idx map)
handed-Got s flags cnt idx map room run least filled =
    let pool = record (pool_of s flags.pal_user) { used_map = map } in
    let got : pool_of (handed s flags cnt idx map) flags.pal_user ≡ pool =
      handed-pool s flags cnt idx map flags.pal_user ∙ pool_of-set_pool s flags.pal_user pool in
    record {
      room = room;
      free = run;
      first = least;
      used = rw got filled;
      base = ap (λ p. p.base) got;
      other =
          handed-pool s flags cnt idx map (not flags.pal_user)
          ∙ pool_of-set_other s flags.pal_user pool;
    }

-- A request for at least one page of a well-formed pool is met with the first pages in a row that
-- are free there, takes exactly these, and leaves the other pool alone; where the pool has no such
-- pages it changes nothing and answers NULL, or stops the kernel with PAL_ASSERT.
pub get_multiple-Got :
    (s : Pools) (flags : PallocFlags) (cnt : ℕ)
    → 0 < cnt
    → IsPool (pool_of s flags.pal_user)
    → ((idx : ℕ) × (s' : Pools) × (palloc_get_multiple s flags cnt
          ≡ some ((pool_of s flags.pal_user).base + page_size * idx, s'))
        × Got s flags.pal_user cnt idx s')
      ⊎ (NoRun
            (bit (pool_of s flags.pal_user).used_map)
            0
            ((pool_of s flags.pal_user).used_map.bit_cnt + 1 - cnt)
            cnt
            false
          × (palloc_get_multiple s flags cnt ≡ (if flags.pal_assert then none else some (0, s))))
unfolding palloc_get_multiple
get_multiple-Got s flags cnt h ok =
    let some_pages : (cnt == 0) ≡ false = ground arith in
    let pool = pool_of s flags.pal_user in
    let (idx, map, ran, flipped) =
      scan_and_flip-Flipped pool.used_map 0 cnt false ok.valid (omega arith) in
    rw (some_pages, ran)
      (elim flipped [
        | inl (real, lo, room, run, least, filled) ↦ inl (
          idx,
          handed s flags cnt idx map,
          hand_out-found s flags cnt idx map real ok.nonzero (omega (arith, ok.below)),
          handed-Got s flags cnt idx map room run least filled,
        )
        | inr (err, nothing, same) ↦ inr (
          nothing,
          ap (λ b. hand_out s flags cnt idx b) same ∙ hand_out-missing s flags cnt idx err,
        )
      ])
