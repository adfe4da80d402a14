-- ===== src/Cache/Flush.antt =====
-- `cache_flush` of filesys/cache.c.
use mathlib.Core.Path.{subst}
use modeling_unix.Base.{
  ℕ, suc, ◌≡◌, ◌≢◌, inl, inr, refl, sym, ap, ap₂, ◌∙◌, Bool, true, false, some, List, [], ◌∷◌,
  length, ltb, lt→ltb, ◌==◌, if◌then◌else◌, arith, Bool-cases,
}
use modeling_unix.Inode.{Disk}
use modeling_unix.Inode.Install.{eq-cases}
use modeling_unix.RwLock.{write_lock_try_acquire}
use modeling_unix.RwLock.Alone.{idle, try_acquire_idle, write_release_writing}
use modeling_unix.Cache.{Block, Cache, flush_loop, cache_flush}
use modeling_unix.Cache.Blocks.{
  view_of, view, Unheld, AllHold, NoBlock, Apart, WellFormed, view_of-hit, view_of-miss,
  view_of-NoBlock, view_of-device, AllHold-device,
}

-- The device has each sector's words, and the list the same blocks, none of them dirty.
record Flushed (d : Disk) (size : ℕ) (xs ys : List Block) (d' : Disk) : Type 0 where
  written : (t : ℕ) → d' t ≡ view_of xs d t
  same : (t : ℕ) → view_of ys d' t ≡ view_of xs d t
  hold : AllHold d' size ys
  apart : Apart ys
  sectors : (u : ℕ) → NoBlock u xs → NoBlock u ys
  count : length ys ≡ length xs

-- One more block, with what is on the device then.
cons-Flushed :
    (d d' d'' : Disk) (size : ℕ) (x y : Block) (xs ys : List Block)
    → Flushed d size xs ys d'
    → NoBlock x.sector xs
    → y.sector ≡ x.sector
    → Unheld y.rw_lock
    → y.valid ≡ x.valid
    → y.contents ≡ x.contents
    → y.dirty ≡ false
    → d'' x.sector ≡ (if x.valid then x.contents else d x.sector)
    → ((u : ℕ) → u ≢ x.sector → d'' u ≡ d' u)
    → Flushed d size (x ∷ xs) (y ∷ ys) d''
cons-Flushed d d' d'' size x y xs ys fl n at unheld valid words clean now others = record {
  written = λ t. elim (eq-cases x.sector t) [
    | inl (e, _) ↦ now_at t e ∙ sym (view_of-hit d x xs t e)
    | inr (e, _) ↦ others t (λ z. e (sym z)) ∙ fl.written t ∙ sym (view_of-miss d x xs t e)
  ];
  same = λ t. elim (eq-cases x.sector t) [
    | inl (e, _) ↦
        view_of-hit d'' y ys t (at ∙ e)
        ∙ ap₂ (λ v k. if v then k else d'' t) valid words
        ∙ settle x.valid x.contents (d'' t) (d t) (now_at t e)
        ∙ sym (view_of-hit d x xs t e)
    | inr (e, _) ↦
        view_of-miss d'' y ys t (λ z. e (sym at ∙ z))
        ∙ view_of-device d' d'' t ys (others t (λ z. e (sym z)))
        ∙ fl.same t
        ∙ sym (view_of-miss d x xs t e)
  ];
  hold = (
    unheld,
    (
      λ v c.
          words
          ∙ given x.valid x.contents (d'' x.sector) (d x.sector) (sym valid ∙ v) now
          ∙ ap d'' (sym at),
      λ dirty. absurd (differ (sym clean ∙ dirty)),
    ),
    AllHold-device d' d'' size x.sector ys alone others fl.hold,
  );
  apart = (subst (λ k. NoBlock k ys) (sym at) alone, fl.apart);
  sectors = λ u (first, rest). (λ z. first (sym at ∙ z), fl.sectors u rest);
  count = ap suc fl.count;
}
  where
    alone : NoBlock x.sector ys
    alone = fl.sectors x.sector n

    now_at : (t : ℕ) → x.sector ≡ t → d'' t ≡ (if x.valid then x.contents else d t)
    now_at t e = subst (λ k. d'' k ≡ (if x.valid then x.contents else d k)) e now

    settle :
        (v : Bool) (a b e : ℕ → ℕ)
        → b ≡ (if v then a else e)
        → (if v then a else b) ≡ (if v then a else e)
    settle true a b e h = refl
    settle false a b e h = h

    given : (v : Bool) (a b e : ℕ → ℕ) → v ≡ true → b ≡ (if v then a else e) → a ≡ b
    given true a b e t h = sym h
    given false a b e t h = cc

    differ : ¬ (false ≡ true)
    differ h = cc

flush_loop-Flushed :
    (d : Disk) (size : ℕ) (xs : List Block)
    → AllHold d size xs
    → Apart xs
    → (ys : List Block) × (d' : Disk) × (flush_loop xs d size ≡ some (ys, d'))
      × Flushed d size xs ys d'
unfolding flush_loop
flush_loop-Flushed d size [] ok apart = (
  [],
  d,
  refl,
  record {
    written = λ t. sym (view_of-NoBlock d t [] tt);
    same = λ t. refl;
    hold = tt;
    apart = tt;
    sectors = λ u n. tt;
    count = refl;
  },
)
flush_loop-Flushed d size (x ∷ xs) (u, (clean, dirty), others) (n, apart) =
    let (ys, d', ran, fl) = flush_loop-Flushed d size xs others apart in
    let alone = fl.sectors x.sector n in
    let base : d' x.sector ≡ d x.sector = fl.written x.sector ∙ view_of-NoBlock d x.sector xs n in
    elim (Bool-cases x.dirty) [
      | inr c ↦
          let here : d' x.sector ≡ (if x.valid then x.contents else d x.sector) =
            elim (Bool-cases x.valid) [
              | inl v ↦ rw v (base ∙ sym (clean v c))
              | inr v ↦ rw v base
            ] in
          (
            x ∷ ys,
            d',
            rw (ran, c) refl,
            cons-Flushed d d' d' size x x xs ys fl n refl u refl refl c here (λ v differs. refl),
          )
      | inl c ↦
          let (valid, small) = dirty c in
          let device : ltb x.sector size ≡ true = lt→ltb x.sector size small in
          let self : (if x.sector == x.sector then x.contents else d' x.sector) ≡ x.contents =
            let hit : (x.sector == x.sector) ≡ true = ground arith in rw hit refl in
          let pick : (v : Bool) → v ≡ true → (if v then x.contents else d x.sector) ≡ x.contents =
            λ v e. rw e refl in
          let x' = record x { dirty = false; rw_lock = idle x.rw_lock.mode } in
          (
            x' ∷ ys,
            (λ t. if t == x.sector then x.contents else d' t),
            rw
                (
                  ran,
                  c,
                  ap write_lock_try_acquire u,
                  try_acquire_idle x.rw_lock.mode,
                  valid,
                  device,
                  write_release_writing x.rw_lock.mode,
                )
                refl,
            cons-Flushed d d' (λ t. if t == x.sector then x.contents else d' t) size x x' xs ys fl n
                refl refl refl refl refl (self ∙ sym (pick x.valid valid))
                (λ v differs. let miss : (v == x.sector) ≡ false = ground arith in rw miss refl),
          )
    ]

-- A flush, where no one holds a block: the device has the words of every sector, no sector's words
-- change for the cache's users, and the invariant holds.
pub flush-written :
    (c : Cache)
    → WellFormed c
    → (c' : Cache) × (cache_flush c ≡ some c')
      × WellFormed c'
      × ((t : ℕ) → c'.device t ≡ view c t)
      × ((t : ℕ) → view c' t ≡ view c t)
unfolding cache_flush
flush-written c ok =
    let (ys, d', ran, fl) = flush_loop-Flushed c.device c.size c.buffer_cache ok.hold ok.apart in
    (
      record c { buffer_cache = ys; device = d' },
      rw ran refl,
      record {
        hold = fl.hold;
        apart = fl.apart;
        empties = ok.empties;
        some_block = omega (arith, ok.some_block, fl.count);
      },
      fl.written,
      fl.same,
    )
