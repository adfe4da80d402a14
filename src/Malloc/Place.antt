-- ===== src/Malloc/Place.antt =====
-- `place` of lib/user/malloc.c: a free block is used, and what is left of it is a free block.
use modeling_unix.Base.{
  ℕ, ◌+◌, ◌^◌, ◌≤◌, ◌<◌, ◌≡◌, refl, sym, ap, ◌∙◌, Bool, true, false, List, [], ◌∷◌, ◌++◌, arith,
  Option, some, ◌>>=◌,
}
use modeling_unix.Malloc.{Heap, Tag, mark_block_used, next_blk, set_pinuse, list_remove, put}
use modeling_unix.Malloc.Layout.{Block, tag, total, after, Seg, Chain, Chain-split, total-append}
use modeling_unix.Malloc.Tiling.{Chain-behind, used-Chain}
use modeling_unix.Malloc.Lists.{
  count, listing, in_use, in_use-append, listing-append, listing-between, count-remove_one,
}
use modeling_unix.Malloc.Payload.{Intact, between-Intact}
use modeling_unix.Malloc.Join.{Good, next_blk-some, int30-small}

-- A free block that no list has, between blocks in use.
pub record Held (h : Heap) (xs : List Block) (n : ℕ) (ys : List Block) : Type 0 where
  pub front : Seg h.tags h.listp true xs
  pub header : h.tags (h.listp + total xs) ≡ tag false true n
  pub behind : after true xs ≡ true
  pub back : Chain h.tags (h.listp + total xs + n) false ys
  pub lists :
      (i a : ℕ)
      → count a (h.seg_list i) ≡ listing h.listp xs i a + listing (h.listp + total xs + n) ys i a
  pub large : 8 ≤ n
  pub started : 1 ≤ h.listp
  pub end : h.brk ≡ h.listp + total xs + n + total ys + 1
  pub small : h.brk < 2 ^ 29

pub Good-Held :
    (h : Heap) (xs : List Block) (n : ℕ) (ys : List Block)
    → Good h (xs ++ ((false, n) ∷ ys))
    → Held (list_remove (h.listp + total xs) h) xs n ys
Good-Held h xs n ys g =
    let b = h.listp + total xs in
    let (s, (e, large, w, c)) = Chain-split h.tags h.listp true xs ((false, n) ∷ ys) g.chain in
    let (p, f) = w refl in
    record {
      front = s;
      header = e ∙ ap (λ q. tag false q n) p;
      behind = p;
      back = c;
      lists = λ i a.
          count-remove_one (h.seg_list i) n b i a (listing h.listp xs i a + listing (b + n) ys i a)
            (omega (arith, g.lists i a, listing-append h.listp xs ((false, n) ∷ ys) i a))
            (λ x. listing-between h.tags h.listp xs ys (b + n) i a s (omega arith) (omega arith));
      large = large;
      started = g.started;
      end = g.end ∙ omega (arith, total-append xs ((false, n) ∷ ys));
      small = g.small;
    }

-- the heap behind `mark_block_used`
abbrev pub used : (blk size : ℕ) → Heap → Heap
used blk size h =
    set_pinuse (blk + size) true (put blk (record (h.tags blk) { inuse = true; size = size }) h)

pub mark_block_used-used :
    (blk size : ℕ) (h : Heap)
    → 1 ≤ size
    → blk + size < 2 ^ 29
    → mark_block_used blk size h ≡ some (used blk size h)
mark_block_used-used blk size h l small =
    let h' : Heap = put blk (record (h.tags blk) { inuse = true; size = size }) h in
    let e : (h'.tags blk).size ≡ size = ground arith in
    ap
      (λ n.
        let h' : Heap = put blk (record (h.tags blk) { inuse = true; size = n }) h in
        next_blk h' blk >>= λ n. some (set_pinuse n true h'))
      (int30-small size (omega arith))
    ∙ ap (λ o. o >>= λ n. some (set_pinuse n true h')) (next_blk-some h' blk size e l small)

pub used-header :
    (blk size : ℕ) (h : Heap)
    → 1 ≤ size
    → (used blk size h).tags blk ≡ tag true (h.tags blk).pinuse size
used-header blk size h l = ground arith

pub used-next :
    (blk size : ℕ) (h : Heap)
    → 1 ≤ size
    → (used blk size h).tags (blk + size) ≡ record (h.tags (blk + size)) { pinuse = true }
used-next blk size h l = ground arith

pub used-below : (blk size : ℕ) (h : Heap) (i : ℕ) → i < blk → (used blk size h).tags i ≡ h.tags i
used-below blk size h i k = ground arith

pub used-above :
    (blk size : ℕ) (h : Heap) (i : ℕ) → blk + size < i → (used blk size h).tags i ≡ h.tags i
used-above blk size h i k = ground arith

-- What `place` leaves: the blocks in use before, and this one, of at least the size that was asked.
abbrev pub Placed :
    Heap → (xs : List Block) → (n : ℕ) → (ys : List Block) → (asize : ℕ) → Option Heap → Type 0
Placed h xs n ys asize r =
    (h' : Heap) × (bs : List Block) × (k : ℕ) × (r ≡ some h')
    × Good h' bs
    × (h'.listp ≡ h.listp)
    × (asize ≤ k)
    × (in_use h.listp bs
        ≡ in_use h.listp xs ++ ((h.listp + total xs, k) ∷ in_use (h.listp + total xs + n) ys))
    × Intact h.tags h'.tags (in_use h.listp xs ++ in_use (h.listp + total xs + n) ys)

pub whole-Placed :
    (h : Heap) (xs : List Block) (n : ℕ) (ys : List Block) (asize : ℕ)
    → Held h xs n ys
    → asize ≤ n
    → Placed h xs n ys asize (mark_block_used (h.listp + total xs) n h)
whole-Placed h xs n ys asize g l =
    let b = h.listp + total xs in
    let one : 1 ≤ n = omega (arith, g.large) in
    let (o, u) = Chain-behind h.tags (b + n) ys g.back in
    (
      used b n h,
      xs ++ ((true, n) ∷ ys),
      n,
      mark_block_used-used b n h one (omega (arith, g.end, g.small)),
      record {
        chain =
            used-Chain h.tags (used b n h).tags h.listp n xs ys g.front g.large o
              (used-header b n h one
                ∙ ap (λ (t : Tag). tag true t.pinuse n) g.header
                ∙ ap (λ q. tag true q n) (sym g.behind))
              (used-next b n h one) (λ i lo. used-below b n h i lo) (λ i lo. used-above b n h i lo);
        lists = λ i a. g.lists i a ∙ omega (arith, listing-append h.listp xs ((true, n) ∷ ys) i a);
        started = g.started;
        end = g.end ∙ omega (arith, total-append xs ((true, n) ∷ ys));
        small = g.small;
      },
      refl,
      l,
      in_use-append h.listp xs ((true, n) ∷ ys),
      between-Intact h.tags (used b n h).tags h.listp xs (b + n) ys (λ i lo. used-below b n h i lo)
          (λ i hi. used-above b n h i hi),
    )

after_end : (p : Bool) (xs : List Block) (n : ℕ) → after p (xs ++ ((true, n) ∷ [])) ≡ true
after_end p [] n = refl
after_end p ((u, m) ∷ xs) n = after_end u xs n

pub after_last : (xs : List Block) (n : ℕ) → after true (xs ++ ((true, n) ∷ [])) ≡ true
after_last xs n = after_end true xs n
