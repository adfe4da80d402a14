-- ===== src/Malloc/Join.antt =====
-- `coalesce` of lib/user/malloc.c: a block that has just become free joins its free neighbours.
use modeling_unix.Base.{
  ℕ, ◌+◌, ◌%◌, ◌^◌, ◌-◌, ◌≤◌, ◌<◌, ◌≡◌, refl, ap, ◌∙◌, true, false, List, ◌∷◌, ◌++◌, ◌==◌, arith,
  not, some, ◌>>=◌,
}
use modeling_unix.Malloc.{
  Heap, Tag, next_blk, prev_blk, mark_block_free, set_pinuse, set_header_and_footer, put_back,
  int30, put,
}
use modeling_unix.Malloc.Layout.{Block, tag, total, after, Seg, Chain, Open, total-append}
use modeling_unix.Malloc.Tiling.{starts_used, Open-pinuse, free-Chain}
use modeling_unix.Malloc.Lists.{count, here, listing, listing-append, count-push}

-- A heap of these blocks, below 2 GB.
pub record Good (h : Heap) (bs : List Block) : Type 0 where
  pub chain : Chain h.tags h.listp true bs
  pub lists : (i a : ℕ) → count a (h.seg_list i) ≡ listing h.listp bs i a
  pub started : 1 ≤ h.listp
  pub end : h.brk ≡ h.listp + total bs + 1
  pub small : h.brk < 2 ^ 29

-- The same where a block of size `n` behind `xs` is free, and its neighbours may be free too.
pub record Loose (h : Heap) (xs : List Block) (n : ℕ) (ys : List Block) : Type 0 where
  pub front : Seg h.tags h.listp true xs
  pub header : h.tags (h.listp + total xs) ≡ tag false (after true xs) n
  pub footer : (h.tags (h.listp + total xs + n - 1)).size ≡ n
  pub large : 8 ≤ n
  pub back : Open h.tags (h.listp + total xs + n) ys
  pub lists :
      (i a : ℕ)
      → count a (h.seg_list i)
        ≡ listing h.listp xs i a
          + here false n (h.listp + total xs) i a
          + listing (h.listp + total xs + n) ys i a
  pub started : 1 ≤ h.listp
  pub end : h.brk ≡ h.listp + total xs + n + total ys + 1
  pub small : h.brk < 2 ^ 29

-- a header and a footer whose size the tag can hold
abbrev headed : (blk size : ℕ) → Heap → Heap
headed blk size h =
    let t : Tag = record (h.tags blk) { inuse = false; size = size } in
    put (blk + size - 1) t (put blk t h)

abbrev pub freed : (blk size : ℕ) → Heap → Heap
freed blk size h = set_pinuse (blk + size) false (headed blk size h)

pub int30-small : (n : ℕ) → n < 2 ^ 29 → int30 n ≡ n
int30-small n l = ground arith

header_and_footer-headed :
    (blk size : ℕ) (h : Heap)
    → 1 ≤ size
    → blk + size < 2 ^ 29
    → set_header_and_footer blk size false h ≡ headed blk size h
header_and_footer-headed blk size h l small =
    let t : Tag = record (h.tags blk) { inuse = false; size = size } in
    let at : (blk + size + (2 ^ 30 - 1)) % 2 ^ 30 ≡ blk + size - 1 = omega arith in
    ap
      (λ n.
        let t : Tag = record (h.tags blk) { inuse = false; size = n } in
        put ((blk + n + (2 ^ 30 - 1)) % 2 ^ 30) t (put blk t h))
      (int30-small size (omega arith))
    ∙ ap (λ a. put a t (put blk t h)) at

pub next_blk-some :
    (h : Heap) (blk n : ℕ)
    → (h.tags blk).size ≡ n
    → 1 ≤ n
    → blk + n < 2 ^ 29
    → next_blk h blk ≡ some (blk + n)
next_blk-some h blk n e l small =
    let f : not (n == 0) ≡ true = ground arith in
    let at : (blk + n) % 2 ^ 30 ≡ blk + n = omega arith in rw e (rw f (ap some at))

pub prev_blk-some :
    (h : Heap) (blk n : ℕ)
    → (h.tags (blk - 1)).size ≡ n
    → 1 ≤ n
    → n ≤ blk
    → blk < 2 ^ 29
    → prev_blk h blk ≡ some (blk - n)
prev_blk-some h blk n e l le small =
    let f : not (n == 0) ≡ true = ground arith in
    let at : (blk + (2 ^ 30 - n % 2 ^ 30)) % 2 ^ 30 ≡ blk - n = omega arith in
    rw e (rw f (ap some at))

pub mark_block_free-freed :
    (blk size : ℕ) (h : Heap)
    → 1 ≤ size
    → blk + size < 2 ^ 29
    → mark_block_free blk size h ≡ some (freed blk size h)
mark_block_free-freed blk size h l small =
    let h' : Heap = headed blk size h in
    let e : (h'.tags blk).size ≡ size = ground arith in
    ap (λ h'. next_blk h' blk >>= λ n. some (set_pinuse n false h'))
      (header_and_footer-headed blk size h l small)
    ∙ ap (λ o. o >>= λ n. some (set_pinuse n false h')) (next_blk-some h' blk size e l small)

pub freed-header :
    (blk size : ℕ) (h : Heap)
    → 1 ≤ size
    → (freed blk size h).tags blk ≡ tag false (h.tags blk).pinuse size
freed-header blk size h l = ground arith

pub freed-footer :
    (blk size : ℕ) (h : Heap) → 1 ≤ size → ((freed blk size h).tags (blk + size - 1)).size ≡ size
freed-footer blk size h l = ground arith

pub freed-next :
    (blk size : ℕ) (h : Heap)
    → 1 ≤ size
    → (freed blk size h).tags (blk + size) ≡ record (h.tags (blk + size)) { pinuse = false }
freed-next blk size h l = ground arith

pub freed-below :
    (blk size : ℕ) (h : Heap) (i : ℕ) → 1 ≤ size → i < blk → (freed blk size h).tags i ≡ h.tags i
freed-below blk size h i l k = ground arith

pub freed-above :
    (blk size : ℕ) (h : Heap) (i : ℕ)
    → 1 ≤ size
    → blk + size < i
    → (freed blk size h).tags i ≡ h.tags i
freed-above blk size h i l k = ground arith

-- The block without a free neighbour.
pub coalesce_none-Good :
    (h : Heap) (xs : List Block) (n : ℕ) (ys : List Block)
    → Loose h xs n ys
    → after true xs ≡ true
    → starts_used ys ≡ true
    → Good h (xs ++ ((false, n) ∷ ys))
coalesce_none-Good h xs n ys l p u = record {
  chain =
      free-Chain h.tags h.tags h.listp n xs ys l.front p l.large l.back u
        (l.header ∙ ap (λ q. tag false q n) p) l.footer
        (Open-pinuse h.tags (h.listp + total xs + n) ys l.back) (λ i lo. refl) (λ i lo. refl);
  lists = λ i a. l.lists i a ∙ omega (arith, listing-append h.listp xs ((false, n) ∷ ys) i a);
  started = l.started;
  end = l.end ∙ omega (arith, total-append xs ((false, n) ∷ ys));
  small = l.small;
}

-- A free block in the list of its size, whose neighbours are in use.
pub joined-Good :
    (h : Heap) (l : ℕ → List ℕ) (xs : List Block) (m : ℕ) (ys : List Block)
    → Seg h.tags h.listp true xs
    → after true xs ≡ true
    → 8 ≤ m
    → (h.tags (h.listp + total xs)).pinuse ≡ true
    → Open h.tags (h.listp + total xs + m) ys
    → starts_used ys ≡ true
    → ((i a : ℕ) → count a (l i) ≡ listing h.listp xs i a + listing (h.listp + total xs + m) ys i a)
    → 1 ≤ h.listp
    → h.brk ≡ h.listp + total xs + m + total ys + 1
    → h.brk < 2 ^ 29
    → Good
        (put_back (h.listp + total xs) (record (freed (h.listp + total xs) m h) { seg_list = l })).1
        (xs ++ ((false, m) ∷ ys))
joined-Good h l xs m ys s p large pin o u c st e small =
    let b = h.listp + total xs in
    let one : 1 ≤ m = omega arith in
    let head = freed-header b m h one ∙ ap (λ q. tag false q m) pin in
    record {
      chain =
          free-Chain h.tags (freed b m h).tags h.listp m xs ys s p large o u head
            (freed-footer b m h one) (freed-next b m h one) (λ i lo. freed-below b m h i one lo)
            (λ i lo. freed-above b m h i one lo);
      lists = λ i a.
          count-push l ((freed b m h).tags b).size b i a
          ∙ ap (λ (t : Tag). count a (l i) + here false t.size b i a) head
          ∙ omega (arith, c i a, listing-append h.listp xs ((false, m) ∷ ys) i a);
      started = st;
      end = e ∙ omega (arith, total-append xs ((false, m) ∷ ys));
      small = small;
    }
