-- ===== src/Malloc/Tiling.antt =====
-- A block of the heap of lib/user/malloc.c becomes free or is used: the other tags that must follow.
use modeling_unix.Base.{
  ℕ, ◌+◌, ◌-◌, ◌≤◌, ◌<◌, ◌≡◌, refl, sym, ap, ◌∙◌, Bool, true, false, List, [], ◌∷◌, ◌++◌, arith,
}
use modeling_unix.Malloc.{Tag}
use modeling_unix.Malloc.Layout.{
  Block, tag, total, after, Seg, Chain, Open, Seg-frame, Chain-frame, Seg-Chain,
}

-- A first block that is in use, or the fence.
abbrev pub starts_used : List Block → Bool
starts_used [] = true
starts_used ((u, n) ∷ bs) = u

-- The first tag's note about the block before, changed.
pub Open-Chain :
    (tags tags' : ℕ → Tag) (a : ℕ) (q : Bool) (bs : List Block)
    → Open tags a bs
    → tags' a ≡ record (tags a) { pinuse = q }
    → ((i : ℕ) → a < i → i ≤ a + total bs → tags' i ≡ tags i)
    → (q ≡ false → starts_used bs ≡ true)
    → Chain tags' a q bs
Open-Chain tags tags' a q [] o e f h = e ∙ ap (λ (t : Tag). record t { pinuse = q }) o
Open-Chain tags tags' a q ((u, n) ∷ bs) (t, l, g, c) e f h = (
  e ∙ ap (λ (t : Tag). record t { pinuse = q }) t,
  l,
  (λ k. (
    ground (arith, h, k),
    ap (λ (t : Tag). t.size) (f (a + n - 1) (omega arith) (omega arith)) ∙ g k,
  )),
  Chain-frame tags tags' (a + n) u bs (λ i lo hi. f i (omega arith) (omega arith)) c,
)

pub Chain-Open :
    (tags tags' : ℕ → Tag) (a : ℕ) (p : Bool) (bs : List Block)
    → Chain tags a p bs
    → tags' a ≡ record (tags a) { pinuse = false }
    → ((i : ℕ) → a < i → i ≤ a + total bs → tags' i ≡ tags i)
    → Open tags' a bs
Chain-Open tags tags' a p [] c e f = e ∙ ap (λ (t : Tag). record t { pinuse = false }) c
Chain-Open tags tags' a p ((u, n) ∷ bs) (t, l, g, c) e f = (
  e ∙ ap (λ (t : Tag). record t { pinuse = false }) t,
  l,
  (λ k. ap (λ (t : Tag). t.size) (f (a + n - 1) (omega arith) (omega arith)) ∙ (g k).1),
  Chain-frame tags tags' (a + n) u bs (λ i lo hi. f i (omega arith) (omega arith)) c,
)

pub Open-pinuse :
    (tags : ℕ → Tag) (a : ℕ) (bs : List Block)
    → Open tags a bs
    → tags a ≡ record (tags a) { pinuse = false }
Open-pinuse tags a [] o = o ∙ ap (λ (t : Tag). record t { pinuse = false }) (sym o)
Open-pinuse tags a ((u, n) ∷ bs) (t, l, g, c) =
    t ∙ ap (λ (t : Tag). record t { pinuse = false }) (sym t)

-- Behind a free block stands none.
pub Chain-behind :
    (tags : ℕ → Tag) (a : ℕ) (bs : List Block)
    → Chain tags a false bs
    → Open tags a bs × (starts_used bs ≡ true)
Chain-behind tags a [] c = (c, refl)
Chain-behind tags a ((true, n) ∷ bs) (e, l, g, c) = ((e, l, (λ k. (g k).1), c), refl)
Chain-behind tags a ((false, n) ∷ bs) (e, l, g, c) = let (f, o) = g refl in cc

-- A free block between blocks that are in use.
pub free-Chain :
    (tags tags' : ℕ → Tag) (a m : ℕ) (xs ys : List Block)
    → Seg tags a true xs
    → after true xs ≡ true
    → 8 ≤ m
    → Open tags (a + total xs + m) ys
    → starts_used ys ≡ true
    → tags' (a + total xs) ≡ tag false true m
    → (tags' (a + total xs + m - 1)).size ≡ m
    → tags' (a + total xs + m) ≡ record (tags (a + total xs + m)) { pinuse = false }
    → ((i : ℕ) → i < a + total xs → tags' i ≡ tags i)
    → ((i : ℕ) → a + total xs + m < i → tags' i ≡ tags i)
    → Chain tags' a true (xs ++ ((false, m) ∷ ys))
free-Chain tags tags' a m xs ys s p l o u header footer next below above =
    Seg-Chain tags' a true xs ((false, m) ∷ ys)
      (Seg-frame tags tags' a true xs (λ i lo hi. below i hi) s)
      (
        header ∙ ap (λ (q : Bool). tag false q m) (sym p),
        l,
        (λ k. (p, footer)),
        Open-Chain tags tags' (a + total xs + m) false ys o next (λ i lo hi. above i lo) (λ k. u),
      )

-- A block in use between others.
pub used-Chain :
    (tags tags' : ℕ → Tag) (a m : ℕ) (xs ys : List Block)
    → Seg tags a true xs
    → 8 ≤ m
    → Open tags (a + total xs + m) ys
    → tags' (a + total xs) ≡ tag true (after true xs) m
    → tags' (a + total xs + m) ≡ record (tags (a + total xs + m)) { pinuse = true }
    → ((i : ℕ) → i < a + total xs → tags' i ≡ tags i)
    → ((i : ℕ) → a + total xs + m < i → tags' i ≡ tags i)
    → Chain tags' a true (xs ++ ((true, m) ∷ ys))
used-Chain tags tags' a m xs ys s l o header next below above =
    Seg-Chain tags' a true xs ((true, m) ∷ ys)
      (Seg-frame tags tags' a true xs (λ i lo hi. below i hi) s)
      (
        header,
        l,
        (λ k. cc),
        Open-Chain tags tags' (a + total xs + m) true ys o next (λ i lo hi. above i lo) (λ k. cc),
      )
