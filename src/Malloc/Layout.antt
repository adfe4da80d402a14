-- ===== src/Malloc/Layout.antt =====
-- The blocks that tile the heap of lib/user/malloc.c, and their boundary tags.
use mathlib.Core.Path.{subst}
use modeling_unix.Base.{
  ℕ, ◌+◌, ◌-◌, ◌≤◌, ◌<◌, ◌≡◌, ap, ap₂, ◌∙◌, Bool, true, false, List, [], ◌∷◌, ◌++◌, arith,
}
use modeling_unix.Malloc.{Tag}

-- whether it is in use, and its size
abbrev pub Block : Type 0
Block = Bool × ℕ

abbrev pub tag : Bool → Bool → ℕ → Tag
tag inuse pinuse size = record { inuse = inuse; pinuse = pinuse; size = size }

abbrev pub total : List Block → ℕ
total [] = 0
total ((u, n) ∷ bs) = n + total bs

-- whether the block before what follows is in use
abbrev pub after : Bool → List Block → Bool
after p [] = p
after p ((u, n) ∷ bs) = after u bs

-- Blocks from the address `a` on, behind one that is in use or not. No two free ones stand together.
abbrev pub Seg : (ℕ → Tag) → ℕ → Bool → List Block → Type 0
Seg tags a p [] = Unit
Seg tags a p ((u, n) ∷ bs) =
    (tags a ≡ tag u p n)
    × (8 ≤ n)
    × (u ≡ false → (p ≡ true) × ((tags (a + n - 1)).size ≡ n))
    × Seg tags (a + n) u bs

-- Blocks up to the fence.
abbrev pub Chain : (ℕ → Tag) → ℕ → Bool → List Block → Type 0
Chain tags a p [] = tags a ≡ tag true p 0
Chain tags a p ((u, n) ∷ bs) =
    (tags a ≡ tag u p n)
    × (8 ≤ n)
    × (u ≡ false → (p ≡ true) × ((tags (a + n - 1)).size ≡ n))
    × Chain tags (a + n) u bs

-- Such blocks behind a free one, of which the first may be free too.
abbrev pub Open : (ℕ → Tag) → ℕ → List Block → Type 0
Open tags a [] = tags a ≡ tag true false 0
Open tags a ((u, n) ∷ bs) =
    (tags a ≡ tag u false n)
    × (8 ≤ n)
    × (u ≡ false → (tags (a + n - 1)).size ≡ n)
    × Chain tags (a + n) u bs

pub total-append : (xs ys : List Block) → total (xs ++ ys) ≡ total xs + total ys
total-append [] ys = omega arith
total-append ((u, n) ∷ xs) ys = omega (arith, total-append xs ys)

pub Seg-frame :
    (tags tags' : ℕ → Tag) (a : ℕ) (p : Bool) (bs : List Block)
    → ((i : ℕ) → a ≤ i → i < a + total bs → tags' i ≡ tags i)
    → Seg tags a p bs
    → Seg tags' a p bs
Seg-frame tags tags' a p [] f s = tt
Seg-frame tags tags' a p ((u, n) ∷ bs) f (e, l, g, s) = (
  f a (omega arith) (omega arith) ∙ e,
  l,
  (λ h. ((g h).0, ap (λ (t : Tag). t.size) (f (a + n - 1) (omega arith) (omega arith)) ∙ (g h).1)),
  Seg-frame tags tags' (a + n) u bs (λ i lo hi. f i (omega arith) (omega arith)) s,
)

pub Chain-frame :
    (tags tags' : ℕ → Tag) (a : ℕ) (p : Bool) (bs : List Block)
    → ((i : ℕ) → a ≤ i → i ≤ a + total bs → tags' i ≡ tags i)
    → Chain tags a p bs
    → Chain tags' a p bs
Chain-frame tags tags' a p [] f s = f a (omega arith) (omega arith) ∙ s
Chain-frame tags tags' a p ((u, n) ∷ bs) f (e, l, g, s) = (
  f a (omega arith) (omega arith) ∙ e,
  l,
  (λ h. ((g h).0, ap (λ (t : Tag). t.size) (f (a + n - 1) (omega arith) (omega arith)) ∙ (g h).1)),
  Chain-frame tags tags' (a + n) u bs (λ i lo hi. f i (omega arith) (omega arith)) s,
)

pub Seg-Chain :
    (tags : ℕ → Tag) (a : ℕ) (p : Bool) (xs ys : List Block)
    → Seg tags a p xs
    → Chain tags (a + total xs) (after p xs) ys
    → Chain tags a p (xs ++ ys)
Seg-Chain tags a p [] ys s c = let e : a + 0 ≡ a = omega arith in subst (λ k. Chain tags k p ys) e c
Seg-Chain tags a p ((u, n) ∷ xs) ys (e, l, g, s) c =
    let f : a + (n + total xs) ≡ a + n + total xs = omega arith in
    (e, l, g, Seg-Chain tags (a + n) u xs ys s (subst (λ k. Chain tags k (after u xs) ys) f c))

pub Chain-split :
    (tags : ℕ → Tag) (a : ℕ) (p : Bool) (xs ys : List Block)
    → Chain tags a p (xs ++ ys)
    → Seg tags a p xs × Chain tags (a + total xs) (after p xs) ys
Chain-split tags a p [] ys c =
    let e : a ≡ a + 0 = omega arith in (tt, subst (λ k. Chain tags k p ys) e c)
Chain-split tags a p ((u, n) ∷ xs) ys (e, l, g, c) =
    let f : a + n + total xs ≡ a + (n + total xs) = omega arith in
    let (s, d) = Chain-split tags (a + n) u xs ys c in
    ((e, l, g, s), subst (λ k. Chain tags k (after u xs) ys) f d)

pub Seg-append :
    (tags : ℕ → Tag) (a : ℕ) (p : Bool) (xs ys : List Block)
    → Seg tags a p xs
    → Seg tags (a + total xs) (after p xs) ys
    → Seg tags a p (xs ++ ys)
Seg-append tags a p [] ys s c = let e : a + 0 ≡ a = omega arith in subst (λ k. Seg tags k p ys) e c
Seg-append tags a p ((u, n) ∷ xs) ys (e, l, g, s) c =
    let f : a + (n + total xs) ≡ a + n + total xs = omega arith in
    (e, l, g, Seg-append tags (a + n) u xs ys s (subst (λ k. Seg tags k (after u xs) ys) f c))

-- A free block at the end: the blocks before it, and its tags.
abbrev pub FreeLast : (ℕ → Tag) → ℕ → Bool → List Block → Type 0
FreeLast tags a p xs =
    (zs : List Block) × (m : ℕ) × (xs ≡ zs ++ ((false, m) ∷ []))
    × Seg tags a p zs
    × (after p zs ≡ true)
    × (8 ≤ m)
    × (tags (a + total zs) ≡ tag false true m)
    × ((tags (a + total zs + m - 1)).size ≡ m)

FreeLast-cons :
    (tags : ℕ → Tag) (a : ℕ) (p u : Bool) (n : ℕ) (xs : List Block)
    → tags a ≡ tag u p n
    → 8 ≤ n
    → (u ≡ false → (p ≡ true) × ((tags (a + n - 1)).size ≡ n))
    → FreeLast tags (a + n) u xs
    → FreeLast tags a p ((u, n) ∷ xs)
FreeLast-cons tags a p u n xs e l g (zs, m, f, s, t, k, h, o) =
    let q : a + n + total zs ≡ a + (n + total zs) = omega arith in
    (
      (u, n) ∷ zs,
      m,
      ap (λ bs. (u, n) ∷ bs) f,
      (e, l, g, s),
      t,
      k,
      subst (λ i. tags i ≡ tag false true m) q h,
      subst (λ i. (tags (i + m - 1)).size ≡ m) q o,
    )

Seg-FreeLast :
    (tags : ℕ → Tag) (a : ℕ) (p u : Bool) (n : ℕ) (xs : List Block)
    → Seg tags a p ((u, n) ∷ xs)
    → after u xs ≡ false
    → FreeLast tags a p ((u, n) ∷ xs)
Seg-FreeLast tags a p u n [] (e, l, g, s) f =
    let (h, o) = g f in
    let q : a ≡ a + 0 = omega arith in
    let t : tags a ≡ tag false true n = e ∙ ap₂ (λ (x y : Bool). tag x y n) f h in
    (
      [],
      n,
      ap (λ (x : Bool). (x, n) ∷ []) f,
      tt,
      h,
      l,
      subst (λ i. tags i ≡ tag false true n) q t,
      subst (λ i. (tags (i + n - 1)).size ≡ n) q o,
    )
Seg-FreeLast tags a p u n ((v, k) ∷ xs) (e, l, g, s) f =
    FreeLast-cons tags a p u n ((v, k) ∷ xs) e l g (Seg-FreeLast tags (a + n) u v k xs s f)

pub Seg-last :
    (tags : ℕ → Tag) (a : ℕ) (xs : List Block)
    → Seg tags a true xs
    → after true xs ≡ false
    → FreeLast tags a true xs
Seg-last tags a [] s f = cc
Seg-last tags a ((u, n) ∷ xs) s f = Seg-FreeLast tags a true u n xs s f
