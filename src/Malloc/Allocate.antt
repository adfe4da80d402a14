-- ===== src/Malloc/Allocate.antt =====
-- `malloc` of lib/user/malloc.c, in a heap that it has started.
use mathlib.Core.Path.{subst}
use modeling_unix.Base.{
  ℕ, ◌+◌, ◌*◌, ◌≤◌, ◌<◌, ◌^◌, max, ◌≡◌, refl, sym, ap, ◌∙◌, Bool, true, false, List, ◌∷◌, ◌++◌,
  ◌==◌, if◌then◌else◌, arith, not, Option, none, some, ◌>>=◌, Bool-cases, Option-cases, inl, inr,
  ◌⊎◌,
}
use modeling_unix.Malloc.{
  Heap, find_fit, malloc, malloc_in, mm_init, get_block, take_block, grow, adjusted, align,
  extend_heap, list_remove,
}
use modeling_unix.Malloc.Layout.{Block, total}
use modeling_unix.Malloc.Lists.{in_use, in_use-append}
use modeling_unix.Malloc.Payload.{Intact, Intact-trans}
use modeling_unix.Malloc.Join.{Good}
use modeling_unix.Malloc.Extend.{extend_heap-Extended}
use modeling_unix.Malloc.Place.{Good-Held}
use modeling_unix.Malloc.Split.{place-Placed}
use modeling_unix.Malloc.Search.{find_fit-Fits}

-- A heap with these blocks in use and one more, at `b` with at least `asize` words.
abbrev pub Taken : Heap → (bs : List Block) → (asize : ℕ) → Option (Option ℕ × Heap) → Type 0
Taken h bs asize r =
    (h' : Heap) × (cs : List Block) × (b : ℕ) × (k : ℕ) × (before : List (ℕ × ℕ)) × (later : List
      (ℕ × ℕ))
    × (r ≡ some (some (b + 1), h'))
    × Good h' cs
    × (h'.listp ≡ h.listp)
    × (asize ≤ k)
    × (in_use h.listp bs ≡ before ++ later)
    × (in_use h.listp cs ≡ before ++ ((b, k) ∷ later))
    × Intact h.tags h'.tags (in_use h.listp bs)

pub adjusted-le :
    (size : ℕ) → size + 19 < 2 ^ 32 → (8 ≤ adjusted size) × (size + 4 ≤ 4 * adjusted size)
unfolding adjusted align
adjusted-le size h = (omega arith, omega arith)

take_block-Taken :
    (h : Heap) (xs : List Block) (n : ℕ) (ys : List Block) (asize : ℕ)
    → Good h (xs ++ ((false, n) ∷ ys))
    → 8 ≤ asize
    → asize ≤ n
    → Taken h (xs ++ ((false, n) ∷ ys)) asize (take_block asize (h.listp + total xs) h)
take_block-Taken h xs n ys asize g l le =
    let b = h.listp + total xs in
    let (h', bs, k, r, good, p, m, u, t) =
      place-Placed (list_remove b h) xs n ys asize (Good-Held h xs n ys g) l le in
    (
      h',
      bs,
      b,
      k,
      in_use h.listp xs,
      in_use (b + n) ys,
      ap (λ o. o >>= λ h'. some (some (b + 1), h')) r,
      good,
      p,
      m,
      in_use-append h.listp xs ((false, n) ∷ ys),
      u,
      subst (Intact h.tags h'.tags) (sym (in_use-append h.listp xs ((false, n) ∷ ys))) t,
    )

grown-Taken :
    (room : ℕ → ℕ → Bool) (h : Heap) (bs : List Block) (asize : ℕ)
    → Good h bs
    → 8 ≤ asize
    → h.brk + max asize 128 < 2 ^ 29
    → room h.brk (max asize 128) ≡ true
    → Taken h bs asize (extend_heap room (max asize 128) h >>= λ r. grow room asize r)
grown-Taken room h bs asize g l w e =
    let (h1, ws, vs, m, r, good, le, p, v, u, keep) =
      extend_heap-Extended room (max asize 128) h bs (omega arith) e w g in
    let (h', cs, b, k, before, later, r', good', p', le', u', t, keep') =
      take_block-Taken h1 ws m vs asize good l (omega arith) in
    (
      h',
      cs,
      b,
      k,
      before,
      later,
      ap (λ o. o >>= λ r. grow room asize r) r
          ∙ ap (λ j. take_block asize (j + total ws) h1) (sym p)
          ∙ r',
      good',
      p' ∙ p,
      le',
      sym u ∙ ap (λ j. in_use j (ws ++ ((false, m) ∷ vs))) (sym p) ∙ u',
      ap (λ j. in_use j cs) (sym p) ∙ t,
      Intact-trans h.tags h1.tags h'.tags (in_use h.listp bs) keep (
          subst (Intact h1.tags h'.tags) (ap (λ j. in_use j (ws ++ ((false, m) ∷ vs))) p ∙ u)
            keep'),
    )

malloc-get_block :
    (room : ℕ → ℕ → Bool) (h : Heap) (size : ℕ)
    → 1 ≤ h.listp
    → 1 ≤ size
    → malloc room size h ≡ get_block room (adjusted size) (find_fit (adjusted size) h) h
unfolding malloc
malloc-get_block room h size st one =
    let z : (h.listp == 0) ≡ false = ground arith in
    let y : (size == 0) ≡ false = ground arith in
    let t : not (h.listp == 0) ≡ true = ground arith in
    ap (λ b. (if b then mm_init room h else some h) >>= λ h'. malloc_in room size h') z
    ∙ rw y (rw t refl)

-- How `malloc` ends: with a block, or, where no free block is found and the kernel does not grant more
-- memory, with NULL and the heap as it was.
abbrev pub Allocated :
    (room : ℕ → ℕ → Bool)
    → Heap
    → (bs : List Block) → (size : ℕ) → Option (Option ℕ × Heap)
    → Type 0
Allocated room h bs size r =
    Taken h bs (adjusted size) r
    ⊎ ((r ≡ some (none, h)) × (room h.brk (max (adjusted size) 128) ≡ false))

found-Taken :
    (room : ℕ → ℕ → Bool) (h : Heap) (bs : List Block) (asize bp : ℕ)
    → Good h bs
    → 8 ≤ asize
    → find_fit asize h ≡ some bp
    → Taken h bs asize (get_block room asize (find_fit asize h) h)
found-Taken room h bs asize bp g l e =
    let (xs, n, ys, f, q, le) = find_fit-Fits h bs asize bp g e in
    rw e (
      subst (λ j. Taken h bs asize (take_block asize j h)) (sym q)
        (subst (λ cs. Taken h cs asize (take_block asize (h.listp + total xs) h)) (sym f)
          (take_block-Taken h xs n ys asize (subst (Good h) f g) l le)))

get_block-Allocated :
    (room : ℕ → ℕ → Bool) (h : Heap) (bs : List Block) (size : ℕ)
    → Good h bs
    → 8 ≤ adjusted size
    → ((b n : ℕ) → room b n ≡ true → b + n < 2 ^ 29)
    → Allocated room h bs size (get_block room (adjusted size) (find_fit (adjusted size) h) h)
unfolding extend_heap
get_block-Allocated room h bs size g l fits = elim (Option-cases (find_fit (adjusted size) h)) [
  | inr (bp, e) ↦ inl (found-Taken room h bs (adjusted size) bp g l e)
  | inl e ↦ elim (Bool-cases (room h.brk (max (adjusted size) 128))) [
    | inl f ↦ inl (
        rw e (grown-Taken room h bs (adjusted size) g l (fits h.brk (max (adjusted size) 128) f) f))
    | inr f ↦ inr (rw e (rw f refl), f)
  ]
]

-- `malloc` of at least one byte and of less than 2^32 - 19 bytes, in a heap of blocks below 2 GB, where
-- the kernel grants only memory below 2 GB: it does not stop. Either it answers the payload of a block that was not in use and has room for the request and its
-- header, and all other blocks in use stay, with their words; or it answers NULL and changes nothing, where the kernel
-- does not grant more memory. The blocks tile the heap again, no two free ones stand together, and each
-- is in the list of its size.
pub malloc-Allocated :
    (room : ℕ → ℕ → Bool) (h : Heap) (bs : List Block) (size : ℕ)
    → Good h bs
    → 1 ≤ size
    → size + 19 < 2 ^ 32
    → ((b n : ℕ) → room b n ≡ true → b + n < 2 ^ 29)
    → Allocated room h bs size (malloc room size h) × (size + 4 ≤ 4 * adjusted size)
malloc-Allocated room h bs size g one u fits =
    let (l, m) = adjusted-le size u in
    (
      subst (Allocated room h bs size) (sym (malloc-get_block room h size g.started one))
          (get_block-Allocated room h bs size g l fits),
      m,
    )
