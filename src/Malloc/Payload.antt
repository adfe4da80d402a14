-- ===== src/Malloc/Payload.antt =====
-- The words of the heap of lib/user/malloc.c that belong to the program: those of the blocks in use, without
-- their headers.
use modeling_unix.Base.{
  ℕ, ◌+◌, ◌≤◌, ◌<◌, ◌≡◌, ◌⊎◌, inl, inr, ◌∙◌, true, false, List, [], ◌∷◌, ◌++◌, arith,
}
use modeling_unix.Malloc.{Heap, Tag}
use modeling_unix.Malloc.Layout.{Block, total}
use modeling_unix.Malloc.Lists.{in_use}
use modeling_unix.Malloc.Join.{freed, freed-below, freed-above}

abbrev pub Within : List (ℕ × ℕ) → ℕ → Type 0
Within [] i = ⊥
Within ((b, n) ∷ us) i = ((b < i) × (i < b + n)) ⊎ Within us i

-- The words of these blocks are as they were.
abbrev pub Intact : (ℕ → Tag) → (ℕ → Tag) → List (ℕ × ℕ) → Type 0
Intact tags tags' us = (i : ℕ) → Within us i → tags' i ≡ tags i

pub Intact-trans :
    (t t' t'' : ℕ → Tag) (us : List (ℕ × ℕ)) → Intact t t' us → Intact t' t'' us → Intact t t'' us
Intact-trans t t' t'' us f g i w = g i w ∙ f i w

Within-append : (us vs : List (ℕ × ℕ)) (i : ℕ) → Within (us ++ vs) i → Within us i ⊎ Within vs i
Within-append [] vs i w = inr w
Within-append ((b, n) ∷ us) vs i (inl w) = inl (inl w)
Within-append ((b, n) ∷ us) vs i (inr w) = elim (Within-append us vs i w) [
  | inl x ↦ inl (inr x)
  | inr x ↦ inr x
]

Within-in_use :
    (b : ℕ) (bs : List Block) (i : ℕ) → Within (in_use b bs) i → (b < i) × (i < b + total bs)
Within-in_use b [] i w = absurd w
Within-in_use b ((true, n) ∷ bs) i (inl (lo, hi)) = (lo, omega arith)
Within-in_use b ((true, n) ∷ bs) i (inr w) =
    let (lo, hi) = Within-in_use (b + n) bs i w in (omega arith, omega arith)
Within-in_use b ((false, n) ∷ bs) i w =
    let (lo, hi) = Within-in_use (b + n) bs i w in (omega arith, omega arith)

-- What a call changes between two stretches of blocks leaves their words alone.
pub between-Intact :
    (tags tags' : ℕ → Tag) (b : ℕ) (xs : List Block) (c : ℕ) (ys : List Block)
    → ((i : ℕ) → i < b + total xs → tags' i ≡ tags i)
    → ((i : ℕ) → c < i → tags' i ≡ tags i)
    → Intact tags tags' (in_use b xs ++ in_use c ys)
between-Intact tags tags' b xs c ys f g i w = elim (Within-append (in_use b xs) (in_use c ys) i w) [
  | inl x ↦ f i (Within-in_use b xs i x).1
  | inr x ↦ g i (Within-in_use c ys i x).0
]

pub freed-Intact :
    (h : Heap) (m : ℕ) (xs : List Block) (c : ℕ) (ys : List Block)
    → 1 ≤ m
    → h.listp + total xs + m ≤ c
    → Intact h.tags (freed (h.listp + total xs) m h).tags (in_use h.listp xs ++ in_use c ys)
freed-Intact h m xs c ys one l =
    between-Intact h.tags (freed (h.listp + total xs) m h).tags h.listp xs c ys
      (λ i lo. freed-below (h.listp + total xs) m h i one lo)
      (λ i hi. freed-above (h.listp + total xs) m h i one (omega arith))

Within-more :
    (us : List (ℕ × ℕ)) (u : ℕ × ℕ) (vs : List (ℕ × ℕ)) (i : ℕ)
    → Within (us ++ vs) i
    → Within (us ++ (u ∷ vs)) i
Within-more [] (b, n) vs i w = inr w
Within-more ((a, m) ∷ us) u vs i (inl w) = inl w
Within-more ((a, m) ∷ us) u vs i (inr w) = inr (Within-more us u vs i w)

pub Intact-fewer :
    (t t' : ℕ → Tag) (us : List (ℕ × ℕ)) (u : ℕ × ℕ) (vs : List (ℕ × ℕ))
    → Intact t t' (us ++ (u ∷ vs))
    → Intact t t' (us ++ vs)
Intact-fewer t t' us u vs f i w = f i (Within-more us u vs i w)
