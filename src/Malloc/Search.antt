-- ===== src/Malloc/Search.antt =====
-- `find_fit` of lib/user/malloc.c finds a free block that is large enough.
use mathlib.Core.Path.{subst}
use mathlib.Core.Option.{some-injective}
use modeling_unix.Base.{
  ℕ, zero, suc, ◌+◌, ◌-◌, ◌≤◌, ◌≡◌, refl, sym, ap, ◌∙◌, true, leb→le, false, List, [], ◌∷◌, ◌++◌,
  ◌==◌, ==_iff, leb, arith, Option, none, some, Bool-cases, inl, inr,
}
use modeling_unix.Malloc.{Heap, Tag, find_fit, scan_list, scan_lists, found_or, get_non_empty_list}
use modeling_unix.Malloc.Layout.{Block, total, Chain, Chain-split}
use modeling_unix.Malloc.Lists.{count, listing}
use modeling_unix.Malloc.Join.{Good}

-- A block that the search finds in this list.
abbrev Fits : (ℕ → Tag) → (asize : ℕ) → List ℕ → ℕ → Type 0
Fits tags asize bps bp = (1 ≤ count bp bps) × (asize ≤ (tags bp).size)

abbrev Scanned : (ℕ → Tag) → (asize : ℕ) → List ℕ → Option ℕ × ℕ → Type 0
Scanned tags asize bps (none, check) = Unit
Scanned tags asize bps (some bp, check) = Fits tags asize bps bp

Scanned-cons :
    (tags : ℕ → Tag) (asize x : ℕ) (bps : List ℕ) (r : Option ℕ × ℕ)
    → Scanned tags asize bps r
    → Scanned tags asize (x ∷ bps) r
Scanned-cons tags asize x bps (none, check) s = tt
Scanned-cons tags asize x bps (some bp, check) (c, l) = (omega arith, l)

scan_list-Scanned :
    (tags : ℕ → Tag) (asize : ℕ) (bps : List ℕ) (check : ℕ)
    → Scanned tags asize bps (scan_list tags asize bps check)
scan_list-Scanned tags asize [] check = tt
scan_list-Scanned tags asize (x ∷ bps) check = elim (Bool-cases (leb asize (tags x).size)) [
  | inl f ↦
      rw f (
        (let e : (x == x) ≡ true = ground arith in rw e (omega arith)),
        leb→le asize (tags x).size f,
      )
  | inr f ↦ elim (Bool-cases (leb 50 (check + 1))) [
    | inl g ↦ rw (f, g) tt
    | inr g ↦
        rw (f, g)
          (Scanned-cons tags asize x bps (scan_list tags asize bps (check + 1))
            (scan_list-Scanned tags asize bps (check + 1)))
  ]
]

found_or-Fits :
    (h : Heap) (asize index bp : ℕ) (r : Option ℕ × ℕ) (next : ℕ → Option ℕ)
    → Scanned h.tags asize (h.seg_list index) r
    → ((c : ℕ) → next c ≡ some bp → (i : ℕ) × Fits h.tags asize (h.seg_list i) bp)
    → found_or r next ≡ some bp
    → (i : ℕ) × Fits h.tags asize (h.seg_list i) bp
found_or-Fits h asize index bp (none, check) next s rest e = rest check e
found_or-Fits h asize index bp (some b, check) next s rest e =
    (index, subst (Fits h.tags asize (h.seg_list index)) (some-injective b bp e) s)

scan_lists-Fits :
    (left : ℕ) (h : Heap) (asize index check bp : ℕ)
    → scan_lists left h asize index check ≡ some bp
    → (i : ℕ) × Fits h.tags asize (h.seg_list i) bp
scan_lists-Fits zero h asize index check bp e = cc
scan_lists-Fits (suc left) h asize index check bp e =
    found_or-Fits h asize index bp (scan_list h.tags asize (h.seg_list index) check)
      (λ c. scan_lists left h asize (index + 1) c)
      (scan_list-Scanned h.tags asize (h.seg_list index) check)
      (λ c f. scan_lists-Fits left h asize (index + 1) c bp f) e

-- The block that a list has, among the blocks of the heap.
pub listing-split :
    (b : ℕ) (bs : List Block) (i a : ℕ)
    → 1 ≤ listing b bs i a
    → (xs : List Block) × (n : ℕ) × (ys : List Block) × (bs ≡ xs ++ ((false, n) ∷ ys))
      × (a ≡ b + total xs)
listing-split b [] i a h = absurd (omega arith)
listing-split b ((true, n) ∷ bs) i a h =
    let (xs, k, ys, e, f) = listing-split (b + n) bs i a (omega arith) in
    ((true, n) ∷ xs, k, ys, ap (λ cs. (true, n) ∷ cs) e, f ∙ omega arith)
listing-split b ((false, n) ∷ bs) i a h = elim (Bool-cases (b == a)) [
  | inl f ↦ ([], n, bs, refl, sym ((==_iff b a).0 f) ∙ omega arith)
  | inr f ↦
      let (xs, k, ys, e, g) = listing-split (b + n) bs i a (ground (arith, f)) in
      ((false, n) ∷ xs, k, ys, ap (λ cs. (false, n) ∷ cs) e, g ∙ omega arith)
]

pub find_fit-Fits :
    (h : Heap) (bs : List Block) (asize bp : ℕ)
    → Good h bs
    → find_fit asize h ≡ some bp
    → (xs : List Block) × (n : ℕ) × (ys : List Block) × (bs ≡ xs ++ ((false, n) ∷ ys))
      × (bp ≡ h.listp + total xs)
      × (asize ≤ n)
unfolding find_fit
find_fit-Fits h bs asize bp g e =
    let index = get_non_empty_list h.seg_list asize in
    let (i, fits) = scan_lists-Fits (16 - index) h asize index 0 bp e in
    let (c, l) = fits in
    let (xs, n, ys, f, q) = listing-split h.listp bs i bp (subst (λ j. 1 ≤ j) (g.lists i bp) c) in
    let (s, (t, large, w, r)) =
      Chain-split h.tags h.listp true xs ((false, n) ∷ ys)
        (subst (Chain h.tags h.listp true) f g.chain) in
    (
      xs,
      n,
      ys,
      f,
      q,
      subst (λ (j : ℕ). asize ≤ j) (ap (λ j. (h.tags j).size) q ∙ ap (λ (x : Tag). x.size) t) l,
    )
