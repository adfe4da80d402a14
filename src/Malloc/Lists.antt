-- ===== src/Malloc/Lists.antt =====
-- The free lists of lib/user/malloc.c: each has the free blocks of its sizes.
use mathlib.Core.Path.{subst}
use modeling_unix.Base.{
  Bool-cases, ==_iff, inl, inr, ℕ, ◌+◌, ◌-◌, ◌≤◌, ◌<◌, ◌≡◌, refl, ap, ◌∙◌, Bool, true, false, List,
  [], ◌∷◌, ◌++◌, ◌==◌, if◌then◌else◌, arith,
}
use modeling_unix.Malloc.{Tag, get_list, remove, upd}
use modeling_unix.Malloc.Layout.{Block, total, Seg}

abbrev pub count : ℕ → List ℕ → ℕ
count t [] = 0
count t (x ∷ xs) = (if x == t then 1 else 0) + count t xs

-- how often the block `a` of this size at `b` belongs in the list `i`
abbrev pub here : (u : Bool) → (n b i a : ℕ) → ℕ
here true n b i a = 0
here false n b i a = if b == a then (if get_list n == i then 1 else 0) else 0

-- the same for all blocks from `b` on
abbrev pub listing : (b : ℕ) → List Block → (i a : ℕ) → ℕ
listing b [] i a = 0
listing b ((u, n) ∷ bs) i a = here u n b i a + listing (b + n) bs i a

pub listing-append :
    (b : ℕ) (xs ys : List Block) (i a : ℕ)
    → listing b (xs ++ ys) i a ≡ listing b xs i a + listing (b + total xs) ys i a
listing-append b [] ys i a =
    let e : b ≡ b + 0 = omega arith in ap (λ k. listing k ys i a) e ∙ omega arith
listing-append b ((u, n) ∷ xs) ys i a =
    let e : b + n + total xs ≡ b + (n + total xs) = omega arith in
    omega (arith, listing-append (b + n) xs ys i a, ap (λ k. listing k ys i a) e)

pub count-append : (t : ℕ) (xs ys : List ℕ) → count t (xs ++ ys) ≡ count t xs + count t ys
count-append t [] ys = omega arith
count-append t (x ∷ xs) ys = ground (arith, count-append t xs ys)

pub count-remove :
    (t x : ℕ) (xs : List ℕ) → count t (remove x xs) ≡ count t xs - (if x == t then 1 else 0)
count-remove t x [] = ground arith
count-remove t x (y ∷ xs) = ground (arith, count-remove t x xs)

-- A free block is taken off its list.
pub count-remove_one :
    (l : List ℕ) (n x i a rest : ℕ)
    → count a l ≡ rest + here false n x i a
    → (a ≡ x → rest ≡ 0)
    → count a (remove x l) ≡ rest
count-remove_one l n x i a rest h z = ground (arith, count-remove a x l, z)

pub count-push :
    (l : ℕ → List ℕ) (n x i a : ℕ)
    → count a (upd l (get_list n) (l (get_list n) ++ (x ∷ [])) i)
      ≡ count a (l i) + here false n x i a
count-push l n x i a = elim (Bool-cases (get_list n == i)) [
  | inl e ↦
      subst
        (λ j.
          count a (upd l (get_list n) (l (get_list n) ++ (x ∷ [])) j)
          ≡ count a (l j) + here false n x j a)
        ((==_iff (get_list n) i).0 e) (ground (arith, count-append a (l (get_list n)) (x ∷ [])))
  | inr e ↦ ground (arith, e)
]

pub listing-below : (b : ℕ) (bs : List Block) (i a : ℕ) → a < b → listing b bs i a ≡ 0
listing-below b [] i a h = refl
listing-below b ((true, n) ∷ bs) i a h = omega (arith, listing-below (b + n) bs i a (omega arith))
listing-below b ((false, n) ∷ bs) i a h = ground (arith, listing-below (b + n) bs i a (omega arith))

pub listing-above :
    (tags : ℕ → Tag) (b : ℕ) (p : Bool) (bs : List Block) (i a : ℕ)
    → Seg tags b p bs
    → b + total bs ≤ a
    → listing b bs i a ≡ 0
listing-above tags b p [] i a s h = refl
listing-above tags b p ((true, n) ∷ bs) i a (e, l, g, s) h =
    omega (arith, listing-above tags (b + n) true bs i a s (omega arith))
listing-above tags b p ((false, n) ∷ bs) i a (e, l, g, s) h =
    ground (arith, listing-above tags (b + n) false bs i a s (omega arith))

-- Blocks before and behind a place are not in the lists by addresses between them.
pub listing-between :
    (tags : ℕ → Tag) (b : ℕ) (xs ys : List Block) (c i a : ℕ)
    → Seg tags b true xs
    → b + total xs ≤ a
    → a < c
    → listing b xs i a + listing c ys i a ≡ 0
listing-between tags b xs ys c i a s lo hi =
    omega (arith, listing-above tags b true xs i a s lo, listing-below c ys i a hi)

-- the blocks in use, with their addresses and sizes
abbrev pub in_use : (b : ℕ) → List Block → List (ℕ × ℕ)
in_use b [] = []
in_use b ((true, n) ∷ bs) = (b, n) ∷ in_use (b + n) bs
in_use b ((false, n) ∷ bs) = in_use (b + n) bs

pub in_use-append :
    (b : ℕ) (xs ys : List Block) → in_use b (xs ++ ys) ≡ in_use b xs ++ in_use (b + total xs) ys
in_use-append b [] ys = let e : b ≡ b + 0 = omega arith in ap (λ k. in_use k ys) e
in_use-append b ((true, n) ∷ xs) ys =
    let e : b + n + total xs ≡ b + (n + total xs) = omega arith in
    ap (λ bs. (b, n) ∷ bs)
      (in_use-append (b + n) xs ys ∙ ap (λ k. in_use (b + n) xs ++ in_use k ys) e)
in_use-append b ((false, n) ∷ xs) ys =
    let e : b + n + total xs ≡ b + (n + total xs) = omega arith in
    in_use-append (b + n) xs ys ∙ ap (λ k. in_use (b + n) xs ++ in_use k ys) e

pub in_use-last :
    (b : ℕ) (bs : List Block) (m : ℕ) → in_use b (bs ++ ((false, m) ∷ [])) ≡ in_use b bs
in_use-last b [] m = refl
in_use-last b ((true, n) ∷ bs) m = ap (λ us. (b, n) ∷ us) (in_use-last (b + n) bs m)
in_use-last b ((false, n) ∷ bs) m = in_use-last (b + n) bs m
