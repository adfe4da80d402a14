-- ===== src/Malloc/Coalesce.antt =====
-- `coalesce` and its callers `free` and `extend_heap` of lib/user/malloc.c.
use mathlib.Core.Path.{subst}
use modeling_unix.Base.{
  ℕ, ◌+◌, ◌<◌, ◌^◌, ◌-◌, ◌≤◌, ◌≡◌, refl, sym, ap, ap₂, ◌∙◌, Bool, true, false, List, [], ◌∷◌, ◌++◌,
  ◌==◌, arith, not, some, ◌>>=◌, Bool-cases, inl, inr,
}
use modeling_unix.Malloc.{Heap, Tag, mark_block_free, merge, coalesce, free, list_push_back}
use modeling_unix.Malloc.Layout.{
  Block, tag, total, after, Seg, Chain-split, Seg-frame, Open, Seg-last, total-append,
}
use modeling_unix.Malloc.Tiling.{Chain-Open, starts_used}
use modeling_unix.Malloc.Lists.{count, here, in_use, in_use-append, listing-append, count-push}
use modeling_unix.Malloc.Payload.{Intact, Intact-trans, freed-Intact}
use modeling_unix.Malloc.Join.{
  Good, Loose, next_blk-some, coalesce_none-Good, mark_block_free-freed, freed-header, freed-footer,
  freed-next, freed-below, freed-above, freed,
}
use modeling_unix.Malloc.Merge.{Joined, next-Joined, prev-Joined, both-Joined}

Open-inuse :
    (tags : ℕ → Tag) (a : ℕ) (bs : List Block) → Open tags a bs → (tags a).inuse ≡ starts_used bs
Open-inuse tags a [] o = ap (λ (t : Tag). t.inuse) o
Open-inuse tags a ((u, n) ∷ bs) (t, l, g, c) = ap (λ (t : Tag). t.inuse) t

coalesce-merge :
    (h : Heap) (xs : List Block) (n : ℕ) (ys : List Block)
    → Loose h xs n ys
    → coalesce (h.listp + total xs) h
      ≡ merge (after true xs) (starts_used ys) (h.listp + total xs) (h.listp + total xs + n) n h
unfolding coalesce
coalesce-merge h xs n ys l =
    let b = h.listp + total xs in
    ap (λ o. o >>= λ next. merge (h.tags b).pinuse (h.tags next).inuse b next (h.tags b).size h)
      (next_blk-some h b n (ap (λ (t : Tag). t.size) l.header) (omega (arith, l.large))
        (omega (arith, l.end, l.small)))
    ∙ ap₂ (λ (t : Tag) (u : Bool). merge t.pinuse u b (b + n) t.size h) l.header
        (Open-inuse h.tags (b + n) ys l.back)

none-Joined :
    (h : Heap) (xs : List Block) (n : ℕ) (ys : List Block)
    → Loose h xs n ys
    → after true xs ≡ true
    → starts_used ys ≡ true
    → Joined h xs n ys (merge true true (h.listp + total xs) (h.listp + total xs + n) n h)
none-Joined h xs n ys l p u = (
  h,
  xs,
  ys,
  n,
  refl,
  coalesce_none-Good h xs n ys l p u,
  omega arith,
  refl,
  refl,
  (λ i w. refl),
  in_use-append h.listp xs ((false, n) ∷ ys),
)

behind_used-Joined :
    (h : Heap) (xs : List Block) (n : ℕ) (ys : List Block)
    → Loose h xs n ys
    → after true xs ≡ true
    → Joined h xs n ys
        (merge true (starts_used ys) (h.listp + total xs) (h.listp + total xs + n) n h)
behind_used-Joined h xs n [] l p = none-Joined h xs n [] l p refl
behind_used-Joined h xs n ((true, k) ∷ ys) l p = none-Joined h xs n ((true, k) ∷ ys) l p refl
behind_used-Joined h xs n ((false, k) ∷ ys) l p = next-Joined h xs n k ys l p

behind_free-Joined :
    (h : Heap) (zs : List Block) (m n : ℕ) (ys : List Block)
    → Loose h (zs ++ ((false, m) ∷ [])) n ys
    → Seg h.tags h.listp true zs
    → after true zs ≡ true
    → 8 ≤ m
    → h.tags (h.listp + total zs) ≡ tag false true m
    → (h.tags (h.listp + total zs + m - 1)).size ≡ m
    → Joined h (zs ++ ((false, m) ∷ [])) n ys (
        merge false
          (starts_used ys)
          (h.listp + total (zs ++ ((false, m) ∷ [])))
          (h.listp + total (zs ++ ((false, m) ∷ [])) + n)
          n
          h)
behind_free-Joined h zs m n [] l s p k e f = prev-Joined h zs m n [] l s p k e f refl
behind_free-Joined h zs m n ((true, j) ∷ ys) l s p k e f =
    prev-Joined h zs m n ((true, j) ∷ ys) l s p k e f refl
behind_free-Joined h zs m n ((false, j) ∷ ys) l s p k e f = both-Joined h zs m n j ys l s p k e f

pub coalesce-Joined :
    (h : Heap) (xs : List Block) (n : ℕ) (ys : List Block)
    → Loose h xs n ys
    → Joined h xs n ys (coalesce (h.listp + total xs) h)
coalesce-Joined h xs n ys l =
    subst (Joined h xs n ys) (sym (coalesce-merge h xs n ys l)) (elim (Bool-cases (after true xs)) [
      | inl p ↦
          subst
            (λ u.
              Joined h xs n ys
                (merge u (starts_used ys) (h.listp + total xs) (h.listp + total xs + n) n h))
            (sym p) (behind_used-Joined h xs n ys l p)
      | inr p ↦
          let (zs, m, e, s, q, k, t, f) = Seg-last h.tags h.listp xs l.front p in
          subst
            (λ u.
              Joined h xs n ys
                (merge u (starts_used ys) (h.listp + total xs) (h.listp + total xs + n) n h))
            (sym p)
            (subst
              (λ bs.
                Joined h bs n ys
                  (merge false (starts_used ys) (h.listp + total bs) (h.listp + total bs + n) n h))
              (sym e)
              (behind_free-Joined h zs m n ys (subst (λ bs. Loose h bs n ys) e l) s q k t f))
    ])

-- A block in use becomes free.
free-Loose :
    (h : Heap) (xs : List Block) (n : ℕ) (ys : List Block)
    → Good h (xs ++ ((true, n) ∷ ys))
    → Loose
        (freed
          (h.listp + total xs)
          n
          (list_push_back (h.tags (h.listp + total xs)).size (h.listp + total xs) h))
        xs
        n
        ys
free-Loose h xs n ys g =
    let b = h.listp + total xs in
    let (s, (e, large, w, c)) = Chain-split h.tags h.listp true xs ((true, n) ∷ ys) g.chain in
    let h0 : Heap = list_push_back (h.tags b).size b h in
    let one : 1 ≤ n = omega arith in
    record {
      front =
          Seg-frame h.tags (freed b n h0).tags h.listp true xs
            (λ i lo hi. freed-below b n h0 i one hi) s;
      header = freed-header b n h0 one ∙ ap (λ (t : Tag). tag false t.pinuse n) e;
      footer = freed-footer b n h0 one;
      large = large;
      back =
          Chain-Open h.tags (freed b n h0).tags (b + n) true ys c (freed-next b n h0 one)
            (λ i lo hi. freed-above b n h0 i one lo);
      lists = λ i a.
          count-push h.seg_list (h.tags b).size b i a
          ∙ ap (λ (t : Tag). count a (h.seg_list i) + here false t.size b i a) e
          ∙ omega (arith, g.lists i a, listing-append h.listp xs ((true, n) ∷ ys) i a);
      started = g.started;
      end = g.end ∙ omega (arith, total-append xs ((true, n) ∷ ys));
      small = g.small;
    }

started-not_zero : (l : ℕ) → 1 ≤ l → not (l == 0) ≡ true
started-not_zero l h = ground arith

free-coalesce :
    (h : Heap) (b n : ℕ)
    → 1 ≤ h.listp
    → (h.tags b).size ≡ n
    → 1 ≤ n
    → b + n < 2 ^ 29
    → free (b + 1) h
      ≡ (coalesce b (freed b n (list_push_back (h.tags b).size b h)) >>= λ r. some r.1)
unfolding free
free-coalesce h b n l e one small =
    let h0 : Heap = list_push_back (h.tags b).size b h in
    let z : (b + 1 == 0) ≡ false = ground arith in
    let k : b + 1 - 1 ≡ b = omega arith in
    let cont = λ (h2 : Heap). coalesce b h2 >>= λ r. some r.1 in
    rw (started-not_zero h.listp l) (
      rw z (
        rw k (
          ap (λ m. mark_block_free b m h0 >>= cont) e
          ∙ ap (λ o. o >>= cont) (mark_block_free-freed b n h0 one small))))

-- `free` of a block that is in use, in a heap of blocks below 2 GB: it does not stop, the blocks tile the heap
-- again, no two free ones stand together and each is in the list of its size, and of the blocks in use
-- exactly this one is gone, and the words of the others are as they were.
pub free-Freed :
    (h : Heap) (xs : List Block) (n : ℕ) (ys : List Block)
    → Good h (xs ++ ((true, n) ∷ ys))
    → (h' : Heap) × (bs : List Block) × (free (h.listp + total xs + 1) h ≡ some h')
      × Good h' bs
      × (h'.listp ≡ h.listp)
      × (in_use h.listp bs ≡ in_use h.listp xs ++ in_use (h.listp + total xs + n) ys)
      × Intact h.tags h'.tags (in_use h.listp bs)
free-Freed h xs n ys g =
    let (s, (e, large, w, c)) = Chain-split h.tags h.listp true xs ((true, n) ∷ ys) g.chain in
    let b = h.listp + total xs in
    let h1 = freed b n (list_push_back (h.tags b).size b h) in
    let (h', ws, vs, m, r, good, le, p, end, t, u) =
      coalesce-Joined h1 xs n ys (free-Loose h xs n ys g) in
    (
      h',
      ws ++ ((false, m) ∷ vs),
      free-coalesce h b n g.started (ap (λ (t : Tag). t.size) e) (omega arith)
            (omega (arith, g.end, g.small, total-append xs ((true, n) ∷ ys)))
          ∙ ap (λ o. o >>= λ r. some r.1) r,
      good,
      p,
      u,
      subst (Intact h.tags h'.tags) (sym u) (
          Intact-trans h.tags h1.tags h'.tags (in_use h.listp xs ++ in_use (b + n) ys)
            (freed-Intact (list_push_back (h.tags b).size b h) n xs (b + n) ys (omega arith)
              (omega arith))
            t),
    )
