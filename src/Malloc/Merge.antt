-- ===== src/Malloc/Merge.antt =====
-- The cases of `coalesce` of lib/user/malloc.c, by its neighbours.
use mathlib.Core.Path.{subst}
use modeling_unix.Base.{
  ℕ, ◌+◌, ◌^◌, ◌-◌, ◌≤◌, ◌<◌, ◌≡◌, refl, sym, ap, ap₂, ◌∙◌, true, false, List, [], ◌∷◌, ◌++◌, arith,
  Option, some, ◌>>=◌,
}
use modeling_unix.Malloc.{
  Heap, Tag, remove, prev_blk, mark_block_free, merge, put_back, list_remove,
}
use modeling_unix.Malloc.Layout.{Block, tag, total, after, Seg, Open, total-append}
use modeling_unix.Malloc.Tiling.{starts_used, Chain-behind}
use modeling_unix.Malloc.Lists.{
  here, listing, in_use, in_use-append, in_use-last, listing-between, count-remove_one,
  listing-append,
}
use modeling_unix.Malloc.Payload.{Intact, freed-Intact}
use modeling_unix.Malloc.Join.{
  Good, Loose, freed, prev_blk-some, mark_block_free-freed, joined-Good,
}

-- What `coalesce` answers: the free block that it made, in a heap with the same blocks in use.
abbrev pub Joined :
    Heap → (xs : List Block) → (n : ℕ) → (ys : List Block) → Option (ℕ × Heap) → Type 0
Joined h xs n ys r =
    (h' : Heap) × (ws : List Block) × (vs : List Block) × (m : ℕ) × (r
      ≡ some (h.listp + total ws, h'))
    × Good h' (ws ++ ((false, m) ∷ vs))
    × (n ≤ m)
    × (h'.listp ≡ h.listp)
    × (h'.brk ≡ h.brk)
    × Intact h.tags h'.tags (in_use h.listp xs ++ in_use (h.listp + total xs + n) ys)
    × (in_use h.listp (ws ++ ((false, m) ∷ vs))
        ≡ in_use h.listp xs ++ in_use (h.listp + total xs + n) ys)

merge_next-some :
    (h : Heap) (bp next n k : ℕ)
    → (h.tags next).size ≡ k
    → 1 ≤ n
    → bp + (n + k) < 2 ^ 29
    → merge true false bp next n h
      ≡ some (put_back bp (list_remove bp (list_remove next (freed bp (n + k) h))))
merge_next-some h bp next n k e l small =
    ap
      (λ j. mark_block_free bp (n + j) h >>= λ h'.
        some (put_back bp (list_remove bp (list_remove next h'))))
      e
    ∙ ap (λ o. o >>= λ h'. some (put_back bp (list_remove bp (list_remove next h'))))
        (mark_block_free-freed bp (n + k) h (omega arith) small)

pub next-Joined :
    (h : Heap) (xs : List Block) (n k : ℕ) (zs : List Block)
    → Loose h xs n ((false, k) ∷ zs)
    → after true xs ≡ true
    → Joined h xs n
        ((false, k) ∷ zs)
        (merge true false (h.listp + total xs) (h.listp + total xs + n) n h)
next-Joined h xs n k zs l p =
    let b = h.listp + total xs in
    let (t, large, g, c) = l.back in
    let (o, u) = Chain-behind h.tags (b + n + k) zs c in
    let q : b + n + k ≡ b + (n + k) = omega arith in
    let lists = λ (i : ℕ). remove b (remove (b + n) (h.seg_list i)) in
    (
      _,
      xs,
      zs,
      n + k,
      merge_next-some h b (b + n) n k (ap (λ (x : Tag). x.size) t) (omega (arith, l.large))
          (omega (arith, l.end, l.small)),
      joined-Good h lists xs (n + k) zs l.front p (omega (arith, large))
          (ap (λ (x : Tag). x.pinuse) l.header ∙ p) (subst (λ j. Open h.tags j zs) q o) u
          (λ i a.
            let r = listing h.listp xs i a + listing (b + (n + k)) zs i a in
            let z = λ (lo : b ≤ a) (hi : a < b + (n + k)).
              listing-between h.tags h.listp xs zs (b + (n + k)) i a l.front lo hi in
            let w = ap (λ j. listing j zs i a) q in
            count-remove_one (remove (b + n) (h.seg_list i)) n b i a r
              (count-remove_one (h.seg_list i) k (b + n) i a (r + here false n b i a)
                (omega (arith, l.lists i a, w)) (λ e. ground (arith, z, large)))
              (λ e. z (omega arith) (omega (arith, l.large))))
          l.started (l.end ∙ omega arith) l.small,
      omega arith,
      refl,
      refl,
      freed-Intact h (n + k) xs (b + n + k) zs (omega (arith, l.large)) (omega arith),
      in_use-append h.listp xs ((false, n + k) ∷ zs)
          ∙ ap (λ j. in_use h.listp xs ++ in_use j zs) (sym q),
    )

prev_blk-at :
    (h : Heap) (bp m c : ℕ)
    → bp ≡ c + m
    → (h.tags (c + m - 1)).size ≡ m
    → 1 ≤ m
    → bp < 2 ^ 29
    → prev_blk h bp ≡ some c
prev_blk-at h bp m c e f l small =
    let g : c + m - 1 ≡ bp - 1 = omega arith in
    let k : bp - m ≡ c = omega arith in
    prev_blk-some h bp m (subst (λ j. (h.tags j).size ≡ m) g f) l (omega arith) small ∙ ap some k

merge_prev-some :
    (h : Heap) (bp next n m c : ℕ)
    → bp ≡ c + m
    → (h.tags (c + m - 1)).size ≡ m
    → (h.tags c).size ≡ m
    → 8 ≤ m
    → c + (n + m) < 2 ^ 29
    → merge false true bp next n h
      ≡ some (put_back c (list_remove c (list_remove bp (freed c (n + m) h))))
merge_prev-some h bp next n m c e f g l small =
    let cont =
      λ (prev : ℕ) (h' : Heap). some (put_back prev (list_remove prev (list_remove bp h'))) in
    ap (λ o. o >>= λ prev. mark_block_free prev (n + (h.tags prev).size) h >>= cont prev)
      (prev_blk-at h bp m c e f (omega arith) (omega arith))
    ∙ ap (λ j. mark_block_free c (n + j) h >>= cont c) g
    ∙ ap (λ o. o >>= cont c) (mark_block_free-freed c (n + m) h (omega arith) small)

pub prev-Joined :
    (h : Heap) (zs : List Block) (m n : ℕ) (ys : List Block)
    → Loose h (zs ++ ((false, m) ∷ [])) n ys
    → Seg h.tags h.listp true zs
    → after true zs ≡ true
    → 8 ≤ m
    → h.tags (h.listp + total zs) ≡ tag false true m
    → (h.tags (h.listp + total zs + m - 1)).size ≡ m
    → starts_used ys ≡ true
    → Joined h (zs ++ ((false, m) ∷ [])) n ys (
        merge false true
          (h.listp + total (zs ++ ((false, m) ∷ [])))
          (h.listp + total (zs ++ ((false, m) ∷ [])) + n)
          n
          h)
prev-Joined h zs m n ys l s p large e f u =
    let c = h.listp + total zs in
    let b = h.listp + total (zs ++ ((false, m) ∷ [])) in
    let q : b ≡ c + m = omega (arith, total-append zs ((false, m) ∷ [])) in
    let r : b + n ≡ c + (n + m) = omega arith in
    let lists = λ (i : ℕ). remove c (remove b (h.seg_list i)) in
    (
      _,
      zs,
      ys,
      n + m,
      merge_prev-some h b (b + n) n m c q f (ap (λ (x : Tag). x.size) e) large
          (omega (arith, l.end, l.small, q)),
      joined-Good h lists zs (n + m) ys s p (omega arith) (ap (λ (x : Tag). x.pinuse) e)
          (subst (λ j. Open h.tags j ys) r l.back) u
          (λ i a.
            let t = listing h.listp zs i a + listing (c + (n + m)) ys i a in
            let z = λ (lo : c ≤ a) (hi : a < c + (n + m)).
              listing-between h.tags h.listp zs ys (c + (n + m)) i a s lo hi in
            let w = ap (λ j. listing j ys i a) r in
            let v = listing-append h.listp zs ((false, m) ∷ []) i a in
            count-remove_one (remove b (h.seg_list i)) m c i a t
              (count-remove_one (h.seg_list i) n b i a (t + here false m c i a)
                (omega (arith, l.lists i a, w, v)) (λ x. ground (arith, z, large, l.large, q)))
              (λ x. z (omega arith) (omega (arith, l.large))))
          l.started (l.end ∙ omega (arith, q)) l.small,
      omega arith,
      refl,
      refl,
      subst (λ us. Intact h.tags (freed c (n + m) h).tags (us ++ in_use (b + n) ys))
          (sym (in_use-last h.listp zs m))
          (freed-Intact h (n + m) zs (b + n) ys (omega (arith, l.large)) (omega arith)),
      in_use-append h.listp zs ((false, n + m) ∷ ys)
          ∙ ap₂ (λ (us : List (ℕ × ℕ)) (j : ℕ). us ++ in_use j ys) (sym (in_use-last h.listp zs m))
              (sym r),
    )

freed-inside :
    (blk size : ℕ) (h : Heap) (i : ℕ)
    → blk < i
    → i < blk + size - 1
    → (freed blk size h).tags i ≡ h.tags i
freed-inside blk size h i lo hi = ground arith

abbrev end_both : (bp next prev : ℕ) → Heap → Option (ℕ × Heap)
end_both bp next prev h =
    some (put_back prev (list_remove prev (list_remove next (list_remove bp h))))

merge_both-some :
    (h : Heap) (bp next n k m c : ℕ)
    → bp ≡ c + m
    → (h.tags (c + m - 1)).size ≡ m
    → (h.tags c).size ≡ m
    → (h.tags next).size ≡ k
    → 8 ≤ m
    → 8 ≤ n
    → c + (n + k + m) < 2 ^ 29
    → merge false false bp next n h ≡ end_both bp next c (freed c (n + k + m) h)
merge_both-some h bp next n k m c e f g d l o small =
    let cont = λ (h' : Heap). prev_blk h' bp >>= λ prev'. end_both bp next prev' h' in
    let h' = freed c (n + k + m) h in
    let i : (h'.tags (c + m - 1)).size ≡ m =
      ap (λ (t : Tag). t.size)
        (freed-inside c (n + k + m) h (c + m - 1) (omega arith) (omega arith))
      ∙ f in
    ap
      (λ o.
        o >>= λ prev. mark_block_free prev (n + (h.tags next).size + (h.tags prev).size) h >>= cont)
      (prev_blk-at h bp m c e f (omega arith) (omega arith))
    ∙ ap₂ (λ (x y : ℕ). mark_block_free c (n + x + y) h >>= cont) d g
    ∙ ap (λ o. o >>= cont) (mark_block_free-freed c (n + k + m) h (omega arith) small)
    ∙ ap (λ o. o >>= λ prev'. end_both bp next prev' h')
        (prev_blk-at h' bp m c e i (omega arith) (omega arith))

pub both-Joined :
    (h : Heap) (zs : List Block) (m n k : ℕ) (ys : List Block)
    → Loose h (zs ++ ((false, m) ∷ [])) n ((false, k) ∷ ys)
    → Seg h.tags h.listp true zs
    → after true zs ≡ true
    → 8 ≤ m
    → h.tags (h.listp + total zs) ≡ tag false true m
    → (h.tags (h.listp + total zs + m - 1)).size ≡ m
    → Joined h (zs ++ ((false, m) ∷ [])) n ((false, k) ∷ ys) (
        merge false false
          (h.listp + total (zs ++ ((false, m) ∷ [])))
          (h.listp + total (zs ++ ((false, m) ∷ [])) + n)
          n
          h)
both-Joined h zs m n k ys l s p large e f =
    let c = h.listp + total zs in
    let b = h.listp + total (zs ++ ((false, m) ∷ [])) in
    let (t, big, g, ch) = l.back in
    let (o, u) = Chain-behind h.tags (b + n + k) ys ch in
    let q : b ≡ c + m = omega (arith, total-append zs ((false, m) ∷ [])) in
    let r : b + n + k ≡ c + (n + k + m) = omega arith in
    let lists = λ (i : ℕ). remove c (remove (b + n) (remove b (h.seg_list i))) in
    (
      _,
      zs,
      ys,
      n + k + m,
      merge_both-some h b (b + n) n k m c q f (ap (λ (x : Tag). x.size) e)
          (ap (λ (x : Tag). x.size) t) large l.large (omega (arith, l.end, l.small, q)),
      joined-Good h lists zs (n + k + m) ys s p (omega arith) (ap (λ (x : Tag). x.pinuse) e)
          (subst (λ j. Open h.tags j ys) r o) u
          (λ i a.
            let w = listing h.listp zs i a + listing (c + (n + k + m)) ys i a in
            let z = λ (lo : c ≤ a) (hi : a < c + (n + k + m)).
              listing-between h.tags h.listp zs ys (c + (n + k + m)) i a s lo hi in
            let v = listing-append h.listp zs ((false, m) ∷ []) i a in
            let x = ap (λ j. listing j ys i a) r in
            count-remove_one (remove (b + n) (remove b (h.seg_list i))) m c i a w
              (count-remove_one (remove b (h.seg_list i)) k (b + n) i a (w + here false m c i a)
                (count-remove_one (h.seg_list i) n b i a
                  (w + here false m c i a + here false k (b + n) i a)
                  (omega (arith, l.lists i a, v, x))
                  (λ y. ground (arith, z, large, l.large, big, q)))
                (λ y. ground (arith, z, large, l.large, big, q)))
              (λ y. z (omega arith) (omega (arith, l.large))))
          l.started (l.end ∙ omega (arith, q)) l.small,
      omega arith,
      refl,
      refl,
      subst (λ us. Intact h.tags (freed c (n + k + m) h).tags (us ++ in_use (b + n + k) ys))
          (sym (in_use-last h.listp zs m))
          (freed-Intact h (n + k + m) zs (b + n + k) ys (omega (arith, l.large)) (omega arith)),
      in_use-append h.listp zs ((false, n + k + m) ∷ ys)
          ∙ ap₂ (λ (us : List (ℕ × ℕ)) (j : ℕ). us ++ in_use j ys) (sym (in_use-last h.listp zs m))
              (sym r),
    )
