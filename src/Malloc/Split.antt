-- ===== src/Malloc/Split.antt =====
-- `place` of lib/user/malloc.c, where it splits the block.
use mathlib.Core.Path.{subst}
use modeling_unix.Base.{
  ℕ, ◌+◌, ◌-◌, ◌≤◌, ◌<◌, ◌^◌, ◌≡◌, refl, sym, ap, ◌∙◌, true, leb→le, false, List, [], ◌∷◌, ◌++◌,
  leb, arith, some, ◌>>=◌, Bool-cases, inl, inr,
}
use modeling_unix.Malloc.{
  Heap, Tag, mark_block_free, coalesce, list_push_back, next_blk, place, place_left, minus_32,
}
use modeling_unix.Malloc.Layout.{
  Block, tag, total, after, Seg-append, Chain, Seg-frame, Open, total-append,
}
use modeling_unix.Malloc.Tiling.{Chain-Open}
use modeling_unix.Malloc.Lists.{
  count, here, listing, in_use, in_use-append, listing-append, count-push,
}
use modeling_unix.Malloc.Payload.{Intact, Intact-trans, Intact-fewer, between-Intact}
use modeling_unix.Malloc.Join.{
  Loose, next_blk-some, mark_block_free-freed, freed-header, freed-footer, freed-next, freed-below,
  freed-above, freed,
}
use modeling_unix.Malloc.Coalesce.{coalesce-Joined}
use modeling_unix.Malloc.Place.{
  Held, used, mark_block_used-used, used-header, used-next, used-below, used-above, Placed,
  whole-Placed, after_last,
}

-- the heap before the rest joins its neighbour
abbrev split : (b asize left : ℕ) → Heap → Heap
split b asize left h =
    let h1 = freed (b + asize) left (used b asize h) in
    list_push_back (h1.tags (b + asize)).size (b + asize) h1

split-Loose :
    (h : Heap) (xs : List Block) (asize left : ℕ) (ys : List Block)
    → Held h xs (asize + left) ys
    → 8 ≤ asize
    → 8 ≤ left
    → Loose (split (h.listp + total xs) asize left h) (xs ++ ((true, asize) ∷ [])) left ys
split-Loose h xs asize left ys g l k =
    let b = h.listp + total xs in
    let u = used b asize h in
    let h1 = freed (b + asize) left u in
    let one : 1 ≤ left = omega arith in
    let some_size : 1 ≤ asize = omega arith in
    let cs : List Block = xs ++ ((true, asize) ∷ []) in
    let q : b + asize ≡ h.listp + total cs = omega (arith, total-append xs ((true, asize) ∷ [])) in
    let r : b + (asize + left) ≡ b + asize + left = omega arith in
    let below = λ (i : ℕ) (lo : i < b).
      freed-below (b + asize) left u i one (omega arith) ∙ used-below b asize h i lo in
    let at : h1.tags b ≡ tag true (after true xs) asize =
      freed-below (b + asize) left u b one (omega arith)
      ∙ used-header b asize h some_size
      ∙ ap (λ (t : Tag). tag true t.pinuse asize) g.header
      ∙ ap (λ x. tag true x asize) (sym g.behind) in
    let header : h1.tags (b + asize) ≡ tag false true left =
      freed-header (b + asize) left u one
      ∙ ap (λ (t : Tag). tag false t.pinuse left) (used-next b asize h some_size) in
    let next : h1.tags (b + asize + left) ≡ record (h.tags (b + asize + left)) { pinuse = false } =
      freed-next (b + asize) left u one
      ∙ ap (λ (t : Tag). record t { pinuse = false })
          (used-above b asize h (b + asize + left) (omega arith)) in
    let above = λ (i : ℕ) (lo : b + asize + left < i).
      freed-above (b + asize) left u i one lo ∙ used-above b asize h i (omega arith) in
    let back =
      Chain-Open h.tags h1.tags (b + asize + left) false ys
        (subst (λ j. Chain h.tags j false ys) r g.back) next (λ i lo hi. above i lo) in
    record {
      front =
          Seg-append h1.tags h.listp true xs ((true, asize) ∷ [])
            (Seg-frame h.tags h1.tags h.listp true xs (λ i lo hi. below i hi) g.front)
            (at, l, (λ x. cc), tt);
      header =
          subst (λ j. h1.tags j ≡ tag false true left) q header
          ∙ ap (λ x. tag false x left) (sym (after_last xs asize));
      footer =
          subst (λ j. (h1.tags (j + left - 1)).size ≡ left) q (freed-footer (b + asize) left u one);
      large = k;
      back = subst (λ j. Open h1.tags (j + left) ys) q back;
      lists = λ i a.
          count-push h.seg_list (h1.tags (b + asize)).size (b + asize) i a
          ∙ ap (λ (t : Tag). count a (h.seg_list i) + here false t.size (b + asize) i a) header
          ∙ omega (
            arith,
            g.lists i a,
            listing-append h.listp xs ((true, asize) ∷ []) i a,
            ap (λ j. here false left j i a) q,
            ap (λ j. listing j ys i a) r,
            ap (λ j. listing (j + left) ys i a) q,
          );
      started = g.started;
      end = g.end ∙ omega (arith, q);
      small = g.small;
    }

append_one :
    (us : List (ℕ × ℕ)) (u : ℕ × ℕ) (vs : List (ℕ × ℕ)) → (us ++ (u ∷ [])) ++ vs ≡ us ++ (u ∷ vs)
append_one [] u vs = refl
append_one (t ∷ us) u vs = ap (λ ws. t ∷ ws) (append_one us u vs)

split-Intact :
    (h : Heap) (xs : List Block) (asize left : ℕ) (ys : List Block)
    → 1 ≤ left
    → Intact h.tags
        (split (h.listp + total xs) asize left h).tags
        (in_use h.listp xs ++ in_use (h.listp + total xs + asize + left) ys)
split-Intact h xs asize left ys one =
    let b = h.listp + total xs in
    let u = used b asize h in
    between-Intact h.tags (split b asize left h).tags h.listp xs (b + asize + left) ys
      (λ i lo. freed-below (b + asize) left u i one (omega arith) ∙ used-below b asize h i lo)
      (λ i hi. freed-above (b + asize) left u i one hi ∙ used-above b asize h i (omega arith))

split-Placed :
    (h : Heap) (xs : List Block) (n : ℕ) (ys : List Block) (asize left : ℕ)
    → Held h xs n ys
    → n ≡ asize + left
    → 8 ≤ asize
    → 8 ≤ left
    → Placed h xs n ys asize (
        coalesce (h.listp + total xs + asize) (split (h.listp + total xs) asize left h) >>= λ r.
        some r.1)
split-Placed h xs n ys asize left g m l k =
    let b = h.listp + total xs in
    let cs : List Block = xs ++ ((true, asize) ∷ []) in
    let q : h.listp + total cs ≡ b + asize = omega (arith, total-append xs ((true, asize) ∷ [])) in
    let loose = split-Loose h xs asize left ys (subst (λ j. Held h xs j ys) m g) l k in
    let h1 = split b asize left h in
    let (h', ws, vs, size, r, good, le, p, end, t, u) = coalesce-Joined h1 cs left ys loose in
    let uses =
      ap (λ us. us ++ in_use (h.listp + total cs + left) ys)
        (in_use-append h.listp xs ((true, asize) ∷ []))
      ∙ append_one (in_use h.listp xs) (b, asize) (in_use (h.listp + total cs + left) ys)
      ∙ ap (λ j. in_use h.listp xs ++ ((b, asize) ∷ in_use j ys)) (omega arith) in
    (
      h',
      ws ++ ((false, size) ∷ vs),
      asize,
      ap (λ j. coalesce j h1 >>= λ r. some r.1) (sym q) ∙ ap (λ o. o >>= λ r. some r.1) r,
      good,
      p,
      omega arith,
      u ∙ uses,
      Intact-trans h.tags h1.tags h'.tags (in_use h.listp xs ++ in_use (b + n) ys)
          (subst (λ j. Intact h.tags h1.tags (in_use h.listp xs ++ in_use j ys)) (omega arith)
            (split-Intact h xs asize left ys (omega arith)))
          (Intact-fewer h1.tags h'.tags (in_use h.listp xs) (b, asize) (in_use (b + n) ys)
            (subst (Intact h1.tags h'.tags) uses t)),
    )

place-left :
    (h : Heap) (bp asize n left : ℕ)
    → (h.tags bp).size ≡ n
    → minus_32 n asize ≡ left
    → place bp asize h ≡ place_left bp asize n left h
unfolding place
place-left h bp asize n left e f =
    ap (λ c. place_left bp asize c (minus_32 c asize) h) e ∙ ap (λ l. place_left bp asize n l h) f

place_left-split :
    (h : Heap) (bp asize n left : ℕ)
    → 8 ≤ left
    → 1 ≤ asize
    → bp + asize + left < 2 ^ 29
    → place_left bp asize n left h
      ≡ (coalesce (bp + asize) (split bp asize left h) >>= λ r. some r.1)
place_left-split h bp asize n left l one small =
    let t : leb 8 left ≡ true = ground arith in
    let u = used bp asize h in
    let cont = λ (next : ℕ) (h'' : Heap).
      coalesce next (list_push_back (h''.tags next).size next h'') >>= λ r. some r.1 in
    let d : (u.tags bp).size ≡ asize = ap (λ (t : Tag). t.size) (used-header bp asize h one) in
    rw t (
      ap (λ o. o >>= λ h'. next_blk h' bp >>= λ next. mark_block_free next left h' >>= cont next)
        (mark_block_used-used bp asize h one (omega arith))
      ∙ ap (λ o. o >>= λ next. mark_block_free next left u >>= cont next)
          (next_blk-some u bp asize d one (omega arith))
      ∙ ap (λ o. o >>= cont (bp + asize))
          (mark_block_free-freed (bp + asize) left u (omega arith) small))

-- `place` of at most the block's size does not stop, and takes the block's first words.
pub place-Placed :
    (h : Heap) (xs : List Block) (n : ℕ) (ys : List Block) (asize : ℕ)
    → Held h xs n ys
    → 8 ≤ asize
    → asize ≤ n
    → Placed h xs n ys asize (place (h.listp + total xs) asize h)
place-Placed h xs n ys asize g l le =
    let b = h.listp + total xs in
    let left : ℕ = n - asize in
    let f : minus_32 n asize ≡ left = omega (arith, g.end, g.small) in
    let e = place-left h b asize n left (ap (λ (t : Tag). t.size) g.header) f in
    subst (Placed h xs n ys asize) (sym e) (elim (Bool-cases (leb 8 left)) [
      | inl t ↦
          let k : 8 ≤ left = leb→le 8 left t in
          let m : n ≡ asize + left = omega arith in
          subst (Placed h xs n ys asize)
            (sym
              (place_left-split h b asize n left k (omega arith) (omega (arith, g.end, g.small))))
            (split-Placed h xs n ys asize left g m l k)
      | inr t ↦ rw t (whole-Placed h xs n ys asize g le)
    ])
