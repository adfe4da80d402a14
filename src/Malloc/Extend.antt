-- ===== src/Malloc/Extend.antt =====
-- `extend_heap` of lib/user/malloc.c.
use mathlib.Core.Path.{subst}
use modeling_unix.Base.{
  ℕ, ◌+◌, ◌^◌, ◌-◌, ◌≤◌, ◌<◌, ◌≡◌, refl, sym, ap, ◌∙◌, Bool, true, false, List, [], ◌∷◌, ◌++◌,
  if◌then◌else◌, arith, some, ◌>>=◌, Bool-cases, inl, inr,
}
use modeling_unix.Malloc.{
  Heap, Tag, upd, coalesce, list_push_back, fence, extend_heap, next_blk, put, mm_init,
}
use modeling_unix.Malloc.Layout.{Block, tag, total, Chain, Chain-split, Seg-frame}
use modeling_unix.Malloc.Lists.{count, here, in_use, count-push}
use modeling_unix.Malloc.Payload.{Intact, Intact-trans, between-Intact}
use modeling_unix.Malloc.Join.{
  freed-above, Good, Loose, next_blk-some, mark_block_free-freed, freed-header, freed-footer,
  freed-below, freed,
}
use modeling_unix.Malloc.Coalesce.{coalesce-Joined}

-- the heap of `extend_heap` before it joins the new block to the last one
abbrev extended : (b words : ℕ) → Heap → Heap
extended b words h =
    let h1 : Heap = freed b words (record h { brk = h.brk + words }) in
    let h2 : Heap = put (b + words) fence h1 in list_push_back (h2.tags b).size b h2

extend_heap-coalesce :
    (room : ℕ → ℕ → Bool) (words : ℕ) (h : Heap)
    → 1 ≤ words
    → room h.brk words ≡ true
    → h.brk - 1 + words < 2 ^ 29
    → extend_heap room words h
      ≡ (coalesce (h.brk - 1) (extended (h.brk - 1) words h) >>= λ r. some (some r.0, r.1))
unfolding extend_heap
extend_heap-coalesce room words h one e small =
    let h0 : Heap = record h { brk = h.brk + words } in
    let h1 : Heap = freed (h.brk - 1) words h0 in
    let b = h.brk - 1 in
    let d : (h1.tags b).size ≡ words = ap (λ (t : Tag). t.size) (freed-header b words h0 one) in
    let cont = λ (k : Heap) (next : ℕ).
      let h'' : Heap = put next fence k in
      coalesce b (list_push_back (h''.tags b).size b h'') >>= λ r. some (some r.0, r.1) in
    rw e (
      ap (λ o. o >>= λ k. next_blk k b >>= cont k) (mark_block_free-freed b words h0 one small)
      ∙ ap (λ o. o >>= cont h1) (next_blk-some h1 b words d one small))

put_above : (b : ℕ) (t : Tag) (h : Heap) (i : ℕ) → b < i → (put b t h).tags i ≡ h.tags i
put_above b t h i l = ground arith

put_below : (b : ℕ) (t : Tag) (h : Heap) (i : ℕ) → i < b → (put b t h).tags i ≡ h.tags i
put_below b t h i l = ground arith

append_nil : (bs : List Block) → bs ≡ bs ++ []
append_nil [] = refl
append_nil (b ∷ bs) = ap (λ cs. b ∷ cs) (append_nil bs)

append_nil_uses : (us : List (ℕ × ℕ)) → us ≡ us ++ []
append_nil_uses [] = refl
append_nil_uses (u ∷ us) = ap (λ vs. u ∷ vs) (append_nil_uses us)

extended-Loose :
    (words : ℕ) (h : Heap) (bs : List Block)
    → 8 ≤ words
    → h.brk + words < 2 ^ 29
    → Good h bs
    → Loose (extended (h.listp + total bs) words h) bs words []
extended-Loose words h bs large small g =
    let b = h.listp + total bs in
    let one : 1 ≤ words = omega arith in
    let h0 : Heap = record h { brk = h.brk + words } in
    let h1 : Heap = freed b words h0 in
    let keep = λ (i : ℕ) (lo : i < b + words). put_below (b + words) fence h1 i lo in
    let (s, c) =
      Chain-split h.tags h.listp true bs []
        (subst (Chain h.tags h.listp true) (append_nil bs) g.chain) in
    let header =
      keep b (omega arith)
      ∙ freed-header b words h0 one
      ∙ ap (λ (t : Tag). tag false t.pinuse words) c in
    record {
      front =
          Seg-frame h.tags (extended b words h).tags h.listp true bs
            (λ i lo hi. keep i (omega arith) ∙ freed-below b words h0 i one hi) s;
      header = header;
      footer =
          ap (λ (t : Tag). t.size) (keep (b + words - 1) (omega arith))
          ∙ freed-footer b words h0 one;
      large = large;
      back = ground arith;
      lists = λ i a.
          count-push h.seg_list ((put (b + words) fence h1).tags b).size b i a
          ∙ ap (λ (t : Tag). count a (h.seg_list i) + here false t.size b i a) header
          ∙ omega (arith, g.lists i a);
      started = g.started;
      end = ap (λ k. k + words) g.end ∙ omega arith;
      small = small;
    }

extended-Intact :
    (words : ℕ) (h : Heap) (bs : List Block)
    → 1 ≤ words
    → Intact h.tags (extended (h.listp + total bs) words h).tags (in_use h.listp bs)
extended-Intact words h bs one =
    let b = h.listp + total bs in
    let h0 : Heap = record h { brk = h.brk + words } in
    let h1 : Heap = freed b words h0 in
    subst (Intact h.tags (extended b words h).tags) (sym (append_nil_uses (in_use h.listp bs))) (
      between-Intact h.tags (extended b words h).tags h.listp bs (b + words) []
        (λ i lo. put_below (b + words) fence h1 i (omega arith) ∙ freed-below b words h0 i one lo)
        (λ i hi. put_above (b + words) fence h1 i hi ∙ freed-above b words h0 i one hi))

-- `extend_heap` that the kernel grants, below 2 GB: it does not stop, and answers a free block of at least that
-- size; no block in use changes, nor do the words of one.
pub extend_heap-Extended :
    (room : ℕ → ℕ → Bool) (words : ℕ) (h : Heap) (bs : List Block)
    → 8 ≤ words
    → room h.brk words ≡ true
    → h.brk + words < 2 ^ 29
    → Good h bs
    → (h' : Heap) × (ws : List Block) × (vs : List Block) × (m : ℕ) × (extend_heap room words h
        ≡ some (some (h.listp + total ws), h'))
      × Good h' (ws ++ ((false, m) ∷ vs))
      × (words ≤ m)
      × (h'.listp ≡ h.listp)
      × (h'.brk ≡ h.brk + words)
      × (in_use h.listp (ws ++ ((false, m) ∷ vs)) ≡ in_use h.listp bs)
      × Intact h.tags h'.tags (in_use h.listp bs)
extend_heap-Extended room words h bs large e small g =
    let b = h.listp + total bs in
    let k : h.brk - 1 ≡ b = omega (arith, g.end) in
    let (h', ws, vs, m, r, good, le, p, end, t, u) =
      coalesce-Joined (extended b words h) bs words [] (extended-Loose words h bs large small g) in
    (
      h',
      ws,
      vs,
      m,
      extend_heap-coalesce room words h (omega arith) e (omega arith)
          ∙ ap (λ j. coalesce j (extended j words h) >>= λ r. some (some r.0, r.1)) k
          ∙ ap (λ o. o >>= λ r. some (some r.0, r.1)) r,
      good,
      le,
      p,
      end,
      u ∙ sym (append_nil_uses (in_use h.listp bs)),
      Intact-trans h.tags (extended b words h).tags h'.tags (in_use h.listp bs)
          (extended-Intact words h bs (omega arith))
          (subst (Intact (extended b words h).tags h'.tags)
            (sym (append_nil_uses (in_use h.listp bs))) t),
    )

-- the heap with its two fences and no block
abbrev fenced : Heap → Heap
fenced h = record {
  tags = upd (upd h.tags (h.brk + 2) fence) (h.brk + 3) (tag true true 0);
  listp = h.brk + 3;
  seg_list = λ i. [];
  brk = h.brk + 4;
}

empty-Good : (h : Heap) → h.brk + 4 < 2 ^ 29 → Good (fenced h) []
empty-Good h small = record {
  chain = ground arith;
  lists = λ i a. refl;
  started = omega arith;
  end = omega arith;
  small = small;
}

-- `mm_init`, where the kernel grants the first words, and only memory below 2 GB: it does not stop, and the heap has blocks that tile
-- it, of which none is in use, whether the kernel grants the first free block or not.
pub mm_init-Started :
    (room : ℕ → ℕ → Bool) (h : Heap)
    → room h.brk 4 ≡ true
    → ((b n : ℕ) → room b n ≡ true → b + n < 2 ^ 29)
    → (h' : Heap) × (bs : List Block) × (mm_init room h ≡ some h')
      × Good h' bs
      × (h'.listp ≡ h.brk + 3)
      × (in_use (h.brk + 3) bs ≡ [])
unfolding mm_init extend_heap
mm_init-Started room h e fits = elim (Bool-cases (room (h.brk + 4) 128)) [
  | inl f ↦
      let h0 : Heap = fenced h in
      let (h', ws, vs, m, r, good, le, p, w, u, t) =
        extend_heap-Extended room 128 h0 [] (omega arith) f (fits (h.brk + 4) 128 f)
          (empty-Good h (fits h.brk 4 e)) in
      (
        h',
        ws ++ ((false, m) ∷ vs),
        ap (λ b. if b then (extend_heap room 128 h0 >>= λ (bp, h''). some h'') else some h) e
            ∙ ap (λ o. o >>= λ (bp, h''). some h'') r,
        good,
        p,
        u,
      )
  | inr f ↦ (
    _,
    [],
    ap (λ b. if b then (extend_heap room 128 (fenced h) >>= λ (bp, h''). some h'') else some h) e
        ∙ rw f refl,
    empty-Good h (fits h.brk 4 e),
    refl,
    refl,
  )
]
