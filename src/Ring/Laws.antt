-- ===== src/Ring/Laws.antt =====
-- A ring buffer is the list of its elements: `push` adds at the back, `pop` takes from the front.
use native.Mathlib.Nat.{mod-add-mod, mod-eq_of_lt, mod-eq-sub-mod}
use native.Mathlib.Decide.{dec_lt, dec_le}
use modeling_unix.Base.{
  ℕ, suc, ◌+◌, ◌-◌, ◌%◌, ◌^◌, ◌≤◌, ◌<◌, ◌≡◌, ◌≢◌, ◌↔◌, refl, sym, ap, ◌∙◌, true, false, List, [],
  ◌∷◌, ◌++◌, arith, length, get_or, length-set,
}
use modeling_unix.Ring.{Ring, next, empty, full, front, pop, push, IsValid, count}
use modeling_unix.Ring.Items.{items, length-items, items-set}

abbrev pub contents : Ring → List ℕ
contents r = items r.buffer r.capacity r.head (count r)

pub length-contents : (r : Ring) → length (contents r) ≡ count r
length-contents r = length-items r.buffer r.capacity r.head (count r)

pub capacity-push : (r : Ring) (x : ℕ) → (push r x).capacity - 1 ≡ r.capacity - 1
unfolding push
capacity-push r x = refl

pub capacity-pop : (r : Ring) → (pop r).capacity - 1 ≡ r.capacity - 1
unfolding pop
capacity-pop r = refl

module _ {r : Ring} (ok : IsValid r) where
  next-eq : (p : ℕ) → p < r.capacity → next r p ≡ (p + 1) % r.capacity
  next-eq p h =
      ap (λ t. t % r.capacity) (mod-eq_of_lt {n = p + 1} {m = 2 ^ 32} (omega (arith, ok.small)))

  count_ordered : r.head ≤ r.tail → count r ≡ r.tail - r.head
  count_ordered h = omega (
    arith,
    ok.tail_in,
    mod-eq-sub-mod {n = r.tail + r.capacity - r.head} {m = r.capacity} (omega arith),
    mod-eq_of_lt {n = r.tail + r.capacity - r.head - r.capacity} {m = r.capacity}
        (omega (arith, ok.tail_in)),
  )

  count_wrapped : r.tail < r.head → count r ≡ r.tail + r.capacity - r.head
  count_wrapped h =
      mod-eq_of_lt {n = r.tail + r.capacity - r.head} {m = r.capacity} (omega (arith, ok.head_in))

  next_inside : (p : ℕ) → p + 1 < r.capacity → next r p ≡ p + 1
  next_inside p h = next-eq p (omega arith) ∙ mod-eq_of_lt {n = p + 1} {m = r.capacity} h

  next_last : (p : ℕ) → p + 1 ≡ r.capacity → next r p ≡ 0
  next_last p h =
      next-eq p (omega arith)
      ∙ omega (
        arith,
        mod-eq-sub-mod {n = p + 1} {m = r.capacity} (omega arith),
        mod-eq_of_lt {n = p + 1 - r.capacity} {m = r.capacity} (omega arith),
      )

  next-lt : (p : ℕ) → p < r.capacity → next r p < r.capacity
  next-lt p h = omega (arith, next-eq p h)

  pub count-lt : count r < r.capacity
  count-lt = omega (arith, ok.head_in)

  empty_iff_count : (empty r ≡ true) ↔ (count r ≡ 0)
  empty_iff_count = elim (dec_le r.head r.tail) [
    | yes p ↦ ground (arith, count_ordered p)
    | no p ↦ ground (arith, count_wrapped (omega arith), ok.head_in)
  ]

  -- The test for an empty ring is right.
  pub empty_iff : (empty r ≡ true) ↔ (contents r ≡ [])
  empty_iff = (
    λ e. ap (items r.buffer r.capacity r.head) (empty_iff_count.0 e),
    λ e. empty_iff_count.1 (omega (arith, ap length e, length-contents r)),
  )

  -- The test for a full ring is right: one spot is left.
  pub full_iff : (full r ≡ true) ↔ (count r + 1 ≡ r.capacity)
  full_iff = elim (dec_lt (r.tail + 1) r.capacity) [
    | yes q ↦ elim (dec_le r.head r.tail) [
      | yes p ↦ ground (arith, count_ordered p, next_inside r.tail q)
      | no p ↦ ground (arith, count_wrapped (omega arith), next_inside r.tail q)
    ]
    | no q ↦ elim (dec_le r.head r.tail) [
      | yes p ↦
          ground (arith, count_ordered p, next_last r.tail (omega (arith, ok.tail_in)), ok.tail_in)
      | no p ↦ absurd (omega (arith, ok.tail_in, ok.head_in))
    ]
  ]

  pub pop-IsValid : IsValid (pop r)
  unfolding pop
  pop-IsValid = record {
    room = ok.room;
    small = ok.small;
    head_in = next-lt r.head ok.head_in;
    tail_in = ok.tail_in;
  }

  pub push-IsValid : (x : ℕ) → IsValid (push r x)
  unfolding push
  push-IsValid x = record {
    room = omega (arith, ok.room, length-set r.buffer (next r r.tail) x);
    small = ok.small;
    head_in = ok.head_in;
    tail_in = next-lt r.tail ok.tail_in;
  }

module _ {r : Ring} (ok : IsValid r) where
  count-pop : empty r ≡ false → count r ≡ suc (count (pop r))
  unfolding pop
  count-pop e = elim (dec_lt (r.head + 1) r.capacity) [
    | yes q ↦ elim (dec_le r.head r.tail) [
      | yes p ↦
          let ne : r.head ≢ r.tail = ground arith in
          omega (
            arith,
            next_inside ok r.head q,
            count_ordered ok p,
            count_ordered (pop-IsValid ok) (omega (arith, next_inside ok r.head q)),
          )
      | no p ↦ omega (
        arith,
        next_inside ok r.head q,
        count_wrapped ok (omega arith),
        count_wrapped (pop-IsValid ok) (omega (arith, next_inside ok r.head q)),
      )
    ]
    | no q ↦
        let ne : r.head ≢ r.tail = ground arith in
        let last : next r r.head ≡ 0 = next_last ok r.head (omega (arith, ok.head_in)) in
        omega (
          arith,
          last,
          ok.tail_in,
          count_wrapped ok (omega (arith, ok.head_in, ok.tail_in)),
          count_ordered (pop-IsValid ok) (omega (arith, last)),
        )
  ]

  count-push : (x : ℕ) → full r ≡ false → count (push r x) ≡ suc (count r)
  unfolding push
  count-push x e = elim (dec_lt (r.tail + 1) r.capacity) [
    | yes q ↦
        let on : next r r.tail ≡ r.tail + 1 = next_inside ok r.tail q in
        elim (dec_le r.head r.tail) [
          | yes p ↦
              omega (
                arith,
                on,
                count_ordered ok p,
                count_ordered (push-IsValid ok x) (omega (arith, on)),
              )
          | no p ↦
              let ne : r.head ≢ next r r.tail = ground arith in
              omega (
                arith,
                on,
                count_wrapped ok (omega arith),
                count_wrapped (push-IsValid ok x) (omega (arith, on)),
              )
        ]
    | no q ↦
        let ne : r.head ≢ next r r.tail = ground arith in
        let last : next r r.tail ≡ 0 = next_last ok r.tail (omega (arith, ok.tail_in)) in
        omega (
          arith,
          last,
          ok.tail_in,
          ok.head_in,
          count_ordered ok (omega (arith, ok.head_in)),
          count_wrapped (push-IsValid ok x) (omega (arith, last)),
        )
  ]

  -- Taking from a ring that is not empty: the front element, and the ring holds the others.
  pub contents-pop : empty r ≡ false → contents r ≡ front r ∷ contents (pop r)
  unfolding pop
  contents-pop e =
      ap (items r.buffer r.capacity r.head) (count-pop e)
      ∙ ap (λ p. get_or r.buffer p 0 ∷ items r.buffer r.capacity p (count (pop r)))
          (sym (next-eq ok r.head ok.head_in))

  tail_eq : r.tail ≡ (r.head + count r) % r.capacity
  tail_eq = elim (dec_le r.head r.tail) [
    | yes p ↦ omega (
      arith,
      ok.tail_in,
      count_ordered ok p,
      mod-eq_of_lt {n = r.head + count r} {m = r.capacity}
          (omega (arith, count_ordered ok p, ok.tail_in)),
    )
    | no p ↦
        let w : count r ≡ r.tail + r.capacity - r.head = count_wrapped ok (omega arith) in
        let h : r.head < r.capacity = ok.head_in in
        omega (
          arith,
          w,
          ok.tail_in,
          mod-eq-sub-mod {n = r.head + count r} {m = r.capacity} (omega (arith, w)),
          mod-eq_of_lt {n = r.head + count r - r.capacity} {m = r.capacity}
              (omega (arith, w, ok.tail_in)),
        )
  ]

  behind_tail : next r r.tail ≡ (r.head + suc (count r)) % r.capacity
  behind_tail =
      next-eq ok r.tail ok.tail_in
      ∙ (ap (λ t. (t + 1) % r.capacity) tail_eq
          ∙ rw mod-add-mod (ap (λ t. t % r.capacity) (omega arith)))

  -- Adding to a ring that is not full: the element comes last.
  pub contents-push : (x : ℕ) → full r ≡ false → contents (push r x) ≡ contents r ++ (x ∷ [])
  unfolding push
  contents-push x e =
      ap (items (push r x).buffer r.capacity r.head) (count-push x e)
      ∙ items-set r.buffer r.capacity x (count r) r.head (next r r.tail) ok.room ok.head_in
          (omega (arith, count-push x e, count-lt (push-IsValid ok x))) behind_tail
