-- ===== src/Bitmap/Range.antt =====
-- The operations of lib/kernel/bitmap.c on a range of bits, against the array of bits.
use modeling_unix.Base.{
  ℕ, zero, suc, ◌+◌, ◌≤◌, ◌<◌, ◌≡◌, refl, ap, ◌∙◌, Bool, true, false, not, ◌&&◌, some, arith, ltb,
  leb, ◌==◌, if◌then◌else◌, same, Bool-cases, same_iff, le→leb, ◌>>=◌, inl, inr,
}
use modeling_unix.Bitmap.{
  Bitmap, add_size, assert_range, set_loop, bitmap_set_multiple, count_loop, bitmap_count,
  contains_loop, bitmap_contains, bitmap_none, bitmap_all,
}
use modeling_unix.Bitmap.View.{IsValid, bit, Updated}
use modeling_unix.Bitmap.Single.{test-eq-bit, set-Updated}

-- `j` is one of the `n` bit numbers from `p`
abbrev pub within : ℕ → ℕ → ℕ → Bool
within p n j = leb p j && ltb j (p + n)

-- the bitmap `b'` is `b` with the value `v` in the `n` bits from `p`
pub record Filled (b : Bitmap) (p n : ℕ) (v : Bool) (b' : Bitmap) : Type 0 where
  pub valid : IsValid b'
  pub cnt : b'.bit_cnt ≡ b.bit_cnt
  pub bits : (j : ℕ) → bit b' j ≡ (if within p n j then v else bit b j)

add_size-eq : (b : Bitmap) (x y : ℕ) → IsValid b → x + y ≤ b.bit_cnt → add_size x y ≡ x + y
add_size-eq b x y ok h = omega arith

assert_range-eq :
    (b : Bitmap) (start cnt : ℕ)
    → IsValid b
    → start + cnt ≤ b.bit_cnt
    → assert_range b start cnt ≡ some tt
unfolding assert_range
assert_range-eq b start cnt ok h =
    rw (le→leb start b.bit_cnt (omega arith), add_size-eq b start cnt ok h, le→leb _ _ h)

Filled-suc :
    (b b' b'' : Bitmap) (p n : ℕ) (v : Bool)
    → Updated b p v b'
    → Filled b' (suc p) n v b''
    → Filled b p (suc n) v b''
Filled-suc b b' b'' p n v one rest = record {
  valid = rest.valid;
  cnt = rest.cnt ∙ one.cnt;
  bits = λ j. elim (Bool-cases (j == p)) [
    | inl e ↦ let q : j ≡ p = ground arith in rw (q, rest.bits p) (ground (arith, one.hit))
    | inr ne ↦ rw (rest.bits j, one.miss j (ground arith)) (ground arith)
  ];
}

set_loop-Filled :
    (n : ℕ) (b : Bitmap) (start i p : ℕ) (v : Bool)
    → IsValid b
    → start + i ≡ p
    → p + n ≤ b.bit_cnt
    → (b' : Bitmap) × (set_loop n b start i v ≡ some b') × Filled b p n v b'
unfolding set_loop
set_loop-Filled zero b start i p v ok e h =
    (b, refl, record { valid = ok; cnt = refl; bits = λ j. ground arith })
set_loop-Filled (suc n) b start i p v ok e h =
    let (b', ran, one) = set-Updated b p ok (omega arith) v in
    let (b'', went, rest) =
      set_loop-Filled n b' start (i + 1) (suc p) v one.valid (omega arith)
        (omega (arith, one.cnt)) in
    (
      b'',
      rw (add_size-eq b start i ok (omega arith), e, ran) went,
      Filled-suc b b' b'' p n v one rest,
    )

-- `bitmap_set_multiple` on bits that the map has passes its ASSERTs, gives every bit of the range
-- the value, leaves all others alone, and keeps the bitmap well formed.
pub set_multiple-Filled :
    (b : Bitmap) (start cnt : ℕ) (v : Bool)
    → IsValid b
    → start + cnt ≤ b.bit_cnt
    → (b' : Bitmap) × (bitmap_set_multiple b start cnt v ≡ some b') × Filled b start cnt v b'
unfolding bitmap_set_multiple
set_multiple-Filled b start cnt v ok h =
    let (b', ran, filled) = set_loop-Filled cnt b start 0 start v ok (omega arith) h in
    (b', rw (assert_range-eq b start cnt ok h) ran, filled)

-- what the answer `r` of a search for `v` among the `n` bits from `p` says
abbrev pub Contains : (ℕ → Bool) → (p n : ℕ) → Bool → Bool → Type 0
Contains f p n v true = (j : ℕ) × (p ≤ j) × (j < p + n) × (f j ≡ v)
Contains f p n v false = (j : ℕ) → p ≤ j → j < p + n → f j ≡ not v

Contains-suc :
    (f : ℕ → Bool) (p n : ℕ) (v r : Bool)
    → same (f p) v ≡ false
    → Contains f (suc p) n v r
    → Contains f p (suc n) v r
Contains-suc f p n v true e (j, lo, hi, hit) = (j, omega arith, omega arith, hit)
Contains-suc f p n v false e all = λ j lo hi. elim (Bool-cases (j == p)) [
  | inl q ↦ let q' : j ≡ p = ground arith in rw q' (ground arith)
  | inr ne ↦ all j (ground arith) (omega arith)
]

contains_loop-Contains :
    (n : ℕ) (b : Bitmap) (start i p : ℕ) (v : Bool)
    → IsValid b
    → start + i ≡ p
    → p + n ≤ b.bit_cnt
    → (r : Bool) × (contains_loop n b start i v ≡ some r) × Contains (bit b) p n v r
unfolding contains_loop
contains_loop-Contains zero b start i p v ok e h = (false, refl, λ j lo hi. absurd (omega arith))
contains_loop-Contains (suc n) b start i p v ok e h = elim (Bool-cases (same (bit b p) v)) [
  | inl hit ↦ (
    true,
    rw (add_size-eq b start i ok (omega arith), e, test-eq-bit b p ok (omega arith), hit),
    (p, omega arith, omega arith, (same_iff (bit b p) v).0 hit),
  )
  | inr miss ↦
      let (r, ran, found) =
        contains_loop-Contains n b start (i + 1) (suc p) v ok (omega arith) (omega arith) in
      (
        r,
        rw (add_size-eq b start i ok (omega arith), e, test-eq-bit b p ok (omega arith), miss) ran,
        Contains-suc (bit b) p n v r miss found,
      )
]

-- `bitmap_contains` on bits that the map has passes its ASSERTs; it answers true only where some
-- bit of the range has the value, and false only where none has.
pub bitmap_contains_lem :
    (b : Bitmap) (start cnt : ℕ) (v : Bool)
    → IsValid b
    → start + cnt ≤ b.bit_cnt
    → (r : Bool) × (bitmap_contains b start cnt v ≡ some r) × Contains (bit b) start cnt v r
unfolding bitmap_contains
bitmap_contains_lem b start cnt v ok h =
    let (r, ran, found) = contains_loop-Contains cnt b start 0 start v ok (omega arith) h in
    (r, rw (assert_range-eq b start cnt ok h) ran, found)

pub bitmap_all_lem :
    (b : Bitmap) (start cnt : ℕ)
    → bitmap_all b start cnt ≡ (bitmap_contains b start cnt false >>= λ found. some (not found))
unfolding bitmap_all
bitmap_all_lem b start cnt = refl

module _ (b : Bitmap) (start cnt : ℕ) (ok : IsValid b) (h : start + cnt ≤ b.bit_cnt) where
  -- `bitmap_all` is true exactly when each bit of the range is set, `bitmap_none` when none is.
  pub all_none :
      (a n : Bool) × (bitmap_all b start cnt ≡ some a)
      × (bitmap_none b start cnt ≡ some n)
      × Contains (bit b) start cnt false (not a)
      × Contains (bit b) start cnt true (not n)
  unfolding bitmap_all bitmap_none
  all_none =
      let (r, ran, found) = bitmap_contains_lem b start cnt false ok h in
      let (r', ran', found') = bitmap_contains_lem b start cnt true ok h in
      (not r, not r', rw ran, rw ran', ground (arith, found), ground (arith, found'))

-- how many of the `n` bits from `p` have the value
abbrev pub tally : (ℕ → Bool) → (p n : ℕ) → Bool → ℕ
tally f p zero v = 0
tally f p (suc n) v = (if same (f p) v then 1 else 0) + tally f (suc p) n v

count_loop-tally :
    (n : ℕ) (b : Bitmap) (start i p acc : ℕ) (v : Bool)
    → IsValid b
    → start + i ≡ p
    → p + n ≤ b.bit_cnt
    → count_loop n b start i acc v ≡ some (acc + tally (bit b) p n v)
unfolding count_loop
count_loop-tally zero b start i p acc v ok e h = ap some (omega arith)
count_loop-tally (suc n) b start i p acc v ok e h =
    rw (add_size-eq b start i ok (omega arith), e, test-eq-bit b p ok (omega arith))
      (count_loop-tally n b start (i + 1) (suc p) (if same (bit b p) v then acc + 1 else acc) v ok
          (omega arith) (omega arith)
        ∙ ap some (ground arith))

pub count-tally :
    (b : Bitmap) (start cnt : ℕ) (v : Bool)
    → IsValid b
    → start + cnt ≤ b.bit_cnt
    → bitmap_count b start cnt v ≡ some (tally (bit b) start cnt v)
unfolding bitmap_count
count-tally b start cnt v ok h =
    rw (assert_range-eq b start cnt ok h)
      (count_loop-tally cnt b start 0 start 0 v ok (omega arith) h ∙ ap some (omega arith))

tally-partition : (f : ℕ → Bool) (p n : ℕ) → tally f p n true + tally f p n false ≡ n
tally-partition f p zero = refl
tally-partition f p (suc n) = ground (arith, tally-partition f (suc p) n)

-- Over bits that the map has, the counts of set and of clear bits both come back and make up the
-- whole range.
pub count-partition :
    (b : Bitmap) (start cnt : ℕ)
    → IsValid b
    → start + cnt ≤ b.bit_cnt
    → (t f : ℕ) × (bitmap_count b start cnt true ≡ some t)
      × (bitmap_count b start cnt false ≡ some f)
      × (t + f ≡ cnt)
count-partition b start cnt ok h = (
  tally (bit b) start cnt true,
  tally (bit b) start cnt false,
  count-tally b start cnt true ok h,
  count-tally b start cnt false ok h,
  tally-partition (bit b) start cnt,
)
