-- ===== src/Arithmetic/Divide.antt =====
-- `udiv64` and `umod64` of lib/arithmetic.c against the division of numbers.
use native.Mathlib.Nat.{
  mul-le-mul, mul-le-mul_right, lt_of_mul-lt-mul_right, le_of_mul-le-mul_right, div-lt_iff_lt-mul,
  le-div_iff_mul-le, div-div-eq-div-mul, mod-add-div', add-mul-div_right, div-le_self, mod-lt,
}
use modeling_unix.Base.{
  ℕ, zero, suc, ◌+◌, ◌-◌, ◌*◌, ◌/◌, ◌%◌, ◌^◌, ◌≤◌, ◌<◌, ◌≡◌, inl, inr, refl, sym, ap, ◌∙◌, some,
  false, ltb, ◌==◌, lt→ltb, if◌then◌else◌, Bool-cases, arith, ap₂, ==_iff,
}
use modeling_unix.Base.Bits.{one-le-pow}
use modeling_unix.Arithmetic.{
  nlz, divl, minus_64, corrected, quotient_by_word, quotient_by_long, udiv64,
}
use modeling_unix.Arithmetic.Shift.{pow_add, nlz-Shifted}
use modeling_unix.Arithmetic.Estimate.{Near, estimate}

high-lt : (h p r : ℕ) → p * (r * 2) ≡ 2 ^ 32 → h * p < 2 ^ 32 → h < r * 2
high-lt h p r e u = let c : h * p < r * 2 * p = omega arith in lt_of_mul-lt-mul_right p c

shifted-lt : (d p r : ℕ) → p * (r * 2) ≡ 2 ^ 32 → d / 2 ^ 32 * p < 2 ^ 32 → 1 ≤ p → d * p < 2 ^ 64
shifted-lt d p r e u l =
    let a : suc (d / 2 ^ 32) * p ≤ r * 2 * p = mul-le-mul_right p (high-lt (d / 2 ^ 32) p r e u) in
    let b : suc d * p ≤ suc (d / 2 ^ 32) * 2 ^ 32 * p = mul-le-mul_right p (omega arith) in
    omega (arith, e)

regroup : (k p r : ℕ) → p * (r * 2) ≡ 2 ^ 32 → k * (r * 2) * p ≡ k * 2 ^ 32
regroup k p r e = let f : k * (r * 2) * p ≡ k * (p * (r * 2)) = omega arith in f ∙ ap (λ t. k * t) e

-- The divisor's first 32 bits are near enough.
shifted-Near :
    (d p r : ℕ)
    → p * (r * 2) ≡ 2 ^ 32
    → 1 ≤ r
    → 2 ^ 31 ≤ d / 2 ^ 32 * p
    → d * p < 2 ^ 64
    → 1 ≤ p
    → Near d (d * p / 2 ^ 32) r
shifted-Near d p r e rp l u pp =
    let v = d * p / 2 ^ 32 in
    let a : d / 2 ^ 32 * 2 ^ 32 * p ≤ d * p = mul-le-mul_right p (omega arith) in
    let b : v * (r * 2) * p ≡ v * 2 ^ 32 = regroup v p r e in
    let c : suc v * (r * 2) * p ≡ suc v * 2 ^ 32 = regroup (suc v) p r e in
    let lo : v * (r * 2) * p ≤ d * p = omega arith in
    let hi : d * p < suc v * (r * 2) * p = omega arith in
    (
      omega arith,
      omega arith,
      rp,
      le_of_mul-le-mul_right lo pp,
      omega (arith, lt_of_mul-lt-mul_right p hi),
    )

two_powers : (s : ℕ) → s ≤ 31 → 2 ^ s * (2 ^ (31 - s) * 2) ≡ 2 ^ 32
two_powers s h =
    let e : s + (31 - s) ≡ 31 = omega arith in
    let f : 2 ^ s * 2 ^ (31 - s) ≡ 2 ^ 31 = sym (pow_add s (31 - s)) ∙ ap (λ k. 2 ^ k) e in
    omega arith

-- the divisor's words as `udiv64` takes them
abbrev top_word : ℕ → ℕ
top_word d = d * 2 ^ nlz (d / 2 ^ 32) % 2 ^ 64 / 2 ^ 32

top_word-Near :
    (d : ℕ) → 2 ^ 32 ≤ d → d < 2 ^ 64 → Near d (top_word d) (2 ^ (31 - nlz (d / 2 ^ 32)))
top_word-Near d l u =
    let s = nlz (d / 2 ^ 32) in
    let (a, b, c) = nlz-Shifted (d / 2 ^ 32) (omega arith) (omega arith) in
    let e : 2 ^ s * (2 ^ (31 - s) * 2) ≡ 2 ^ 32 = two_powers s a in
    let w = shifted-lt d (2 ^ s) (2 ^ (31 - s)) e c (one-le-pow s) in
    let f : d * 2 ^ s % 2 ^ 64 ≡ d * 2 ^ s = omega arith in
    rw f (shifted-Near d (2 ^ s) (2 ^ (31 - s)) e (one-le-pow (31 - s)) b w (one-le-pow s))

-- the quotient of two halves
half-div : (n v r : ℕ) → n / 2 / v / r ≡ n / (v * (r * 2))
half-div n v r =
    let e : 2 * (v * r) ≡ v * (r * 2) = omega arith in
    div-div-eq-div-mul (n / 2) v r ∙ div-div-eq-div-mul n 2 (v * r) ∙ ap (λ k. n / k) e

mod-word : (x : ℕ) → x < 2 ^ 64 → x % 2 ^ 64 ≡ x
mod-word x h = omega arith

estimate-halves :
    (n d v r : ℕ) → Near d v r → n < 2 ^ 64 → (n / d ≤ n / 2 / v / r) × (n / 2 / v / r ≤ n / d + 1)
estimate-halves n d v r a h = rw (half-div n v r) (estimate n d v r a h)

pub minus_64-le : (a b : ℕ) → a < 2 ^ 64 → b ≤ a → minus_64 a b ≡ a - b
minus_64-le a b u h = omega arith

minus_64-one : (q : ℕ) → 1 ≤ q → q ≤ 2 ^ 64 → minus_64 q 1 ≡ q - 1
minus_64-one q l u = omega arith

pub quotient-bounds : (n d : ℕ) → 1 ≤ d → (n / d * d ≤ n) × (n < n / d * d + d)
quotient-bounds n d p = (
  (le-div_iff_mul-le p).0 (omega arith),
  (let f : n < suc (n / d) * d = (div-lt_iff_lt-mul p).0 (omega arith) in omega arith),
)

corrected-eq :
    (n d m : ℕ)
    → n < 2 ^ 64
    → m < 2 ^ 64
    → m * d ≤ n
    → corrected n d (suc m) ≡ (if ltb (n - m * d) d then m else suc m)
unfolding corrected
corrected-eq n d m u w h =
    let e : minus_64 (suc m) 1 ≡ m =
      minus_64-one (suc m) (omega arith) (omega arith) ∙ omega arith in
    let f : minus_64 n (minus_64 (suc m) 1 * d) ≡ n - m * d =
      ap (λ k. minus_64 n (k * d)) e ∙ minus_64-le n (m * d) u h in
    ap₂ (λ (a b : ℕ). if ltb a d then b else suc m) f e

below-word : (n d m : ℕ) → n < 2 ^ 64 → 1 ≤ d → m * d ≤ n → m < 2 ^ 64
below-word n d m u p h = let f : m * 1 ≤ m * d = mul-le-mul (omega arith) p in omega arith

choose_same : (n d q : ℕ) → n < q * d + d → (if ltb (n - q * d) d then q else suc q) ≡ q
choose_same n d q b = ground arith

choose_more : (n d m : ℕ) → suc m * d ≤ n → (if ltb (n - m * d) d then m else suc m) ≡ suc m
choose_more n d m a = ground arith

corrected_lem :
    (n d q : ℕ)
    → n < 2 ^ 64
    → 2 ≤ d
    → 1 ≤ n / d
    → n / d ≤ q
    → q ≤ n / d + 1
    → corrected n d q ≡ n / d
corrected_lem n d zero u p l a b = absurd (omega arith)
corrected_lem n d (suc m) u p l a b =
    let (lo, hi) = quotient-bounds n d (omega arith) in
    elim (Bool-cases (m == n / d)) [
      | inl f ↦
          let e : m ≡ n / d = (==_iff m (n / d)).0 f in
          let le : m * d ≤ n = rw e lo in
          corrected-eq n d m u (below-word n d m u (omega arith) le) le
          ∙ rw (sym e) (choose_same n d m (rw e hi))
      | inr f ↦
          let e : suc m ≡ n / d = ground (arith, f) in
          let le : suc m * d ≤ n = rw e lo in
          corrected-eq n d m u (below-word n d m u (omega arith) (omega arith)) (omega arith)
          ∙ choose_more n d m le
          ∙ e
    ]

word_parts : (n d : ℕ) → 2 ^ 32 * (n / 2 ^ 32 % d) + n % 2 ^ 32 + 2 ^ 32 * (n / 2 ^ 32 / d) * d ≡ n
word_parts n d = omega (arith, mod-add-div' (n / 2 ^ 32) d)

short-div :
    (n d : ℕ)
    → 1 ≤ d
    → (2 ^ 32 * (n / 2 ^ 32 % d) + n % 2 ^ 32) / d + 2 ^ 32 * (n / 2 ^ 32 / d) ≡ n / d
short-div n d p =
    sym (add-mul-div_right (2 ^ 32 * (n / 2 ^ 32 % d) + n % 2 ^ 32) (2 ^ 32 * (n / 2 ^ 32 / d)) p)
    ∙ ap (λ (k : ℕ). k / d) (word_parts n d)

divl-fits : (n d : ℕ) → n / 2 ^ 32 < d → divl n d ≡ some (n / d)
unfolding divl
divl-fits n d h = rw (lt→ltb (n / 2 ^ 32) d h) refl

div-word : (n d : ℕ) → n < 2 ^ 64 → 1 ≤ d → n / d < 2 ^ 64
div-word n d u p = omega (arith, div-le_self n d)

quotient_by_word_lem :
    (n d : ℕ) → n < 2 ^ 64 → 1 ≤ d → d < 2 ^ 32 → quotient_by_word n d ≡ some (n / d)
unfolding quotient_by_word
quotient_by_word_lem n d u p l =
    let e : d % 2 ^ 32 ≡ d = omega arith in
    let z : (d == 0) ≡ false = ground arith in
    let m : n / 2 ^ 32 % d < d = mod-lt (n / 2 ^ 32) p in
    rw e (
      rw z (
        rw (divl-fits (2 ^ 32 * (n / 2 ^ 32 % d) + n % 2 ^ 32) d (omega arith)) (
          ap some
            (ap (λ (k : ℕ). k % 2 ^ 64) (short-div n d p) ∙ mod-word (n / d) (div-word n d u p)))))

quotient_by_long_lem :
    (n d : ℕ) → n < 2 ^ 64 → 2 ^ 32 ≤ d → d < 2 ^ 64 → d ≤ n → quotient_by_long n d ≡ some (n / d)
unfolding quotient_by_long
quotient_by_long_lem n d u l w h =
    let near = top_word-Near d l w in
    let r = 2 ^ (31 - nlz (d / 2 ^ 32)) in
    let (lo, hi) = estimate-halves n d (top_word d) r near u in
    let fits : n / 2 / 2 ^ 32 < top_word d = omega (arith, near.0) in
    let two : 2 ≤ d = omega arith in
    let one_le : 1 ≤ n / d = (le-div_iff_mul-le (omega arith)).1 (omega arith) in
    rw (divl-fits (n / 2) (top_word d) fits)
      (ap some (corrected_lem n d (n / 2 / top_word d / r) u two one_le lo hi))

below-div : (n d : ℕ) → 1 ≤ d → n < d → n / d ≡ 0
below-div n d p h = let f : n / d < 1 = (div-lt_iff_lt-mul p).1 (omega arith) in omega arith

-- `udiv64` of 64-bit numbers, by a divisor other than 0, never traps and gives the quotient.
pub udiv64-div : (n d : ℕ) → n < 2 ^ 64 → d < 2 ^ 64 → 1 ≤ d → udiv64 n d ≡ some (n / d)
unfolding udiv64
udiv64-div n d u w p = elim (Bool-cases (d / 2 ^ 32 == 0)) [
  | inl f ↦ rw f (quotient_by_word_lem n d u p (ground (arith, f)))
  | inr f ↦ rw f (elim (Bool-cases (ltb n d)) [
    | inl g ↦ rw g (ap some (ground (arith, below-div n d p, g)))
    | inr g ↦ rw g (quotient_by_long_lem n d u (ground (arith, f)) w (ground (arith, g)))
  ])
]
