-- ===== src/Arithmetic/Shift.antt =====
-- `nlz` of lib/arithmetic.c: a shift by it puts the first bit in front.
use native.Mathlib.Nat.{pow-suc, mul-le-mul_right}
use modeling_unix.Base.{
  ℕ, zero, suc, ◌+◌, ◌*◌, ◌%◌, ◌^◌, ◌≤◌, ◌<◌, ◌≡◌, inl, inr, refl, sym, ap, ◌∙◌, leb, leb→le,
  leb→gt, arith, Bool-cases,
}
use modeling_unix.Base.Bits.{one-le-pow}
use modeling_unix.Arithmetic.{nlz_step, nlz_last, nlz}

mul_two-right : (p q : ℕ) → p * q * 2 ≡ p * 2 * q
mul_two-right p q = omega arith

pub pow_add : (a b : ℕ) → 2 ^ (a + b) ≡ 2 ^ a * 2 ^ b
pow_add zero b = let e : zero + b ≡ b = omega arith in ap (λ k. 2 ^ k) e ∙ omega arith
pow_add (suc a) b =
    let e : suc a + b ≡ suc (a + b) = omega arith in
    ap (λ k. 2 ^ k) e
    ∙ pow-suc 2 (a + b)
    ∙ ap (λ t. t * 2) (pow_add a b)
    ∙ mul_two-right (2 ^ a) (2 ^ b)
    ∙ ap (λ t. t * 2 ^ b) (sym (pow-suc 2 a))

-- `y` is `x` with `n` more bits, in a word, and at least `low`.
abbrev pub Shifted : (x most low : ℕ) → ℕ × ℕ → Type 0
Shifted x most low (n, y) = (y ≡ x * 2 ^ n) × (n ≤ most) × (low ≤ y) × (y < 2 ^ 32)

mod-lt_self : (x : ℕ) → x < 2 ^ 32 → x % 2 ^ 32 ≡ x
mod-lt_self x h = omega arith

mul_assoc : (a b c : ℕ) → a * b * c ≡ a * (b * c)
mul_assoc a b c = omega arith

pow_pos : (k : ℕ) → 1 ≤ 2 ^ k
pow_pos = one-le-pow

step-Shifted :
    (x most low limit bits : ℕ) (s : ℕ × ℕ)
    → Shifted x most low s
    → limit + 1 ≡ low * 2 ^ bits
    → (limit + 1) * 2 ^ bits ≡ 2 ^ 32
    → Shifted x (most + bits) (limit + 1) (nlz_step limit bits s)
step-Shifted x most low limit bits (n, y) (e, m, l, u) hl hr = elim (Bool-cases (leb y limit)) [
  | inr f ↦
      let t : nlz_step limit bits (n, y) ≡ (n, y) = rw f refl in
      rw t (e, omega arith, omega (arith, leb→gt y limit f), u)
  | inl f ↦
      let a : low * 2 ^ bits ≤ y * 2 ^ bits = mul-le-mul_right (2 ^ bits) l in
      let b : (y + 1) * 2 ^ bits ≤ (limit + 1) * 2 ^ bits =
        mul-le-mul_right (2 ^ bits) (omega (arith, leb→le y limit f)) in
      let t : nlz_step limit bits (n, y) ≡ (n + bits, y * 2 ^ bits) = rw f (
        ap (λ (k : ℕ). (n + bits, k))
          (mod-lt_self (y * 2 ^ bits) (omega (arith, b, hr, pow_pos bits)))) in
      rw t (
        ap (λ k. k * 2 ^ bits) e
            ∙ mul_assoc x (2 ^ n) (2 ^ bits)
            ∙ ap (λ k. x * k) (sym (pow_add n bits)),
        omega arith,
        omega (arith, a, hl),
        omega (arith, b, hr, pow_pos bits),
      )
]

last-Shifted :
    (x : ℕ) (s : ℕ × ℕ)
    → Shifted x 30 (2 ^ 30) s
    → (nlz_last s ≤ 31) × (2 ^ 31 ≤ x * 2 ^ nlz_last s) × (x * 2 ^ nlz_last s < 2 ^ 32)
last-Shifted x (n, y) (e, m, l, u) = elim (Bool-cases (leb y 0x7FFFFFFF)) [
  | inl f ↦
      let t : nlz_last (n, y) ≡ suc n = rw f (omega arith) in
      let d : x * 2 ^ suc n ≡ x * 2 ^ n * 2 = ap (λ k. x * k) (pow-suc 2 n) ∙ omega arith in
      let p : y ≤ 0x7FFFFFFF = leb→le y 0x7FFFFFFF f in
      rw t (omega arith, omega (arith, d, e), omega (arith, d, e))
  | inr f ↦
      let t : nlz_last (n, y) ≡ n = rw f refl in
      let p : 0x7FFFFFFF < y = leb→gt y 0x7FFFFFFF f in
      rw t (omega arith, omega (arith, e), omega (arith, e))
]

pub nlz-Shifted :
    (x : ℕ)
    → 1 ≤ x
    → x < 2 ^ 32
    → (nlz x ≤ 31) × (2 ^ 31 ≤ x * 2 ^ nlz x) × (x * 2 ^ nlz x < 2 ^ 32)
unfolding nlz
nlz-Shifted x l u =
    let a = step-Shifted x 0 1 0x0000FFFF 16 (0, x) (omega arith, omega arith, l, u) refl refl in
    let b = step-Shifted x 16 (2 ^ 16) 0x00FFFFFF 8 (nlz_step 0x0000FFFF 16 (0, x)) a refl refl in
    let s3 = nlz_step 0x00FFFFFF 8 (nlz_step 0x0000FFFF 16 (0, x)) in
    let c = step-Shifted x 24 (2 ^ 24) 0x0FFFFFFF 4 s3 b refl refl in
    let s4 = nlz_step 0x0FFFFFFF 4 s3 in
    last-Shifted x (nlz_step 0x3FFFFFFF 2 s4)
      (step-Shifted x 28 (2 ^ 28) 0x3FFFFFFF 2 s4 c refl refl)
