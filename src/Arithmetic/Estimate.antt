-- ===== src/Arithmetic/Estimate.antt =====
-- The quotient of `udiv64` by a divisor of more than 32 bits, from the divisor's first 32 bits.
use native.Mathlib.Nat.{mul-le-mul_right, mul-le-mul, div-lt_iff_lt-mul, le-div_iff_mul-le}
use modeling_unix.Base.{ℕ, zero, suc, ◌+◌, ◌*◌, ◌/◌, ◌^◌, ◌≤◌, ◌<◌, ◌≡◌, arith}

-- The divisor `d` is near `v * e`, of which `v` has 32 bits.
abbrev pub Near : (d v r : ℕ) → Type 0
Near d v r = (2 ^ 31 ≤ v) × (v < 2 ^ 32) × (1 ≤ r) × (v * (r * 2) ≤ d) × (d < v * (r * 2) + r * 2)

-- the bound on the error, by the number of bits that are left out
error-lt :
    (q v r : ℕ) → q * r < 2 ^ 32 → 2 ^ 31 ≤ v → 1 ≤ r → q * (r * 2) + r * 2 ≤ v * (r * 2) + q + 1
error-lt q v zero h l p = absurd (omega arith)
error-lt q v (suc zero) h l p = omega arith
error-lt q v (suc (suc zero)) h l p = omega arith
error-lt q v (suc (suc (suc r))) h l p =
    let g : 2 ^ 31 * suc (suc (suc r)) ≤ v * suc (suc (suc r)) =
      mul-le-mul_right (suc (suc (suc r))) l in
    omega (arith, g)

below-mul : (q x e d : ℕ) → d < x + e → suc q * suc d ≤ suc q * (x + e)
below-mul q x e d h = mul-le-mul (omega arith) (omega arith)

quotient-mul : (n d x : ℕ) → 1 ≤ d → x ≤ d → n / d * x ≤ n
quotient-mul n d x p h =
    let a : n / d * x ≤ n / d * d = mul-le-mul (omega arith) h in
    let b : n / d * d ≤ n = (le-div_iff_mul-le p).0 (omega arith) in omega arith

quotient-small : (q v r n : ℕ) → q * (v * (r * 2)) ≤ n → n < 2 ^ 64 → 2 ^ 31 ≤ v → q * r < 2 ^ 32
quotient-small q v r n h k l =
    let a : 2 ^ 31 * (q * r * 2) ≤ v * (q * r * 2) = mul-le-mul_right (q * r * 2) l in
    let b : v * (q * r * 2) ≡ q * (v * (r * 2)) = grind arith in omega arith

times-pos : (a b : ℕ) → 1 ≤ a → 1 ≤ b → 1 ≤ a * b
times-pos (suc a) (suc b) p q = omega arith
times-pos zero b p q = absurd (omega arith)
times-pos (suc a) zero p q = absurd (omega arith)

two_more : (n d q x e : ℕ) → n < suc q * d → d < x + e → q * e + e ≤ x + q + 1 → n < suc (suc q) * x
two_more n d q x e h g err = omega (arith, below-mul q x e d g)

-- The estimate is the quotient or one more.
pub estimate :
    (n d v r : ℕ)
    → Near d v r
    → n < 2 ^ 64
    → (n / d ≤ n / (v * (r * 2))) × (n / (v * (r * 2)) ≤ n / d + 1)
estimate n d v r (a, b, c, f, g) h =
    let q = n / d in
    let x = v * (r * 2) in
    let xpos : 1 ≤ x = times-pos v (r * 2) (omega arith) (omega arith) in
    let qx : q * x ≤ n = quotient-mul n d x (omega arith) f in
    let err = error-lt q v r (quotient-small q v r n qx h a) a c in
    let n_below : n < suc q * d = (div-lt_iff_lt-mul (omega arith)).0 (omega arith) in
    let bound : n < suc (suc q) * x = two_more n d q x (r * 2) n_below g err in
    let small : n / x < suc (suc q) = (div-lt_iff_lt-mul xpos).1 bound in
    ((le-div_iff_mul-le xpos).1 qx, omega arith)
