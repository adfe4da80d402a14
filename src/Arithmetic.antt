-- ===== src/Arithmetic.antt =====
-- lib/arithmetic.c: 64-bit division by steps of 32 bits. `none` is the trap of a division that does not
-- fit, or by zero.
pub mod Shift
pub mod Estimate
pub mod Divide
pub mod Signed
mod Tests
use modeling_unix.Base.{
  ℕ, ◌+◌, ◌-◌, ◌*◌, ◌/◌, ◌%◌, ◌^◌, Bool, true, false, not, Option, none, some, ltb, leb, ◌==◌,
  if◌then◌else◌, ◌>>=◌,
}

-- the DIVL instruction
pub divl : (n d : ℕ) → Option ℕ
divl n d = if ltb (n / 2 ^ 32) d then some (n / d) else none

-- one of the steps of `nlz`, with the bits counted so far
abbrev pub nlz_step : (limit bits : ℕ) → ℕ × ℕ → ℕ × ℕ
nlz_step limit bits (n, x) = if leb x limit then (n + bits, x * 2 ^ bits % 2 ^ 32) else (n, x)

-- its last step
abbrev pub nlz_last : ℕ × ℕ → ℕ
nlz_last (n, x) = if leb x 0x7FFFFFFF then n + 1 else n

pub nlz : (x : ℕ) → ℕ
nlz x = nlz_last (
    nlz_step 0x3FFFFFFF 2
      (nlz_step 0x0FFFFFFF 4 (nlz_step 0x00FFFFFF 8 (nlz_step 0x0000FFFF 16 (0, x)))))

-- a - b on `uint64_t`
abbrev pub minus_64 : ℕ → ℕ → ℕ
minus_64 a b = (a + (2 ^ 64 - b % 2 ^ 64)) % 2 ^ 64

-- `udiv64` where the divisor has 32 bits
pub quotient_by_word : (n d : ℕ) → Option ℕ
quotient_by_word n d =
    let b : ℕ = 2 ^ 32 in
    let n1 = n / 2 ^ 32 in
    let n0 = n % 2 ^ 32 in
    let d0 = d % 2 ^ 32 in
    if d0 == 0
    then none
    else (divl (b * (n1 % d0) + n0) d0 >>= λ q. some ((q + b * (n1 / d0)) % 2 ^ 64))

-- the quotient that it takes from its estimate `q`, where the divisor has more
pub corrected : (n d q : ℕ) → ℕ
corrected n d q = if ltb (minus_64 n (minus_64 q 1 * d)) d then minus_64 q 1 else q

pub quotient_by_long : (n d : ℕ) → Option ℕ
quotient_by_long n d =
    let s = nlz (d / 2 ^ 32) in
    divl (n / 2) (d * 2 ^ s % 2 ^ 64 / 2 ^ 32) >>= λ q. some (corrected n d (q / 2 ^ (31 - s)))

pub udiv64 : (n d : ℕ) → Option ℕ
udiv64 n d =
    if d / 2 ^ 32 == 0
    then quotient_by_word n d
    else if ltb n d
    then some 0
    else quotient_by_long n d

-- The remainder is returned as a `uint32_t`.
pub umod64 : (n d : ℕ) → Option ℕ
unfolding udiv64
umod64 n d = udiv64 n d >>= λ q. some (minus_64 n (d * q) % 2 ^ 32)

-- An `int64_t` is its 64 bits.
abbrev pub is_negative : ℕ → Bool
is_negative n = leb (2 ^ 63) n

abbrev pub magnitude : ℕ → ℕ
magnitude n = if is_negative n then minus_64 0 n else n

abbrev pub same_sign : ℕ → ℕ → Bool
same_sign n d = if is_negative n then is_negative d else not (is_negative d)

pub sdiv64 : (n d : ℕ) → Option ℕ
sdiv64 n d =
    udiv64 (magnitude n) (magnitude d) >>= λ q. some (if same_sign n d then q else minus_64 0 q)

-- The remainder is returned as an `int32_t`.
pub smod64 : (n d : ℕ) → Option ℕ
smod64 n d = sdiv64 n d >>= λ q. some (minus_64 n (d * q) % 2 ^ 32)
