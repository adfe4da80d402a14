-- ===== src/Base/Bits.antt =====
-- Binary digits of machine words: what C's `&`, `|`, `^`, `~` and `<<` do to each digit.
mod Step
use Prim.Native.Nat.{bit_and, bit_or, bit_xor, bit_and-bitwise, differ}
use native.Mathlib.Nat.{pow-suc}
use modeling_unix.Base.{
  ℕ, zero, suc, ◌+◌, ◌-◌, ◌*◌, ◌/◌, ◌%◌, ◌^◌, ◌≤◌, ◌<◌, min, max, ◌≡◌, ◌≢◌, refl, ap, ◌∙◌, Bool,
  true, false, arith, ◌==◌, if◌then◌else◌,
}
use Step.{bit_and_step, bit_or_step, bit_xor_step}

-- the binary digit number `k` of `x`
abbrev pub digit : ℕ → ℕ → ℕ
digit x zero = x % 2
digit x (suc k) = digit (x / 2) k

pub digit-lt : (x k : ℕ) → digit x k < 2
digit-lt x zero = omega arith
digit-lt x (suc k) = digit-lt (x / 2) k

pub digit-zero : (k : ℕ) → digit 0 k ≡ 0
digit-zero zero = refl
digit-zero (suc k) = digit-zero k

and_half : (x y : ℕ) → bit_and x y / 2 ≡ bit_and (x / 2) (y / 2)
and_half x y = omega (arith, bit_and_step x y)

or_half : (x y : ℕ) → bit_or x y / 2 ≡ bit_or (x / 2) (y / 2)
or_half x y = omega (arith, bit_or_step x y)

differ-lt : (a b : ℕ) → a < 2 → b < 2 → differ a b < 2
differ-lt zero zero p q = omega arith
differ-lt zero (suc b) p q = q
differ-lt (suc a) zero p q = p
differ-lt (suc zero) (suc zero) p q = omega arith
differ-lt (suc zero) (suc (suc b)) p q = absurd (omega arith)
differ-lt (suc (suc a)) (suc b) p q = absurd (omega arith)

xor_half : (x y : ℕ) → bit_xor x y / 2 ≡ bit_xor (x / 2) (y / 2)
xor_half x y =
    omega (arith, bit_xor_step x y, differ-lt (x % 2) (y % 2) (omega arith) (omega arith))

pub digit-bit_and : (k x y : ℕ) → digit (bit_and x y) k ≡ min (digit x k) (digit y k)
digit-bit_and zero x y = omega (arith, bit_and_step x y)
digit-bit_and (suc k) x y = ap (λ t. digit t k) (and_half x y) ∙ digit-bit_and k (x / 2) (y / 2)

pub digit-bit_or : (k x y : ℕ) → digit (bit_or x y) k ≡ max (digit x k) (digit y k)
digit-bit_or zero x y = omega (arith, bit_or_step x y)
digit-bit_or (suc k) x y = ap (λ t. digit t k) (or_half x y) ∙ digit-bit_or k (x / 2) (y / 2)

pub digit-bit_xor : (k x y : ℕ) → digit (bit_xor x y) k ≡ differ (digit x k) (digit y k)
digit-bit_xor zero x y =
    omega (arith, bit_xor_step x y, differ-lt (x % 2) (y % 2) (omega arith) (omega arith))
digit-bit_xor (suc k) x y = ap (λ t. digit t k) (xor_half x y) ∙ digit-bit_xor k (x / 2) (y / 2)

-- `1 << n` has the one digit `n`.
pub digit_pow : (n k : ℕ) → digit (2 ^ n) k ≡ (if n == k then 1 else 0)
digit_pow zero zero = refl
digit_pow zero (suc k) = ground (arith, digit-zero k)
digit_pow (suc n) zero = ground (arith, pow-suc 2 n)
digit_pow (suc n) (suc k) =
    let e : 2 ^ suc n / 2 ≡ 2 ^ n = omega (arith, pow-suc 2 n) in
    rw e (ground (arith, digit_pow n k))

-- `~x` at `w` bits turns each digit over.
pub digit_complement : (w k x : ℕ) → x < 2 ^ w → k < w → digit (2 ^ w - 1 - x) k ≡ 1 - digit x k
digit_complement zero k x h p = absurd (omega arith)
digit_complement (suc w) zero x h p = omega (arith, pow-suc 2 w)
digit_complement (suc w) (suc k) x h p =
    let e : (2 ^ suc w - 1 - x) / 2 ≡ 2 ^ w - 1 - x / 2 = omega (arith, pow-suc 2 w) in
    rw e (digit_complement w k (x / 2) (omega (arith, pow-suc 2 w)) (omega arith))

bit_and-zero_below : (n x : ℕ) → x ≤ n → bit_and x 0 ≡ 0
bit_and-zero_below zero x h = let e : x ≡ 0 = omega arith in rw e refl
bit_and-zero_below (suc n) zero h = refl
bit_and-zero_below (suc n) (suc x) h =
    omega (arith, bit_and_step (suc x) 0, bit_and-zero_below n (suc x / 2) (omega arith))

-- `x & (1 << k)` picks the digit `k`.
pub bit_and_pow : (k x : ℕ) → bit_and x (2 ^ k) ≡ digit x k * 2 ^ k
bit_and_pow zero x =
    omega (arith, bit_and_step x 1, bit_and-zero_below (x / 2) (x / 2) (omega arith))
bit_and_pow (suc k) x =
    let e : 2 ^ suc k / 2 ≡ 2 ^ k = omega (arith, pow-suc 2 k) in
    omega (
      arith,
      bit_and_step x (2 ^ suc k),
      pow-suc 2 k,
      ap (bit_and (x / 2)) e,
      bit_and_pow k (x / 2),
      ap (λ (t : ℕ). digit (x / 2) k * t) (pow-suc 2 k),
    )

pub one-le-pow : (k : ℕ) → 1 ≤ 2 ^ k
one-le-pow zero = omega arith
one-le-pow (suc k) = omega (arith, pow-suc 2 k, one-le-pow k)

pub pow-lt : (k w : ℕ) → k < w → 2 ^ k < 2 ^ w
pow-lt k zero h = absurd (omega arith)
pow-lt zero (suc w) h = omega (arith, pow-suc 2 w, one-le-pow w)
pow-lt (suc k) (suc w) h = omega (arith, pow-suc 2 w, pow-suc 2 k, pow-lt k w (omega arith))

-- The operations stay within a word.
pub bit_or-lt : (w x y : ℕ) → x < 2 ^ w → y < 2 ^ w → bit_or x y < 2 ^ w
bit_or-lt zero x y p q =
    let e : x ≡ 0 = omega arith in let f : y ≡ 0 = omega arith in rw (e, f) (omega arith)
bit_or-lt (suc w) x y p q = omega (
  arith,
  bit_or_step x y,
  pow-suc 2 w,
  bit_or-lt w (x / 2) (y / 2) (omega (arith, pow-suc 2 w)) (omega (arith, pow-suc 2 w)),
)

bit_and-le_below : (n x y : ℕ) → x ≤ n → bit_and x y ≤ x
bit_and-le_below n zero y h = omega (arith, bit_and-bitwise 0 y)
bit_and-le_below zero (suc x) y h = absurd (omega arith)
bit_and-le_below (suc n) (suc x) y h =
    omega (arith, bit_and_step (suc x) y, bit_and-le_below n (suc x / 2) (y / 2) (omega arith))

pub bit_and-le : (x y : ℕ) → bit_and x y ≤ x
bit_and-le x y = bit_and-le_below x x y (omega arith)

pub bit_xor-lt : (w x y : ℕ) → x < 2 ^ w → y < 2 ^ w → bit_xor x y < 2 ^ w
bit_xor-lt zero x y p q =
    let e : x ≡ 0 = omega arith in let f : y ≡ 0 = omega arith in rw (e, f) (omega arith)
bit_xor-lt (suc w) x y p q = omega (
  arith,
  bit_xor_step x y,
  differ-lt (x % 2) (y % 2) (omega arith) (omega arith),
  pow-suc 2 w,
  bit_xor-lt w (x / 2) (y / 2) (omega (arith, pow-suc 2 w)) (omega (arith, pow-suc 2 w)),
)
