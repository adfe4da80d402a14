-- ===== src/Bitmap.antt =====
-- lib/kernel/bitmap.c: an array of bits held in an array of machine words.
-- `none` is a failed ASSERT. `elem_type` and `size_t` are the 32-bit words of the i386 target, so
-- sums of them are taken modulo 2 ^ 32. A read or write past the words, which the ASSERTs and
-- `IsValid` exclude, reads 0 and writes nothing.
pub mod View
pub mod Single
pub mod Range
pub mod Scan
mod Tests
use Prim.Native.Nat.{bit_and, bit_or, bit_xor}
use modeling_unix.Base.{
  ℕ, zero, suc, ◌+◌, ◌-◌, ◌*◌, ◌/◌, ◌%◌, ◌^◌, Bool, true, false, not, Option, none, some, List, ltb,
  leb, ◌==◌, if◌then◌else◌, same, get_or, set, ◌>>=◌, ◌>>◌, assert,
}

abbrev pub elem_bits : ℕ
elem_bits = 32

abbrev pub size_max : ℕ
size_max = 2 ^ 32 - 1

-- BITMAP_ERROR
abbrev pub bitmap_error : ℕ
bitmap_error = size_max

abbrev pub add_size : ℕ → ℕ → ℕ
add_size a b = (a + b) % 2 ^ 32

pub record Bitmap : Type 0 where
  pub bit_cnt : ℕ
  pub bits : List ℕ

abbrev pub elem_idx : ℕ → ℕ
elem_idx bit_idx = bit_idx / elem_bits

abbrev pub bit_mask : ℕ → ℕ
bit_mask bit_idx = 2 ^ (bit_idx % elem_bits)

-- DIV_ROUND_UP (bit_cnt, ELEM_BITS)
abbrev pub elem_cnt : ℕ → ℕ
elem_cnt bit_cnt = add_size bit_cnt (elem_bits - 1) / elem_bits

abbrev pub byte_cnt : ℕ → ℕ
byte_cnt bit_cnt = 4 * elem_cnt bit_cnt % 2 ^ 32

unfoldable pub last_mask : Bitmap → ℕ
last_mask b =
    let last_bits = b.bit_cnt % elem_bits in
    if last_bits == 0 then 2 ^ 32 - 1 else 2 ^ last_bits - 1

-- `~mask`
abbrev pub complement : ℕ → ℕ
complement mask = 2 ^ 32 - 1 - mask

abbrev pub word : Bitmap → ℕ → ℕ
word b idx = get_or b.bits idx 0

unfoldable pub bitmap_mark : Bitmap → ℕ → Bitmap
bitmap_mark b bit_idx =
    let idx = elem_idx bit_idx in
    record b { bits = set b.bits idx (bit_or (word b idx) (bit_mask bit_idx)) }

unfoldable pub bitmap_reset : Bitmap → ℕ → Bitmap
bitmap_reset b bit_idx =
    let idx = elem_idx bit_idx in
    record b { bits = set b.bits idx (bit_and (word b idx) (complement (bit_mask bit_idx))) }

unfoldable pub bitmap_flip : Bitmap → ℕ → Bitmap
bitmap_flip b bit_idx =
    let idx = elem_idx bit_idx in
    record b { bits = set b.bits idx (bit_xor (word b idx) (bit_mask bit_idx)) }

unfoldable pub bitmap_set : Bitmap → ℕ → Bool → Option Bitmap
unfolding bitmap_mark bitmap_reset
bitmap_set b idx value = do
  assert (ltb idx b.bit_cnt)
  if value then some (bitmap_mark b idx) else some (bitmap_reset b idx)

unfoldable pub bitmap_test : Bitmap → ℕ → Option Bool
bitmap_test b idx = do
  assert (ltb idx b.bit_cnt)
  some (not (bit_and (word b (elem_idx idx)) (bit_mask idx) == 0))

-- the ASSERTs of the operations on the `cnt` bits from `start`
unfoldable pub assert_range : Bitmap → ℕ → ℕ → Option (Unit {0})
assert_range b start cnt = do
  assert (leb start b.bit_cnt)
  assert (leb (add_size start cnt) b.bit_cnt)

-- Each loop has the number of its remaining rounds, and `i`.
unfoldable pub set_loop : ℕ → Bitmap → (start i : ℕ) → Bool → Option Bitmap
set_loop zero b start i value = some b
set_loop (suc n) b start i value =
    bitmap_set b (add_size start i) value >>= λ b'. set_loop n b' start (i + 1) value

unfoldable pub bitmap_set_multiple : Bitmap → (start cnt : ℕ) → Bool → Option Bitmap
unfolding set_loop assert_range
bitmap_set_multiple b start cnt value = do assert_range b start cnt; set_loop cnt b start 0 value

unfoldable pub bitmap_set_all : Bitmap → Bool → Option Bitmap
unfolding bitmap_set_multiple
bitmap_set_all b value = bitmap_set_multiple b 0 b.bit_cnt value

unfoldable pub count_loop : ℕ → Bitmap → (start i value_cnt : ℕ) → Bool → Option ℕ
count_loop zero b start i value_cnt value = some value_cnt
count_loop (suc n) b start i value_cnt value = bitmap_test b (add_size start i) >>= λ bit.
    count_loop n b start (i + 1) (if same bit value then value_cnt + 1 else value_cnt) value

unfoldable pub bitmap_count : Bitmap → (start cnt : ℕ) → Bool → Option ℕ
unfolding count_loop assert_range
bitmap_count b start cnt value = do assert_range b start cnt; count_loop cnt b start 0 0 value

unfoldable pub contains_loop : ℕ → Bitmap → (start i : ℕ) → Bool → Option Bool
contains_loop zero b start i value = some false
contains_loop (suc n) b start i value =
    let rest = contains_loop n b start (i + 1) value in
    bitmap_test b (add_size start i) >>= λ bit. if same bit value then some true else rest

unfoldable pub bitmap_contains : Bitmap → (start cnt : ℕ) → Bool → Option Bool
unfolding contains_loop assert_range
bitmap_contains b start cnt value = do assert_range b start cnt; contains_loop cnt b start 0 value

unfoldable pub bitmap_any : Bitmap → (start cnt : ℕ) → Option Bool
unfolding bitmap_contains
bitmap_any b start cnt = bitmap_contains b start cnt true

unfoldable pub bitmap_none : Bitmap → (start cnt : ℕ) → Option Bool
unfolding bitmap_contains
bitmap_none b start cnt = bitmap_contains b start cnt true >>= λ found. some (not found)

unfoldable pub bitmap_all : Bitmap → (start cnt : ℕ) → Option Bool
unfolding bitmap_contains
bitmap_all b start cnt = bitmap_contains b start cnt false >>= λ found. some (not found)

-- `for (i = start; i <= last; i++)`: it has `last + 1 - start` rounds.
unfoldable pub scan_loop : ℕ → Bitmap → (i cnt : ℕ) → Bool → Option ℕ
scan_loop zero b i cnt value = some bitmap_error
scan_loop (suc n) b i cnt value =
    let rest = scan_loop n b (i + 1) cnt value in
    bitmap_contains b i cnt (not value) >>= λ found. if found then rest else some i

unfoldable pub bitmap_scan : Bitmap → (start cnt : ℕ) → Bool → Option ℕ
unfolding scan_loop
bitmap_scan b start cnt value = do
  assert (leb start b.bit_cnt)
  if leb cnt b.bit_cnt
      then scan_loop (b.bit_cnt - cnt + 1 - start) b start cnt value
      else some bitmap_error

unfoldable pub bitmap_scan_and_flip : Bitmap → (start cnt : ℕ) → Bool → Option (ℕ × Bitmap)
unfolding bitmap_scan
bitmap_scan_and_flip b start cnt value = bitmap_scan b start cnt value >>= λ idx.
    if idx == bitmap_error
    then some (idx, b)
    else bitmap_set_multiple b idx cnt (not value) >>= λ b'. some (idx, b')

-- `storage` is what `malloc` returns for the words, with whatever they hold; `room` says that the
-- first `malloc` succeeded. The result is null where either failed.
unfoldable pub bitmap_create :
    (room : Bool) (storage : Option (List ℕ)) (bit_cnt : ℕ) → Option (Option Bitmap)
unfolding bitmap_set_all
bitmap_create false storage bit_cnt = some none
bitmap_create true (some words) bit_cnt =
    bitmap_set_all (record { bit_cnt = bit_cnt; bits = words }) false >>= λ b. some (some b)
bitmap_create true none bit_cnt =
    if bit_cnt == 0
    then (bitmap_set_all (record { bit_cnt = bit_cnt; bits = List.[] }) false >>= λ b.
        some (some b))
    else some none

-- `sizeof (struct bitmap)` is 8.
unfoldable pub bitmap_buf_size : (bit_cnt : ℕ) → ℕ
bitmap_buf_size bit_cnt = add_size 8 (byte_cnt bit_cnt)

-- `storage` has the words of the block behind the structure.
unfoldable pub bitmap_create_in_buf : (storage : List ℕ) (bit_cnt block_size : ℕ) → Option Bitmap
unfolding bitmap_buf_size bitmap_set_all
bitmap_create_in_buf storage bit_cnt block_size = do
  assert (leb (bitmap_buf_size bit_cnt) block_size)
  bitmap_set_all (record { bit_cnt = bit_cnt; bits = storage }) false

unfoldable pub bitmap_size : Bitmap → ℕ
bitmap_size b = b.bit_cnt
