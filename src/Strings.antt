-- ===== src/Strings.antt =====
-- lib/string.c: blocks of bytes and null-terminated strings in one memory. A pointer is an address,
-- and the null pointer is 0. `none` is a failed ASSERT or an access outside the memory. The walks
-- along a string have as many rounds as the memory has bytes, after which they have left it.
pub mod Search
pub mod Memory
pub mod Move
pub mod Copy
mod Tests
use modeling_unix.Base.{
  ℕ, zero, suc, ◌+◌, ◌-◌, ◌%◌, Bool, true, false, not, ◌&&◌, ◌||◌, Option, none, some, List, ltb,
  leb, ◌==◌, if◌then◌else◌, length, get_elem?, set, ◌>>=◌, ◌>>◌, assert,
}
use modeling_unix.Base.Int.{ℤ, pos, negsuc}

abbrev pub Memory : Type 0
Memory = List ℕ

abbrev pub load : Memory → ℕ → Option ℕ
load m p = get_elem? m p

abbrev pub store : Memory → ℕ → ℕ → Option Memory
store m p v = if ltb p (length m) then some (set m p v) else none

-- `p != NULL || size == 0`
abbrev pub has_block : ℕ → (size : ℕ) → Bool
has_block p size = not (p == 0) || size == 0

-- `*dst++ = *src++`, `size` times
unfoldable pub copy_up : (size : ℕ) → Memory → (dst src : ℕ) → Option Memory
copy_up zero m dst src = some m
copy_up (suc n) m dst src = do
  byte ← load m src
  m' ← store m dst byte
  copy_up n m' (dst + 1) (src + 1)

-- `*--dst = *--src`, `size` times
unfoldable pub copy_down : (size : ℕ) → Memory → (dst src : ℕ) → Option Memory
copy_down zero m dst src = some m
copy_down (suc n) m dst src = do
  byte ← load m (src - 1)
  m' ← store m (dst - 1) byte
  copy_down n m' (dst - 1) (src - 1)

unfoldable pub memcpy : Memory → (dst src size : ℕ) → Option (ℕ × Memory)
unfolding copy_up
memcpy m dst src size = do
  assert (has_block dst size)
  assert (has_block src size)
  m' ← copy_up size m dst src
  some (dst, m')

-- It returns `dst` as its loop has left it.
unfoldable pub memmove : Memory → (dst src size : ℕ) → Option (ℕ × Memory)
unfolding copy_up copy_down
memmove m dst src size = do
  assert (has_block dst size)
  assert (has_block src size)
  if ltb dst src
      then (copy_up size m dst src >>= λ m'. some (dst + size, m'))
      else (copy_down size m (dst + size) (src + size) >>= λ m'. some (dst, m'))

unfoldable pub memcmp_loop : (size : ℕ) → Memory → (a b : ℕ) → Option ℤ
memcmp_loop zero m a b = some (pos 0)
memcmp_loop (suc n) m a b =
    let rest = memcmp_loop n m (a + 1) (b + 1) in
    load m a >>= λ x.
    load m b >>= λ y. if not (x == y) then some (if ltb y x then pos 1 else negsuc 0) else rest

unfoldable pub memcmp : Memory → (a b size : ℕ) → Option ℤ
unfolding memcmp_loop
memcmp m a b size = do assert (has_block a size); assert (has_block b size); memcmp_loop size m a b

unfoldable pub memchr_loop : (size : ℕ) → Memory → (block ch : ℕ) → Option ℕ
memchr_loop zero m block ch = some 0
memchr_loop (suc n) m block ch =
    let rest = memchr_loop n m (block + 1) ch in
    load m block >>= λ x. if x == ch then some block else rest

unfoldable pub memchr : Memory → (block ch size : ℕ) → Option ℕ
unfolding memchr_loop
memchr m block ch size = do assert (has_block block size); memchr_loop size m block (ch % 256)

unfoldable pub memset_loop : (size : ℕ) → Memory → (dst value : ℕ) → Option Memory
memset_loop zero m dst value = some m
memset_loop (suc n) m dst value =
    store m dst (value % 256) >>= λ m'. memset_loop n m' (dst + 1) value

unfoldable pub memset : Memory → (dst value size : ℕ) → Option (ℕ × Memory)
unfolding memset_loop
memset m dst value size = do
  assert (has_block dst size)
  m' ← memset_loop size m dst value
  some (dst, m')

unfoldable pub strcmp_loop : ℕ → Memory → (a b : ℕ) → Option ℤ
strcmp_loop zero m a b = none
strcmp_loop (suc n) m a b =
    let rest = strcmp_loop n m (a + 1) (b + 1) in
    load m a >>= λ x. load m b >>= λ y.
    if not (x == 0) && x == y
    then rest
    else some (if ltb x y then negsuc 0 else if ltb y x then pos 1 else pos 0)

unfoldable pub strcmp : Memory → (a b : ℕ) → Option ℤ
unfolding strcmp_loop
strcmp m a b = do assert (not (a == 0)); assert (not (b == 0)); strcmp_loop (length m) m a b

unfoldable pub strchr_loop : ℕ → Memory → (string c : ℕ) → Option ℕ
strchr_loop zero m string c = none
strchr_loop (suc n) m string c =
    let rest = strchr_loop n m (string + 1) c in
    load m string >>= λ x. if x == c then some string else if x == 0 then some 0 else rest

unfoldable pub strchr : Memory → (string c : ℕ) → Option ℕ
unfolding strchr_loop
strchr m string c = do assert (not (string == 0)); strchr_loop (length m) m string (c % 256)

unfoldable pub strlen_loop : ℕ → Memory → (string p : ℕ) → Option ℕ
strlen_loop zero m string p = none
strlen_loop (suc n) m string p =
    let rest = strlen_loop n m string (p + 1) in
    load m p >>= λ x. if x == 0 then some (p - string) else rest

unfoldable pub strlen : Memory → (string : ℕ) → Option ℕ
unfolding strlen_loop
strlen m string = do assert (not (string == 0)); strlen_loop (length m) m string string

unfoldable pub strlcpy : Memory → (dst src size : ℕ) → Option (ℕ × Memory)
strlcpy m dst src size = do
  assert (not (dst == 0))
  assert (not (src == 0))
  src_len ← strlen m src
  let dst_len : ℕ = if ltb src_len (size - 1) then src_len else size - 1
  if ltb 0 size
      then (memcpy m dst src dst_len >>= λ r.
          store (r.1) (dst + dst_len) 0 >>= λ m'. some (src_len, m'))
      else some (src_len, m)

unfoldable pub strlcat : Memory → (dst src size : ℕ) → Option (ℕ × Memory)
strlcat m dst src size = do
  assert (not (dst == 0))
  assert (not (src == 0))
  src_len ← strlen m src
  dst_len ← strlen m dst
  let copy_cnt : ℕ = if ltb src_len (size - dst_len - 1) then src_len else size - dst_len - 1
  if ltb 0 size && ltb dst_len size
      then (memcpy m (dst + dst_len) src copy_cnt >>= λ r.
          store (r.1) (dst + dst_len + copy_cnt) 0 >>= λ m'. some (src_len + dst_len, m'))
      else some (src_len + dst_len, m)
