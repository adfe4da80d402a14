-- ===== src/Strings/Copy.antt =====
-- `strlcpy` and `strlcat` of lib/string.c: copies that always end in a null.
use modeling_unix.Base.{
  ℕ, ◌+◌, ◌-◌, ◌≤◌, ◌<◌, ◌≡◌, ◌⊎◌, refl, ◌∙◌, true, false, some, ltb, lt→ltb, ◌==◌, if◌then◌else◌,
  length, length-set, set, get_or-set_self, get_or-set_ne, arith,
}
use modeling_unix.Strings.{Memory, store, memcpy, strlcpy, strlcat}
use modeling_unix.Strings.Memory.{byte, store_in, IsString, strlen-IsString}
use modeling_unix.Strings.Move.{Copied, Inside, copy_up-Copied}

memcpy-Copied :
    (m : Memory) (dst src size : ℕ)
    → 0 < dst
    → 0 < src
    → Inside m dst src size
    → (dst ≤ src) ⊎ (src + size ≤ dst)
    → (m' : Memory) × (memcpy m dst src size ≡ some (dst, m')) × Copied m dst src size m'
unfolding memcpy
memcpy-Copied m dst src size hd hs h apart =
    let set_dst : (dst == 0) ≡ false = ground arith in
    let set_src : (src == 0) ≡ false = ground arith in
    let (m', ran, c) = copy_up-Copied size m dst src h apart in
    (m', rw (set_dst, set_src, ran) refl, c)

-- `k` characters of the string at `src` and a null now stand at `dst`, and no other byte changed.
pub record Ended (m : Memory) (dst src k : ℕ) (m' : Memory) : Type 0 where
  pub same_size : length m' ≡ length m
  pub copied : (i : ℕ) → i < k → byte m' (dst + i) ≡ byte m (src + i)
  pub null : byte m' (dst + k) ≡ 0
  pub kept : (j : ℕ) → (j < dst) ⊎ (dst + k < j) → byte m' j ≡ byte m j

copy-Ended :
    (m : Memory) (dst src k : ℕ)
    → 0 < dst
    → 0 < src
    → src + k ≤ length m
    → dst + k < length m
    → (dst + k ≤ src) ⊎ (src + k ≤ dst)
    → (m₁ m₂ : Memory) × (memcpy m dst src k ≡ some (dst, m₁))
      × (store m₁ (dst + k) 0 ≡ some m₂)
      × Ended m dst src k m₂
copy-Ended m dst src k hd hs hsrc hdst apart =
    let (m₁, ran, c) = memcpy-Copied m dst src k hd hs (omega arith, hsrc) (ground arith) in
    let len : length m₁ ≡ length m = c.same_size in
    (
      m₁,
      set m₁ (dst + k) 0,
      ran,
      store_in m₁ (dst + k) 0 (omega arith),
      record {
        same_size = length-set m₁ (dst + k) 0 ∙ len;
        copied = λ i h. get_or-set_ne m₁ (dst + k) (dst + i) 0 0 (omega arith) ∙ c.copied i h;
        null = get_or-set_self m₁ (dst + k) 0 0 (omega arith);
        kept = λ j h. get_or-set_ne m₁ (dst + k) j 0 0 (ground arith) ∙ c.kept j (ground arith);
      },
    )

-- how many characters `strlcpy` and `strlcat` copy where `room` bytes are left for them
abbrev pub fitting : (len room : ℕ) → ℕ
fitting len room = if ltb len room then len else room

-- `strlcpy` of a string of `n` characters into `size` bytes, at least one, that do not overlap it
-- returns `n`, and leaves there as many of the characters as fit, with a null behind them.
pub strlcpy-Ended :
    (m : Memory) (dst src size n : ℕ)
    → 0 < dst
    → 0 < src
    → 0 < size
    → IsString m src n
    → dst + size ≤ length m
    → (dst + size ≤ src) ⊎ (src + n < dst)
    → (m' : Memory) × (strlcpy m dst src size ≡ some (n, m'))
      × Ended m dst src (fitting n (size - 1)) m'
unfolding strlcpy
strlcpy-Ended m dst src size n hd hs hsize text room apart =
    let set_dst : (dst == 0) ≡ false = ground arith in
    let set_src : (src == 0) ≡ false = ground arith in
    let some_room : ltb 0 size ≡ true = lt→ltb 0 size hsize in
    let k = fitting n (size - 1) in
    let small : k ≤ n = ground arith in
    let fits : k < size = ground arith in
    let (m₁, m₂, ran, stored, ended) =
      copy-Ended m dst src k hd hs (omega (arith, text.ends)) (omega arith) (ground arith) in
    (m₂, rw (set_dst, set_src, strlen-IsString m src n hs text, some_room, ran, stored) refl, ended)

-- `strlcat` of a string of `n` characters behind one of `d` characters, in `size` bytes that hold
-- more than these `d` and do not overlap the first string, returns `d + n`, and leaves behind the
-- `d` characters as many of the others as fit, with a null behind them.
pub strlcat-Ended :
    (m : Memory) (dst src size d n : ℕ)
    → 0 < dst
    → 0 < src
    → d < size
    → IsString m src n
    → IsString m dst d
    → dst + size ≤ length m
    → (dst + size ≤ src) ⊎ (src + n < dst)
    → (m' : Memory) × (strlcat m dst src size ≡ some (n + d, m'))
      × Ended m (dst + d) src (fitting n (size - d - 1)) m'
unfolding strlcat
strlcat-Ended m dst src size d n hd hs hsize text front room apart =
    let set_dst : (dst == 0) ≡ false = ground arith in
    let set_src : (src == 0) ≡ false = ground arith in
    let some_room : ltb 0 size ≡ true = lt→ltb 0 size (omega arith) in
    let more : ltb d size ≡ true = lt→ltb d size hsize in
    let k = fitting n (size - d - 1) in
    let small : k ≤ n = ground arith in
    let fits : d + k < size = ground arith in
    let (m₁, m₂, ran, stored, ended) =
      copy-Ended m (dst + d) src k (omega arith) hs (omega (arith, text.ends)) (omega arith)
        (ground arith) in
    (
      m₂,
      rw
          (
            set_dst,
            set_src,
            strlen-IsString m src n hs text,
            strlen-IsString m dst d hd front,
            some_room,
            more,
            ran,
            stored,
          )
          refl,
      ended,
    )
