-- ===== src/Strings/Search.antt =====
-- lib/string.c: the calls that search a string for the characters of another, `strstr`, and the
-- tokenizer `strtok_r`.
use modeling_unix.Base.{
  ℕ, zero, suc, ◌+◌, ◌-◌, ◌%◌, Bool, true, false, not, Option, none, some, leb, ◌==◌, if◌then◌else◌,
  length, ◌>>=◌, ◌>>◌, assert,
}
use modeling_unix.Base.Int.{pos, eqb_ℤ}
use modeling_unix.Strings.{Memory, load, store, strchr, strlen, memcmp}

-- `length` in the sources is `len` here.
unfoldable pub strcspn_loop : ℕ → Memory → (string stop len : ℕ) → Option ℕ
strcspn_loop zero m string stop len = none
strcspn_loop (suc n) m string stop len =
    let rest = strcspn_loop n m string stop (len + 1) in
    load m (string + len) >>= λ x.
    if x == 0 then some len else (strchr m stop x >>= λ r. if not (r == 0) then some len else rest)

unfoldable pub strcspn : Memory → (string stop : ℕ) → Option ℕ
unfolding strcspn_loop
strcspn m string stop = strcspn_loop (length m) m string stop 0

unfoldable pub strspn_loop : ℕ → Memory → (string skip len : ℕ) → Option ℕ
strspn_loop zero m string skip len = none
strspn_loop (suc n) m string skip len =
    let rest = strspn_loop n m string skip (len + 1) in
    load m (string + len) >>= λ x.
    if x == 0 then some len else (strchr m skip x >>= λ r. if r == 0 then some len else rest)

unfoldable pub strspn : Memory → (string skip : ℕ) → Option ℕ
unfolding strspn_loop
strspn m string skip = strspn_loop (length m) m string skip 0

unfoldable pub strpbrk_loop : ℕ → Memory → (string stop : ℕ) → Option ℕ
strpbrk_loop zero m string stop = none
strpbrk_loop (suc n) m string stop =
    let rest = strpbrk_loop n m (string + 1) stop in
    load m string >>= λ x.
    if x == 0 then some 0 else (strchr m stop x >>= λ r. if not (r == 0) then some string else rest)

unfoldable pub strpbrk : Memory → (string stop : ℕ) → Option ℕ
unfolding strpbrk_loop
strpbrk m string stop = strpbrk_loop (length m) m string stop

unfoldable pub strrchr_loop : ℕ → Memory → (string c p : ℕ) → Option ℕ
strrchr_loop zero m string c p = none
strrchr_loop (suc n) m string c p = load m string >>= λ x.
    let rest = strrchr_loop n m (string + 1) c (if x == c then string else p) in
    if x == 0 then some p else rest

unfoldable pub strrchr : Memory → (string c : ℕ) → Option ℕ
unfolding strrchr_loop
strrchr m string c = strrchr_loop (length m) m string (c % 256) 0

-- `for (i = 0; i <= haystack_len - needle_len; i++)`, with one round more than the difference
unfoldable pub strstr_loop : ℕ → Memory → (haystack needle needle_len i : ℕ) → Option ℕ
strstr_loop zero m haystack needle needle_len i = some 0
strstr_loop (suc n) m haystack needle needle_len i =
    let rest = strstr_loop n m haystack needle needle_len (i + 1) in
    memcmp m (haystack + i) needle needle_len >>= λ r.
    if eqb_ℤ r (pos 0) then some (haystack + i) else rest

unfoldable pub strstr : Memory → (haystack needle : ℕ) → Option ℕ
unfolding strstr_loop
strstr m haystack needle = do
  haystack_len ← strlen m haystack
  needle_len ← strlen m needle
  if leb needle_len haystack_len
      then strstr_loop (haystack_len - needle_len + 1) m haystack needle needle_len 0
      else some 0

-- It reads the character at `maxlen` before it looks at `maxlen`; `left` is `maxlen - len`.
unfoldable pub strnlen_loop : (left : ℕ) → Memory → (string len : ℕ) → Option ℕ
strnlen_loop zero m string len = load m (string + len) >>= λ x. some len
strnlen_loop (suc n) m string len =
    let rest = strnlen_loop n m string (len + 1) in
    load m (string + len) >>= λ x. if x == 0 then some len else rest

unfoldable pub strnlen : Memory → (string maxlen : ℕ) → Option ℕ
unfolding strnlen_loop
strnlen m string maxlen = strnlen_loop maxlen m string 0

-- The first loop of `strtok_r`: where the token starts, or the end of the string and `false`.
unfoldable pub skip_delimiters : ℕ → Memory → (s delimiters : ℕ) → Option (ℕ × Bool)
skip_delimiters zero m s delimiters = none
skip_delimiters (suc n) m s delimiters =
    let rest = skip_delimiters n m (s + 1) delimiters in
    load m s >>= λ x. strchr m delimiters x >>= λ r.
    if not (r == 0) then (if x == 0 then some (s, false) else rest) else some (s, true)

-- the second loop of `strtok_r`: where the token ends
unfoldable pub skip_token : ℕ → Memory → (s delimiters : ℕ) → Option ℕ
skip_token zero m s delimiters = none
skip_token (suc n) m s delimiters =
    let rest = skip_token n m (s + 1) delimiters in
    load m s >>= λ x. strchr m delimiters x >>= λ r. if r == 0 then rest else some s

-- the end of `strtok_r`, from the token on
unfoldable pub end_token : Memory → (token delimiters : ℕ) → Option (ℕ × ℕ × Memory)
unfolding skip_token
end_token m token delimiters = do
  s ← skip_token (length m) m token delimiters
  x ← load m s
  if not (x == 0) then (store m s 0 >>= λ m'. some (token, s + 1, m')) else some (token, s, m)

-- the token, the new `*save_ptr` and the new memory
unfoldable pub strtok_r : Memory → (s delimiters saved : ℕ) → Option (ℕ × ℕ × Memory)
unfolding skip_delimiters end_token
strtok_r m s delimiters saved = do
  assert (not (delimiters == 0))
  let start : ℕ = if s == 0 then saved else s
  assert (not (start == 0))
  found ← skip_delimiters (length m) m start delimiters
  if found.1 then end_token m (found.0) delimiters else some (0, found.0, m)
