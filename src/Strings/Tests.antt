-- ===== src/Strings/Tests.antt =====
-- Runs of lib/string.c, and its theorems at small memories.
use modeling_unix.Base.{
  ℕ, zero, suc, ◌+◌, ◌<◌, ◌≡◌, ◌≢◌, refl, inr, none, some, [], ◌∷◌, ltb, if◌then◌else◌, arith,
}
use modeling_unix.Strings.{
  Memory, copy_down, memmove, memcmp, memcmp_loop, strlen, strlen_loop, strlcpy, strchr,
  strchr_loop,
}
use modeling_unix.Strings.Search.{
  strtok_r, skip_delimiters, skip_token, end_token, strstr, strstr_loop, strnlen, strnlen_loop,
  strrchr, strrchr_loop,
}
use modeling_unix.Strings.Memory.{IsString, byte}
use modeling_unix.Strings.Move.{Copied, memmove-Copied}
use modeling_unix.Strings.Copy.{Ended, fitting, strlcpy-Ended}

-- "hi" at 1, "x" at 4, and two more bytes
abbrev memory : Memory
memory = 9 ∷ 104 ∷ 105 ∷ 0 ∷ 120 ∷ 0 ∷ 7 ∷ 7 ∷ []

moves_down : memmove memory 2 1 3 ≡ some (2, 9 ∷ 104 ∷ 104 ∷ 105 ∷ 0 ∷ 0 ∷ 7 ∷ 7 ∷ [])
unfolding memmove copy_down
moves_down = refl

-- " a b" at 1, " " at 7
abbrev sentence : Memory
sentence = 9 ∷ 32 ∷ 97 ∷ 32 ∷ 98 ∷ 0 ∷ 9 ∷ 32 ∷ 0 ∷ []

first_token : strtok_r sentence 1 7 0 ≡ some (2, 4, 9 ∷ 32 ∷ 97 ∷ 0 ∷ 98 ∷ 0 ∷ 9 ∷ 32 ∷ 0 ∷ [])
unfolding strtok_r skip_delimiters end_token skip_token strchr strchr_loop
first_token = refl

last_token : strtok_r sentence 0 7 4 ≡ some (4, 5, sentence)
unfolding strtok_r skip_delimiters end_token skip_token strchr strchr_loop
last_token = refl

no_token : strtok_r sentence 0 7 5 ≡ some (0, 5, sentence)
unfolding strtok_r skip_delimiters end_token skip_token strchr strchr_loop
no_token = refl

finds : strstr sentence 2 4 ≡ some 4
unfolding strstr strstr_loop memcmp memcmp_loop strlen strlen_loop
finds = refl

-- four bytes without a null: the byte behind them is read
reads_on : strnlen (9 ∷ 1 ∷ 2 ∷ 3 ∷ 4 ∷ []) 1 4 ≡ none
unfolding strnlen strnlen_loop
reads_on = refl

-- the terminating null is not found
no_null : strrchr sentence 2 0 ≡ some 0
unfolding strrchr strrchr_loop
no_null = refl

hi-IsString : IsString memory 1 2
hi-IsString = record { ends = omega arith; nonzero = letters; terminated = refl }
  where
    letters : (i : ℕ) → i < 2 → byte memory (1 + i) ≢ 0
    letters zero h = omega arith
    letters (suc zero) h = omega arith
    letters (suc (suc i)) h = absurd (omega arith)

x-IsString : IsString memory 4 1
x-IsString = record { ends = omega arith; nonzero = letters; terminated = refl }
  where
    letters : (i : ℕ) → i < 1 → byte memory (4 + i) ≢ 0
    letters zero h = omega arith
    letters (suc i) h = absurd (omega arith)

memmove-Copied_example :
    (m' : Memory) × (memmove memory 2 1 3 ≡ some (if ltb 2 1 then 2 + 3 else 2, m'))
    × Copied memory 2 1 3 m'
memmove-Copied_example =
    memmove-Copied memory 2 1 3 (omega arith) (omega arith) (omega arith, omega arith)

strlcpy-Ended_example :
    (m' : Memory) × (strlcpy memory 4 1 2 ≡ some (2, m')) × Ended memory 4 1 (fitting 2 1) m'
strlcpy-Ended_example =
    strlcpy-Ended memory 4 1 2 2 (omega arith) (omega arith) (omega arith) hi-IsString (omega arith)
      (inr (omega arith))
