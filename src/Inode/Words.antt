-- ===== src/Inode/Words.antt =====
-- The bytes of a sector's words, for `memcpy` into a cached block in filesys/inode.c.
use modeling_unix.Base.{
  ℕ, zero, suc, ◌+◌, ◌-◌, ◌*◌, ◌/◌, ◌%◌, ◌^◌, ◌≤◌, ◌<◌, ◌≡◌, ◌≢◌, ◌⊎◌, inl, inr, refl, ap, ◌∙◌,
  true, false, ◌&&◌, List, [], ◌∷◌, length, get_or, ◌==◌, arith, Bool-cases,
}
use modeling_unix.Inode.{Disk, get_byte, put_byte, put_bytes}

-- the byte `k` of the word `w`, and the word with the byte `b` there
abbrev byte_of : (w k : ℕ) → ℕ
byte_of w k = w / 256 ^ k % 256

abbrev with_byte : (w k b : ℕ) → ℕ
with_byte w k b = w - byte_of w k * 256 ^ k + b % 256 * 256 ^ k

mod_4 : (n : ℕ) → (n % 4 ≡ 0) ⊎ ((n % 4 ≡ 1) ⊎ ((n % 4 ≡ 2) ⊎ (n % 4 ≡ 3)))
mod_4 n = ground arith

byte_of-with_byte :
    (w b : ℕ) (k : ℕ)
    → (k ≡ 0) ⊎ ((k ≡ 1) ⊎ ((k ≡ 2) ⊎ (k ≡ 3)))
    → byte_of (with_byte w k b) k ≡ b % 256
byte_of-with_byte w b k (inl e) = rw e (omega arith)
byte_of-with_byte w b k (inr (inl e)) = rw e (omega arith)
byte_of-with_byte w b k (inr (inr (inl e))) = rw e (omega arith)
byte_of-with_byte w b k (inr (inr (inr e))) = rw e (omega arith)

byte_of-with_other :
    (w b k j : ℕ)
    → (k ≡ 0) ⊎ ((k ≡ 1) ⊎ ((k ≡ 2) ⊎ (k ≡ 3)))
    → (j ≡ 0) ⊎ ((j ≡ 1) ⊎ ((j ≡ 2) ⊎ (j ≡ 3)))
    → k ≢ j
    → byte_of (with_byte w k b) j ≡ byte_of w j
byte_of-with_other w b k j (inl e) (inl f) h = absurd (omega arith)
byte_of-with_other w b k j (inl e) (inr (inl f)) h = rw (e, f) (omega arith)
byte_of-with_other w b k j (inl e) (inr (inr (inl f))) h = rw (e, f) (omega arith)
byte_of-with_other w b k j (inl e) (inr (inr (inr f))) h = rw (e, f) (omega arith)
byte_of-with_other w b k j (inr (inl e)) (inl f) h = rw (e, f) (omega arith)
byte_of-with_other w b k j (inr (inl e)) (inr (inl f)) h = absurd (omega arith)
byte_of-with_other w b k j (inr (inl e)) (inr (inr (inl f))) h = rw (e, f) (omega arith)
byte_of-with_other w b k j (inr (inl e)) (inr (inr (inr f))) h = rw (e, f) (omega arith)
byte_of-with_other w b k j (inr (inr (inl e))) (inl f) h = rw (e, f) (omega arith)
byte_of-with_other w b k j (inr (inr (inl e))) (inr (inl f)) h = rw (e, f) (omega arith)
byte_of-with_other w b k j (inr (inr (inl e))) (inr (inr (inl f))) h = absurd (omega arith)
byte_of-with_other w b k j (inr (inr (inl e))) (inr (inr (inr f))) h = rw (e, f) (omega arith)
byte_of-with_other w b k j (inr (inr (inr e))) (inl f) h = rw (e, f) (omega arith)
byte_of-with_other w b k j (inr (inr (inr e))) (inr (inl f)) h = rw (e, f) (omega arith)
byte_of-with_other w b k j (inr (inr (inr e))) (inr (inr (inl f))) h = rw (e, f) (omega arith)
byte_of-with_other w b k j (inr (inr (inr e))) (inr (inr (inr f))) h = absurd (omega arith)

put_byte_hit : (d : Disk) (s o b : ℕ) → get_byte (put_byte d s o b) s o ≡ b % 256
put_byte_hit d s o b =
    let same : (s == s && (o / 4) == (o / 4)) ≡ true = ground arith in
    rw same (byte_of-with_byte (d s (o / 4)) b (o % 4) (mod_4 o))

put_byte_other : (d : Disk) (s o b q : ℕ) → q ≢ o → get_byte (put_byte d s o b) s q ≡ get_byte d s q
put_byte_other d s o b q h = elim (Bool-cases ((q / 4) == (o / 4))) [
  | inl e ↦
      let same : (s == s && (q / 4) == (o / 4)) ≡ true = ground arith in
      let word : o / 4 ≡ q / 4 = ground arith in
      rw (same) (
        byte_of-with_other (d s (o / 4)) b (o % 4) (q % 4) (mod_4 o) (mod_4 q) (omega arith)
        ∙ ap (λ w. byte_of (d s w) (q % 4)) word)
  | inr e ↦ let other : (s == s && (q / 4) == (o / 4)) ≡ false = ground arith in rw other refl
]

put_byte_sector : (d : Disk) (s o b t w : ℕ) → t ≢ s → put_byte d s o b t w ≡ d t w
put_byte_sector d s o b t w h = ground arith

-- No other sector changes.
pub put_bytes_sector : (l : List ℕ) (d : Disk) (s o t w : ℕ) → t ≢ s → put_bytes l d s o t w ≡ d t w
unfolding put_bytes
put_bytes_sector [] d s o t w h = refl
put_bytes_sector (b ∷ l) d s o t w h =
    put_bytes_sector l (put_byte d s o b) s (o + 1) t w h ∙ put_byte_sector d s o b t w h

-- the bytes of the sector that are not written
pub put_bytes_outside :
    (l : List ℕ) (d : Disk) (s o q : ℕ)
    → (q < o) ⊎ (o + length l ≤ q)
    → get_byte (put_bytes l d s o) s q ≡ get_byte d s q
unfolding put_bytes
put_bytes_outside [] d s o q h = refl
put_bytes_outside (b ∷ l) d s o q h =
    put_bytes_outside l (put_byte d s o b) s (o + 1) q (ground arith)
    ∙ put_byte_other d s o b q (ground arith)

-- the bytes that are written
pub put_bytes_inside :
    (l : List ℕ) (d : Disk) (s o k : ℕ)
    → k < length l
    → get_byte (put_bytes l d s o) s (o + k) ≡ get_or l k 0 % 256
unfolding put_bytes
put_bytes_inside [] d s o k h = absurd (omega arith)
put_bytes_inside (b ∷ l) d s o zero h =
    let e : o + 0 ≡ o = omega arith in
    rw e (
      put_bytes_outside l (put_byte d s o b) s (o + 1) o (inl (omega arith)) ∙ put_byte_hit d s o b)
put_bytes_inside (b ∷ l) d s o (suc k) h =
    let e : o + suc k ≡ o + 1 + k = omega arith in
    rw e (put_bytes_inside l (put_byte d s o b) s (o + 1) k (omega arith))
