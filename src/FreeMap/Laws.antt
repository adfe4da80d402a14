-- ===== src/FreeMap/Laws.antt =====
-- What filesys/free-map.c promises of the sectors that it hands out.
use mathlib.Core.Path.{subst₂}
use modeling_unix.Base.{
  refl, sym, ℕ, ◌+◌, ◌-◌, ◌≤◌, ◌<◌, ◌≡◌, ◌∙◌, ◌⊎◌, inl, inr, Bool, true, false, Option, none, some,
  List, arith, ◌==◌,
}
use modeling_unix.Bitmap.{
  byte_cnt, Bitmap, bitmap_error, bitmap_scan_and_flip, bitmap_contains, bitmap_set_multiple,
}
use modeling_unix.Bitmap.View.{IsValid, bit}
use modeling_unix.Bitmap.Range.{
  Contains, Filled, bitmap_contains_lem, set_multiple-Filled, bitmap_all_lem,
}
use modeling_unix.Bitmap.Scan.{Run, NoRun, Flipped, scan_and_flip-Flipped}
use modeling_unix.FreeMap.{bitmap_write, free_map_allocate, free_map_release}

-- the outcome of a request for `cnt` sectors of the map `m`
abbrev pub Allocated : Bitmap → (cnt : ℕ) → Option ℕ → Bitmap → Type 0
Allocated m cnt (some s) m' =
    (s + cnt ≤ m.bit_cnt)
    × Run (bit m) s cnt false
    × NoRun (bit m) 0 s cnt false
    × Filled m s cnt true m'
Allocated m cnt none m' = NoRun (bit m) 0 (m.bit_cnt + 1 - cnt) cnt false × (m' ≡ m)

-- On a well-formed map `free_map_allocate` never panics. With an answer, the sectors are the first
-- ones in a row that were free; they are now in use, and no other sector changed. Without one, the
-- map has no such row, and is as before.
pub allocate-Allocated :
    (m : Bitmap) (cnt : ℕ)
    → IsValid m
    → (r : Option ℕ) × (m' : Bitmap) × (free_map_allocate m cnt ≡ some (r, m'))
      × Allocated m cnt r m'
unfolding free_map_allocate
allocate-Allocated m cnt ok = pick (scan_and_flip-Flipped m 0 cnt false ok (omega arith))
  where
    pick :
        (idx : ℕ) × (m' : Bitmap) × (bitmap_scan_and_flip m 0 cnt false ≡ some (idx, m'))
          × Flipped m 0 cnt false idx m'
        → (r : Option ℕ) × (m' : Bitmap) × (free_map_allocate m cnt ≡ some (r, m'))
          × Allocated m cnt r m'
    pick (idx, m', ran, inl (real, lo, room, run, least, filled)) =
        let test : (idx == bitmap_error) ≡ false = ground arith in
        (some idx, m', rw (ran, test), (room, run, least, filled))
    pick (idx, m', ran, inr (err, nothing, e)) =
        let test : (idx == bitmap_error) ≡ true = ground arith in
        (none, m', rw (ran, test), (nothing, e))

-- The same, for an answer that is at hand.
allocated :
    (m m' : Bitmap) (cnt : ℕ) (r : Option ℕ)
    → IsValid m
    → free_map_allocate m cnt ≡ some (r, m')
    → Allocated m cnt r m'
allocated m m' cnt r ok h =
    let (r', n, ran, done) = allocate-Allocated m cnt ok in
    let e : some (r', n) ≡ some (r, m') = sym ran ∙ h in
    let e₁ : r' ≡ r = cc in let e₂ : n ≡ m' = cc in subst₂ (Allocated m cnt) e₁ e₂ done

-- Two requests, one after the other, never get a sector in common.
pub allocate_disjoint :
    (m m₁ m₂ : Bitmap) (c₁ c₂ s₁ s₂ : ℕ)
    → IsValid m
    → 0 < c₁
    → 0 < c₂
    → free_map_allocate m c₁ ≡ some (some s₁, m₁)
    → free_map_allocate m₁ c₂ ≡ some (some s₂, m₂)
    → (s₁ + c₁ ≤ s₂) ⊎ (s₂ + c₂ ≤ s₁)
allocate_disjoint m m₁ m₂ c₁ c₂ s₁ s₂ ok p₁ p₂ h₁ h₂ =
    let (room, run, least, filled) = allocated m m₁ c₁ (some s₁) ok h₁ in
    let (room', run', least', filled') = allocated m₁ m₂ c₂ (some s₂) filled.valid h₂ in
    ground (arith, filled.bits s₁, filled.bits s₂, run' s₁, run' s₂)

module _ {File : Type 0} (write_at : File → List ℕ → ℕ → Option (ℕ × File))
    (returns : (file : File) (words : List ℕ) (size : ℕ)
      → (r : ℕ × File) × (write_at file words size ≡ some r)) where
  -- Where the write of the map's file returns: releasing sectors that are all in use passes the ASSERT,
  -- frees exactly them, and writes the new map to its file.
  pub release-Filled :
      (m : Bitmap) (file : File) (s cnt : ℕ)
      → IsValid m
      → s + cnt ≤ m.bit_cnt
      → Run (bit m) s cnt true
      → (m' : Bitmap) × (file' : File) × (done : Bool) × (free_map_release write_at m file s cnt
          ≡ some (m', file'))
        × (bitmap_write write_at m' file ≡ some (done, file'))
        × Filled m s cnt false m'
  unfolding free_map_release bitmap_write
  release-Filled m file s cnt ok h used =
      let (m', ran, filled) = set_multiple-Filled m s cnt false ok h in
      let (r, wrote) = returns file m'.bits (byte_cnt m'.bit_cnt) in
      let done : Bool = r.0 == byte_cnt m'.bit_cnt in
      let put : bitmap_write write_at m' file ≡ some (done, r.1) = rw wrote refl in
      (
        m',
        r.1,
        done,
        pick (bitmap_contains_lem m s cnt false ok h) m' r.1 done ran put,
        put,
        filled,
      )
    where
      pick :
          (r : Bool) × (bitmap_contains m s cnt false ≡ some r) × Contains (bit m) s cnt false r
          → (m' : Bitmap) (file' : File) (done : Bool) → bitmap_set_multiple m s cnt false ≡ some m'
          → bitmap_write write_at m' file ≡ some (done, file')
          → free_map_release write_at m file s cnt ≡ some (m', file')
      pick (true, found, (j, lo, hi, clear)) m' file' done ran put = absurd (ground (arith, used j))
      pick (false, found, all) m' file' done ran put = rw (bitmap_all_lem, found, ran, put) refl

  -- Releasing a range with a sector that is free already stops the kernel.
  pub release_twice :
      (m : Bitmap) (file : File) (s cnt j : ℕ)
      → IsValid m
      → s + cnt ≤ m.bit_cnt
      → s ≤ j
      → j < s + cnt
      → bit m j ≡ false
      → free_map_release write_at m file s cnt ≡ none
  unfolding free_map_release
  release_twice m file s cnt j ok h lo hi clear = pick (bitmap_contains_lem m s cnt false ok h)
    where
      pick :
          (r : Bool) × (bitmap_contains m s cnt false ≡ some r) × Contains (bit m) s cnt false r
          → free_map_release write_at m file s cnt ≡ none
      pick (true, found, _) = rw (bitmap_all_lem, found)
      pick (false, found, all) = absurd (ground (arith, all j lo hi))

  -- Where the write of the map's file returns: what is allocated can be released, the map that is
  -- written to the file is the new one, and each sector is in use or free as it was before.
  pub release-allocate :
      (m m₁ : Bitmap) (file : File) (cnt s : ℕ)
      → IsValid m
      → free_map_allocate m cnt ≡ some (some s, m₁)
      → (m₂ : Bitmap) × (file' : File) × (done : Bool) × (free_map_release write_at m₁ file s cnt
          ≡ some (m₂, file'))
        × (bitmap_write write_at m₂ file ≡ some (done, file'))
        × IsValid m₂
        × (m₂.bit_cnt ≡ m.bit_cnt)
        × ((j : ℕ) → bit m₂ j ≡ bit m j)
  release-allocate m m₁ file cnt s ok h =
      let (room, run, least, filled) = allocated m m₁ cnt (some s) ok h in
      let (m₂, file', done, ran, put, back) =
        release-Filled m₁ file s cnt filled.valid (omega (arith, filled.cnt))
          (λ j lo hi. ground (arith, filled.bits j)) in
      (
        m₂,
        file',
        done,
        ran,
        put,
        back.valid,
        back.cnt ∙ filled.cnt,
        λ j. ground (arith, back.bits j, filled.bits j, run j),
      )
