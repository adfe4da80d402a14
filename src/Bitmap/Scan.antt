-- ===== src/Bitmap/Scan.antt =====
-- `bitmap_scan` and `bitmap_scan_and_flip` of lib/kernel/bitmap.c: the first fit.
use modeling_unix.Base.{
  ℕ, zero, suc, ◌+◌, ◌-◌, ◌≤◌, ◌<◌, ◌≡◌, ◌≢◌, refl, ◌∙◌, ◌⊎◌, inl, inr, Bool, true, false, not,
  some, arith, leb, ◌==◌, Bool-cases, le→leb, leb→le, leb→gt,
}
use modeling_unix.Bitmap.{
  Bitmap, bitmap_error, scan_loop, bitmap_scan, bitmap_scan_and_flip, bitmap_contains,
}
use modeling_unix.Bitmap.View.{IsValid, bit}
use modeling_unix.Bitmap.Range.{Contains, Filled, bitmap_contains_lem, set_multiple-Filled}

-- each of the `cnt` bits from `k` has the value `v`
abbrev pub Run : (ℕ → Bool) → (k cnt : ℕ) → Bool → Type 0
Run f k cnt v = (j : ℕ) → k ≤ j → j < k + cnt → f j ≡ v

-- no run of `cnt` bits that starts at `lo` or later and below `hi`
abbrev pub NoRun : (ℕ → Bool) → (lo hi cnt : ℕ) → Bool → Type 0
NoRun f lo hi cnt v = (k : ℕ) → lo ≤ k → k < hi → ¬ Run f k cnt v

-- the outcome `idx` of a search for the first run among `total` bits, from `start` on
abbrev pub FirstRun : (ℕ → Bool) → (start cnt total : ℕ) → Bool → ℕ → Type 0
FirstRun f start cnt total v idx =
    ((idx ≢ bitmap_error)
      × (start ≤ idx)
      × (idx + cnt ≤ total)
      × Run f idx cnt v
      × NoRun f start idx cnt v)
    ⊎ ((idx ≡ bitmap_error) × NoRun f start (total + 1 - cnt) cnt v)

not-not : (v : Bool) → not (not v) ≡ v
not-not true = refl
not-not false = refl

not-ne : (v : Bool) → ¬ (not v ≡ v)
not-ne true e = cc
not-ne false e = cc

module _ (b : Bitmap) (cnt : ℕ) (v : Bool) (ok : IsValid b) (fits : cnt ≤ b.bit_cnt) where
  Run-of_missing : (i : ℕ) → Contains (bit b) i cnt (not v) false → Run (bit b) i cnt v
  Run-of_missing i all j lo hi = all j lo hi ∙ not-not v

  no_Run_of_found : (i : ℕ) → Contains (bit b) i cnt (not v) true → ¬ Run (bit b) i cnt v
  no_Run_of_found i (j, lo, hi, other) run = not-ne v (ground (arith, run j lo hi))

  NoRun-suc :
      (i hi : ℕ) → ¬ Run (bit b) i cnt v → NoRun (bit b) (suc i) hi cnt v → NoRun (bit b) i hi cnt v
  NoRun-suc i hi here later k lo up run = elim (Bool-cases (k == i)) [
    | inl e ↦ let q : k ≡ i = ground arith in here (λ j. rw (← q) (run j))
    | inr ne ↦ later k (ground arith) up run
  ]

  FirstRun-suc :
      (i idx : ℕ)
      → ¬ Run (bit b) i cnt v
      → FirstRun (bit b) (suc i) cnt b.bit_cnt v idx
      → FirstRun (bit b) i cnt b.bit_cnt v idx
  FirstRun-suc i idx here (inl (real, lo, room, run, least)) =
      inl (real, omega arith, room, run, NoRun-suc i idx here least)
  FirstRun-suc i idx here (inr (err, none_left)) =
      inr (err, NoRun-suc i (b.bit_cnt + 1 - cnt) here none_left)

  scan_loop-FirstRun :
      (n i : ℕ)
      → n ≡ b.bit_cnt - cnt + 1 - i
      → (idx : ℕ) × (scan_loop n b i cnt v ≡ some idx) × FirstRun (bit b) i cnt b.bit_cnt v idx
  unfolding scan_loop
  scan_loop-FirstRun zero i e =
      (bitmap_error, refl, inr (refl, λ k lo hi run. absurd (omega arith)))
  scan_loop-FirstRun (suc n) i e =
      pick (bitmap_contains_lem b i cnt (not v) ok (omega arith))
        (scan_loop-FirstRun n (i + 1) (omega arith))
    where
      pick :
          (r : Bool) × (bitmap_contains b i cnt (not v) ≡ some r) × Contains (bit b) i cnt (not v) r
          → (idx : ℕ) × (scan_loop n b (i + 1) cnt v ≡ some idx)
            × FirstRun (bit b) (i + 1) cnt b.bit_cnt v idx
          → (idx : ℕ) × (scan_loop (suc n) b i cnt v ≡ some idx)
            × FirstRun (bit b) i cnt b.bit_cnt v idx
      pick (true, ran, found) (idx, went, rest) = (
        idx,
        rw ran went,
        FirstRun-suc i idx (no_Run_of_found i found)
            (let s : i + 1 ≡ suc i = omega arith in rw s at rest),
      )
      pick (false, ran, found) (idx, went, rest) = (
        i,
        rw ran,
        inl (
          omega (arith, ok.small),
          omega arith,
          omega arith,
          Run-of_missing i found,
          λ k lo hi run. absurd (omega arith),
        ),
      )

-- `bitmap_scan` from a start inside the bitmap comes back with the first run of `cnt` bits of that
-- value at or after the start; BITMAP_ERROR comes back exactly when the bitmap has no such run.
pub scan-FirstRun :
    (b : Bitmap) (start cnt : ℕ) (v : Bool)
    → IsValid b
    → start ≤ b.bit_cnt
    → (idx : ℕ) × (bitmap_scan b start cnt v ≡ some idx)
      × FirstRun (bit b) start cnt b.bit_cnt v idx
unfolding bitmap_scan
scan-FirstRun b start cnt v ok h = elim (Bool-cases (leb cnt b.bit_cnt)) [
  | inl fits ↦
      let (idx, ran, first) =
        scan_loop-FirstRun b cnt v ok (leb→le _ _ fits) (b.bit_cnt - cnt + 1 - start) start refl in
      (idx, rw (le→leb _ _ h, fits) ran, first)
  | inr big ↦ (
    bitmap_error,
    rw (le→leb _ _ h, big),
    inr (refl, λ k lo hi run. absurd (omega (arith, leb→gt cnt b.bit_cnt big))),
  )
]

-- what `bitmap_scan_and_flip` leaves behind with the answer `idx`
abbrev pub Flipped : Bitmap → (start cnt : ℕ) → Bool → ℕ → Bitmap → Type 0
Flipped b start cnt v idx b' =
    ((idx ≢ bitmap_error)
      × (start ≤ idx)
      × (idx + cnt ≤ b.bit_cnt)
      × Run (bit b) idx cnt v
      × NoRun (bit b) start idx cnt v
      × Filled b idx cnt (not v) b')
    ⊎ ((idx ≡ bitmap_error) × NoRun (bit b) start (b.bit_cnt + 1 - cnt) cnt v × (b' ≡ b))

-- On a valid bitmap, from a `start` of at most its number of bits, `bitmap_scan_and_flip` turns over
-- exactly the first run of `cnt` bits of the value at or after `start`, and answers its index; without
-- such a run it answers BITMAP_ERROR and changes nothing. The empty run of `cnt` 0 is at `start`.
pub scan_and_flip-Flipped :
    (b : Bitmap) (start cnt : ℕ) (v : Bool)
    → IsValid b
    → start ≤ b.bit_cnt
    → (idx : ℕ) × (b' : Bitmap) × (bitmap_scan_and_flip b start cnt v ≡ some (idx, b'))
      × Flipped b start cnt v idx b'
unfolding bitmap_scan_and_flip
scan_and_flip-Flipped b start cnt v ok h = pick (scan-FirstRun b start cnt v ok h)
  where
    pick :
        (idx : ℕ) × (bitmap_scan b start cnt v ≡ some idx)
          × FirstRun (bit b) start cnt b.bit_cnt v idx
        → (idx : ℕ) × (b' : Bitmap) × (bitmap_scan_and_flip b start cnt v ≡ some (idx, b'))
          × Flipped b start cnt v idx b'
    pick (idx, ran, inl (real, lo, room, run, least)) =
        let (b', went, filled) = set_multiple-Filled b idx cnt (not v) ok room in
        let test : (idx == bitmap_error) ≡ false = ground arith in
        (idx, b', rw (ran, test, went), inl (real, lo, room, run, least, filled))
    pick (idx, ran, inr (err, nothing)) =
        let test : (idx == bitmap_error) ≡ true = ground arith in
        (idx, b, rw (ran, test), inr (err, nothing, refl))
