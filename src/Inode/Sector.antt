-- ===== src/Inode/Sector.antt =====
-- `byte_to_sector` of filesys/inode.c: which sector has a byte of the file, on reads and writes.
use modeling_unix.Base.{
  ℕ, ◌+◌, ◌-◌, ◌/◌, ◌%◌, ◌≤◌, ◌<◌, ◌≡◌, ◌≢◌, ◌⊎◌, inl, inr, refl, sym, ap, ◌∙◌, true, Option, some,
  ltb, lt→ltb, if◌then◌else◌, arith, Bool-cases, ◌>>=◌,
}
use mathlib.Core.Path.{subst}
use modeling_unix.Inode.{
  Volume, no_sector, no_space, is_sector, lookup_entry, follow, lookup_direct_table,
  lookup_indirect_table, lookup_double_indirect_table, byte_to_sector,
}
use modeling_unix.Inode.Slots.{places, owner, word, slot, slot_zero, IsIndex}
use modeling_unix.Inode.Grant.{Taken}
use modeling_unix.Inode.Kept.{Kept, Kept-refl, Kept-trans}
use modeling_unix.Inode.Lookup.{Placed, Looked, lookup_entry-Looked, follow-Looked, real-is_sector}

-- how many sectors a file can have
abbrev pub max_sectors : ℕ
max_sectors = 16635

-- the sector of the `m`-th 512 bytes of a file, or `no_sector` for a hole
abbrev pub file_sector : Volume → (inode m : ℕ) → ℕ
file_sector v i m = slot v.disk i (131 + m)

-- The file's `m`-th 512 bytes are in the sector `s`, and the others are where they were; a sector
-- that was there is kept.
pub record Located (v : Volume) (i m s : ℕ) (v' : Volume) : Type 0 where
  pub index : IsIndex v' i
  pub here : file_sector v' i m ≡ s
  pub others : (k : ℕ) → k < max_sectors → k ≢ m → file_sector v' i k ≡ file_sector v i k
  pub real : s < v'.free_map.bit_cnt
  pub old : file_sector v i m ≢ no_sector → s ≡ file_sector v i m
  pub kept : Kept v i v'

-- No sector was left for the file's data: all the file's bytes are where they were.
pub record Full (v : Volume) (i : ℕ) (v' : Volume) : Type 0 where
  pub index : IsIndex v' i
  pub others : (k : ℕ) → k < max_sectors → file_sector v' i k ≡ file_sector v i k
  pub taken : Taken v'.free_map
  pub kept : Kept v i v'

abbrev pub Outcome : Volume → (inode m : ℕ) → Option (ℕ × Volume) → Type 0
Outcome v i m out =
    ((v' : Volume) × (out ≡ some (no_space, v')) × Full v i v')
    ⊎ ((s : ℕ) × (v' : Volume) × (out ≡ some (s, v')) × Located v i m s v')

-- the data's sectors by their places
moved :
    (v v₁ : Volume) (i : ℕ)
    → ((k : ℕ) → k < max_sectors → file_sector v₁ i k ≡ file_sector v i k)
    → (q : ℕ) → 131 ≤ q
    → q < places
    → slot v₁.disk i q ≡ slot v.disk i q
moved v v₁ i same q lo hi =
    let e : 131 + (q - 131) ≡ q = omega arith in
    subst (λ r. slot v₁.disk i r ≡ slot v.disk i r) e (same (q - 131) (omega arith))

finish :
    (v v₁ : Volume) (i m : ℕ) (out : Option (ℕ × Volume))
    → m < max_sectors
    → IsIndex v₁ i
    → ((k : ℕ) → k < max_sectors → file_sector v₁ i k ≡ file_sector v i k)
    → Kept v i v₁
    → Looked v₁ i (131 + m) out
    → Outcome v i m out
finish v v₁ i m out h ok same kept (inl (full, taken)) =
    inl (v₁, full, record { index = ok; others = same; taken = taken; kept = kept })
finish v v₁ i m out h ok same kept (inr (s, v', ran, p)) = inr (
  s,
  v',
  ran,
  record {
    index = p.index;
    here = p.here;
    others = λ k hk differs. p.others (131 + k) (omega arith) (omega arith) ∙ same k hk;
    real = p.real;
    old = λ z. p.old (λ e. z (sym (same m h) ∙ e)) ∙ same m h;
    kept = Kept-trans v v₁ v' i (moved v v₁ i same) kept p.kept;
  },
)

-- A table's place does not move the data.
Placed-same :
    (v v' : Volume) (i q s : ℕ)
    → q < 131
    → Placed v i q s v'
    → (k : ℕ) → k < max_sectors
    → file_sector v' i k ≡ file_sector v i k
Placed-same v v' i q s h p k hk = p.others (131 + k) (omega arith) (omega arith)

-- a lookup in the table `t` at the word `w`, which are those of the place `r`
look :
    (v : Volume) (i r t w : ℕ)
    → IsIndex v i
    → 131 ≤ r
    → r < places
    → t ≡ slot v.disk i (owner r)
    → w ≡ word r
    → t ≢ no_sector
    → Looked v i r (lookup_entry v t w true)
look v i r t w ok data_place h et ew real =
    rw (et, ew) (lookup_entry-Looked v i r ok (omega arith) h (λ z. real (et ∙ z)) data_place)

-- the same for a pointer to a table
chase :
    (v : Volume) (i r t w : ℕ)
    → IsIndex v i
    → 0 < r
    → r < places
    → t ≡ slot v.disk i (owner r)
    → w ≡ word r
    → t ≢ no_sector
    → Looked v i r (follow v t w true)
chase v i r t w ok pos h et ew real =
    rw (et, ew) (follow-Looked v i r ok pos h (λ z. real (et ∙ z)))

module _ (v : Volume) (i : ℕ) (ok : IsIndex v i) where
  direct-Outcome : (m : ℕ) → m < 123 → Outcome v i m (lookup_direct_table v i m true)
  unfolding lookup_direct_table
  direct-Outcome m h =
      let o : owner (131 + m) ≡ 0 = ground arith in
      let w : 3 + m ≡ word (131 + m) = ground arith in
      finish v v i m (lookup_entry v i (3 + m) true) (omega arith) ok (λ k hk. refl) (Kept-refl v i)
        (look v i (131 + m) i (3 + m) ok (omega arith) (omega arith)
          (sym (ap (slot v.disk i) o ∙ slot_zero v.disk i)) w ok.inode_real)

  indirect-Outcome : (m : ℕ) → 123 ≤ m → m < 251 → Outcome v i m (lookup_indirect_table v i m true)
  unfolding lookup_indirect_table
  indirect-Outcome m lo hi =
      elim (chase v i 1 i 126 ok (omega arith) (omega arith) (sym (slot_zero v.disk i)) refl
        ok.inode_real) [
          | inl (full, taken) ↦ inl (
            v,
            rw full refl,
            record { index = ok; others = λ k hk. refl; taken = taken; kept = Kept-refl v i },
          )
          | inr (s, v₁, ran, p) ↦
              let table : is_sector s ≡ true = real-is_sector v₁.free_map s p.index.valid p.real in
              let o : owner (131 + m) ≡ 1 = ground arith in
              let w : m - 123 ≡ word (131 + m) = ground arith in
              rw (ran, table)
                (finish v v₁ i m (lookup_entry v₁ s (m - 123) true) (omega arith) p.index
                  (Placed-same v v₁ i 1 s (omega arith) p) p.kept
                  (look v₁ i (131 + m) s (m - 123) p.index (omega arith) (omega arith)
                    (sym (ap (slot v₁.disk i) o ∙ p.here)) w
                    (omega (arith, p.real, p.index.valid.small))))
        ]

  double-Outcome :
      (m : ℕ) → 251 ≤ m → m < max_sectors → Outcome v i m (lookup_double_indirect_table v i m true)
  unfolding lookup_double_indirect_table
  double-Outcome m lo hi =
      elim (chase v i 2 i 127 ok (omega arith) (omega arith) (sym (slot_zero v.disk i)) refl
        ok.inode_real) [
          | inl (full, taken) ↦ inl (
            v,
            rw full refl,
            record { index = ok; others = λ k hk. refl; taken = taken; kept = Kept-refl v i },
          )
          | inr (s, v₁, ran, p) ↦
              let table : is_sector s ≡ true = real-is_sector v₁.free_map s p.index.valid p.real in
              rw (ran, table)
                (inner m lo hi s v₁ p.index p.here p.real (Placed-same v v₁ i 2 s (omega arith) p)
                  p.kept)
        ]
    where
      inner :
          (m : ℕ)
          → 251 ≤ m
          → m < max_sectors
          → (s : ℕ) (v₁ : Volume) → IsIndex v₁ i
          → slot v₁.disk i 2 ≡ s
          → s < v₁.free_map.bit_cnt
          → ((k : ℕ) → k < max_sectors → file_sector v₁ i k ≡ file_sector v i k)
          → Kept v i v₁
          → Outcome v i m (
              follow v₁ s ((m - 123 - 128) / 128) true >>= λ (t, v₂).
              if is_sector t then lookup_entry v₂ t ((m - 123 - 128) % 128) true else some (t, v₂))
      inner m lo hi s v₁ ok₁ here real same kept =
          let q = 3 + (m - 251) / 128 in
          let o : owner q ≡ 2 = ground arith in
          let w : (m - 123 - 128) / 128 ≡ word q = ground arith in
          elim (chase v₁ i q s ((m - 123 - 128) / 128) ok₁ (omega arith) (omega arith)
            (sym (ap (slot v₁.disk i) o ∙ here)) w (omega (arith, ok₁.valid.small))) [
              | inl (full, taken) ↦ inl (
                v₁,
                rw full refl,
                record { index = ok₁; others = same; taken = taken; kept = kept },
              )
              | inr (t, v₂, ran, p) ↦
                  let table : is_sector t ≡ true =
                    real-is_sector v₂.free_map t p.index.valid p.real in
                  let o' : owner (131 + m) ≡ q = ground arith in
                  let w' : (m - 123 - 128) % 128 ≡ word (131 + m) = ground arith in
                  rw (ran, table)
                    (finish v v₂ i m (lookup_entry v₂ t ((m - 123 - 128) % 128) true) hi p.index
                      (λ k hk. Placed-same v₁ v₂ i q t (omega arith) p k hk ∙ same k hk)
                      (Kept-trans v v₁ v₂ i (moved v v₁ i same) kept p.kept)
                      (look v₂ i (131 + m) t ((m - 123 - 128) % 128) p.index (omega arith)
                        (omega arith) (sym (ap (slot v₂.disk i) o' ∙ p.here)) w'
                        (omega (arith, p.real, p.index.valid.small))))
            ]

  -- A write at a position of a well-formed file finds the sector that is there, or puts a sector
  -- that was not in use into the hole, and moves no other data; where the free map has no sector
  -- left it answers -2 and moves no data. The index stays well formed.
  pub byte_to_sector-Located :
      (p : ℕ) → p / 512 < max_sectors → Outcome v i (p / 512) (byte_to_sector v i p true)
  unfolding byte_to_sector
  byte_to_sector-Located p h = elim (Bool-cases (ltb (p / 512) 123)) [
    | inl small ↦ rw small (direct-Outcome (p / 512) (ground arith))
    | inr not_small ↦ rw not_small (elim (Bool-cases (ltb (p / 512) 251)) [
      | inl middle ↦ rw middle (indirect-Outcome (p / 512) (ground arith) (ground arith))
      | inr large ↦
          let inside : ltb (p / 512) max_sectors ≡ true = lt→ltb (p / 512) max_sectors h in
          rw (large, inside) (double-Outcome (p / 512) (ground arith) h)
    ])
  ]
