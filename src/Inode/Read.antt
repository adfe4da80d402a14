-- ===== src/Inode/Read.antt =====
-- `byte_to_sector` of filesys/inode.c on a read: it finds a place's sector and changes nothing.
use modeling_unix.Base.{
  ℕ, ◌+◌, ◌-◌, ◌/◌, ◌%◌, ◌≤◌, ◌<◌, ◌≡◌, ◌≢◌, inl, inr, refl, sym, ap, ◌∙◌, true, false, Option,
  some, ltb, if◌then◌else◌, arith, Bool-cases, ◌>>=◌,
}
use modeling_unix.Bitmap.{Bitmap}
use modeling_unix.Inode.{
  Volume, no_sector, is_sector, lookup_entry, follow, lookup_direct_table, lookup_indirect_table,
  lookup_double_indirect_table, byte_to_sector,
}
use modeling_unix.Inode.Slots.{places, owner, word, slot, slot_zero, slot-owner, IsIndex}
use modeling_unix.Inode.Install.{eq-cases, entry-none}
use modeling_unix.Inode.Lookup.{lookup_entry-read, follow-read, real-is_sector}
use modeling_unix.Inode.Sector.{max_sectors, file_sector}

-- the sector of the byte at `p`, or `no_sector` for a hole and past the largest file
abbrev pub sector_at : Volume → (inode p : ℕ) → ℕ
sector_at v i p = if ltb (p / 512) max_sectors then file_sector v i (p / 512) else no_sector

module _ (v : Volume) (i : ℕ) (inode_real : i ≢ no_sector)
    (is_real : (r : ℕ)
      → r < places
      → slot v.disk i r ≢ no_sector
      → is_sector (slot v.disk i r) ≡ true) where
  read_entry :
      (r t w : ℕ)
      → 131 ≤ r
      → r < places
      → t ≡ slot v.disk i (owner r)
      → w ≡ word r
      → t ≢ no_sector
      → lookup_entry v t w false ≡ some (slot v.disk i r, v)
  read_entry r t w data_place h et ew real =
      rw (et, ew) (lookup_entry-read v i r (omega arith) h (λ z. real (et ∙ z)))

  read_pointer :
      (r t w : ℕ)
      → 0 < r
      → r < places
      → t ≡ slot v.disk i (owner r)
      → w ≡ word r
      → t ≢ no_sector
      → follow v t w false ≡ some (slot v.disk i r, v)
  read_pointer r t w pos h et ew real =
      rw (et, ew) (follow-read v i r pos h (λ z. real (et ∙ z)) (is_real r h))

  -- a place in a table that is not there
  absent :
      (r : ℕ)
      → 0 < r
      → r < places
      → slot v.disk i (owner r) ≡ no_sector
      → slot v.disk i r ≡ no_sector
  absent r pos h e =
      slot-owner v.disk i r pos h ∙ entry-none v.disk (slot v.disk i (owner r)) (word r) e

  -- A lookup goes on with the table at the place `q`, or ends there.
  through :
      (q r : ℕ) (next : Option (ℕ × Volume))
      → q < places
      → (slot v.disk i q ≡ no_sector → slot v.disk i r ≡ no_sector)
      → (slot v.disk i q ≢ no_sector → next ≡ some (slot v.disk i r, v))
      → (if is_sector (slot v.disk i q) then next else some (slot v.disk i q, v))
        ≡ some (slot v.disk i r, v)
  through q r next hq gone found = elim (eq-cases (slot v.disk i q) no_sector) [
    | inl (e, _) ↦
        let missing : is_sector (slot v.disk i q) ≡ false = ground arith in
        rw missing (ap (λ s. some (s, v)) (e ∙ sym (gone e)))
    | inr (e, _) ↦
        let there : is_sector (slot v.disk i q) ≡ true = is_real q hq e in rw there (found e)
  ]

  read_direct : (m : ℕ) → m < 123 → lookup_direct_table v i m false ≡ some (file_sector v i m, v)
  unfolding lookup_direct_table
  read_direct m h =
      let o : owner (131 + m) ≡ 0 = ground arith in
      read_entry (131 + m) i (3 + m) (omega arith) (omega arith)
        (sym (ap (slot v.disk i) o ∙ slot_zero v.disk i)) (ground arith) inode_real

  read_indirect :
      (m : ℕ) → 123 ≤ m → m < 251 → lookup_indirect_table v i m false ≡ some (file_sector v i m, v)
  unfolding lookup_indirect_table
  read_indirect m lo hi =
      let o : owner (131 + m) ≡ 1 = ground arith in
      rw
        (read_pointer 1 i 126 (omega arith) (omega arith) (sym (slot_zero v.disk i)) refl
          inode_real)
        (through 1 (131 + m) (lookup_entry v (slot v.disk i 1) (m - 123) false) (omega arith)
          (λ e. absent (131 + m) (omega arith) (omega arith) (ap (slot v.disk i) o ∙ e))
          (λ real.
            read_entry (131 + m) (slot v.disk i 1) (m - 123) (omega arith) (omega arith)
              (sym (ap (slot v.disk i) o)) (ground arith) real))

  read_double :
      (m : ℕ)
      → 251 ≤ m
      → m < max_sectors
      → lookup_double_indirect_table v i m false ≡ some (file_sector v i m, v)
  unfolding lookup_double_indirect_table
  read_double m lo hi =
      let q = 3 + (m - 251) / 128 in
      let o : owner q ≡ 2 = ground arith in
      let o' : owner (131 + m) ≡ q = ground arith in
      let no_table : slot v.disk i 2 ≡ no_sector → slot v.disk i q ≡ no_sector =
        λ e. absent q (omega arith) (omega arith) (ap (slot v.disk i) o ∙ e) in
      let no_data : slot v.disk i q ≡ no_sector → slot v.disk i (131 + m) ≡ no_sector =
        λ e. absent (131 + m) (omega arith) (omega arith) (ap (slot v.disk i) o' ∙ e) in
      let table : slot v.disk i 2 ≢ no_sector
          → follow v (slot v.disk i 2) ((m - 123 - 128) / 128) false ≡ some (slot v.disk i q, v) =
        λ real.
          read_pointer q (slot v.disk i 2) ((m - 123 - 128) / 128) (omega arith) (omega arith)
            (sym (ap (slot v.disk i) o)) (ground arith) real in
      let data_entry : slot v.disk i q ≢ no_sector
          → lookup_entry v (slot v.disk i q) ((m - 123 - 128) % 128) false
            ≡ some (slot v.disk i (131 + m), v) =
        λ real.
          read_entry (131 + m) (slot v.disk i q) ((m - 123 - 128) % 128) (omega arith) (omega arith)
            (sym (ap (slot v.disk i) o')) (ground arith) real in
      rw
        (read_pointer 2 i 127 (omega arith) (omega arith) (sym (slot_zero v.disk i)) refl
          inode_real)
        (through 2 (131 + m)
          (follow v (slot v.disk i 2) ((m - 123 - 128) / 128) false >>= λ (t, v').
            if is_sector t then lookup_entry v' t ((m - 123 - 128) % 128) false else some (t, v'))
          (omega arith) (λ e. no_data (no_table e))
          (λ real. rw (table real) (
            through q (131 + m) (lookup_entry v (slot v.disk i q) ((m - 123 - 128) % 128) false)
              (omega arith) no_data data_entry)))

  find : (p : ℕ) → byte_to_sector v i p false ≡ some (sector_at v i p, v)
  unfolding byte_to_sector
  find p = elim (Bool-cases (ltb (p / 512) 123)) [
    | inl small ↦
        let inside : ltb (p / 512) max_sectors ≡ true = ground arith in
        rw (small, inside) (read_direct (p / 512) (ground arith))
    | inr not_small ↦ rw not_small (elim (Bool-cases (ltb (p / 512) 251)) [
      | inl middle ↦
          let inside : ltb (p / 512) max_sectors ≡ true = ground arith in
          rw (middle, inside) (read_indirect (p / 512) (ground arith) (ground arith))
      | inr not_middle ↦ rw not_middle (elim (Bool-cases (ltb (p / 512) max_sectors)) [
        | inl inside ↦ rw inside (read_double (p / 512) (ground arith) (ground arith))
        | inr outside ↦ rw outside refl
      ])
    ])
  ]

-- A read looks at no bit of the free map.
pub read-any_map :
    (v : Volume) (i : ℕ) (b : Bitmap)
    → IsIndex v i
    → (p : ℕ)
    → byte_to_sector (record v { free_map = b }) i p false
      ≡ some (sector_at v i p, record v { free_map = b })
read-any_map v i b ok p =
    find (record v { free_map = b }) i ok.inode_real
      (λ r h real. real-is_sector v.free_map (slot v.disk i r) ok.valid (ok.on_device r h real)) p

-- A read finds the sector of the position and changes nothing; past the largest file it finds none.
pub byte_to_sector-sector_at :
    (v : Volume) (i : ℕ)
    → IsIndex v i
    → (p : ℕ) → byte_to_sector v i p false ≡ some (sector_at v i p, v)
byte_to_sector-sector_at v i ok p = read-any_map v i v.free_map ok p
