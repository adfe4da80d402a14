-- ===== src/Inode/Bytes.antt =====
-- `inode_read_at` of filesys/inode.c against the bytes of the file, one at a time.
use modeling_unix.Base.{
  ℕ, zero, suc, ◌+◌, ◌-◌, ◌/◌, ◌%◌, ◌≤◌, ◌<◌, ◌≡◌, ◌≢◌, inl, inr, refl, sym, ap, ap₂, ◌∙◌, true,
  false, Option, some, List, [], ◌∷◌, ◌++◌, length, get_or, take, map, replicate, ltb, lt→ltb, ◌==◌,
  if◌then◌else◌, arith, Bool-cases,
}
use modeling_unix.Inode.{
  Volume, no_sector, get_byte, get_bytes, lesser, read_loop, inode_length, inode_read_at,
}
use modeling_unix.Inode.Slots.{places, IsIndex}
use modeling_unix.Inode.Install.{eq-cases}
use modeling_unix.Inode.Sector.{max_sectors, file_sector}
use modeling_unix.Inode.Read.{sector_at, byte_to_sector-sector_at}

-- the byte of the file at `p`: 0 in a hole
abbrev pub file_byte : Volume → (inode p : ℕ) → ℕ
file_byte v i p =
    if sector_at v i p == no_sector then 0 else get_byte v.disk (sector_at v i p) (p % 512)

-- `n` bytes of the file from `p` on
pub file_bytes : (n : ℕ) → Volume → (inode p : ℕ) → List ℕ
file_bytes zero v i p = []
file_bytes (suc n) v i p = file_byte v i p ∷ file_bytes n v i (p + 1)

pub length-file_bytes : (n : ℕ) (v : Volume) (i p : ℕ) → length (file_bytes n v i p) ≡ n
unfolding file_bytes
length-file_bytes zero v i p = refl
length-file_bytes (suc n) v i p = ap suc (length-file_bytes n v i (p + 1))

-- `n` bytes of the file, where they are those of the list
pub file_bytes-take :
    (n : ℕ) (v : Volume) (i p : ℕ) (l : List ℕ)
    → n ≤ length l
    → ((k : ℕ) → k < n → file_byte v i (p + k) ≡ get_or l k 0 % 256)
    → file_bytes n v i p ≡ take n (map (λ b. b % 256) l)
unfolding file_bytes
file_bytes-take zero v i p l h e = refl
file_bytes-take (suc n) v i p [] h e = absurd (omega arith)
file_bytes-take (suc n) v i p (b ∷ l) h e =
    let at : p + 0 ≡ p = omega arith in
    ap₂ (λ x xs. x ∷ xs) (sym (ap (file_byte v i) at) ∙ e 0 (omega arith))
      (file_bytes-take n v i (p + 1) l (omega arith) (λ k less.
        let next : p + 1 + k ≡ p + suc k = omega arith in
        ap (file_byte v i) next ∙ e (suc k) (omega arith)))

file_bytes-append :
    (a b : ℕ) (v : Volume) (i p : ℕ)
    → file_bytes (a + b) v i p ≡ file_bytes a v i p ++ file_bytes b v i (p + a)
unfolding file_bytes
file_bytes-append zero b v i p = ap₂ (λ n q. file_bytes n v i q) (omega arith) (omega arith)
file_bytes-append (suc a) b v i p =
    let n : suc a + b ≡ suc (a + b) = omega arith in
    let q : p + 1 + a ≡ p + suc a = omega arith in
    rw n (
      ap (λ l. file_byte v i p ∷ l)
        (file_bytes-append a b v i (p + 1)
          ∙ ap (λ k. file_bytes a v i (p + 1) ++ file_bytes b v i k) q))

-- The bytes of one sector, and the zeros of one hole.
module _ (v : Volume) (i : ℕ) where
  same_sector : (p k : ℕ) → p % 512 + k < 512 → sector_at v i (p + k) ≡ sector_at v i p
  same_sector p k h =
      let e : (p + k) / 512 ≡ p / 512 = omega arith in
      ap (λ m. if ltb m max_sectors then file_sector v i m else no_sector) e

  hole_bytes :
      (n p : ℕ)
      → (0 < n → sector_at v i p ≡ no_sector)
      → p % 512 + n ≤ 512
      → replicate n 0 ≡ file_bytes n v i p
  unfolding file_bytes
  hole_bytes zero p e h = refl
  hole_bytes (suc n) p e h =
      let hole : (sector_at v i p == no_sector) ≡ true = rw (e (omega arith)) refl in
      rw hole (
        ap (λ l. 0 ∷ l)
          (hole_bytes n (p + 1) (λ more. same_sector p 1 (omega arith) ∙ e (omega arith))
            (omega arith)))

  sector_bytes :
      (n p ofs s : ℕ)
      → (0 < n → (sector_at v i p ≡ s) × (ofs ≡ p % 512))
      → s ≢ no_sector
      → ofs + n ≤ 512
      → get_bytes n v.disk s ofs ≡ file_bytes n v i p
  unfolding file_bytes get_bytes
  sector_bytes zero p ofs s e real h = refl
  sector_bytes (suc n) p ofs s e real h =
      let (at_s, at_ofs) = e (omega arith) in
      let there : (s == no_sector) ≡ false = ground arith in
      let next : 0 < n → (sector_at v i (p + 1) ≡ s) × (ofs + 1 ≡ (p + 1) % 512) =
        λ more. (same_sector p 1 (omega arith) ∙ at_s, omega arith) in
      rw (at_s, there)
        (ap₂ (λ b l. b ∷ l) (ap (get_byte v.disk s) at_ofs)
          (sector_bytes n (p + 1) (ofs + 1) s next real (omega arith)))

  module _ (ok : IsIndex v i) where
    sector_on_device : (p : ℕ) → sector_at v i p ≢ no_sector → sector_at v i p < v.free_map.bit_cnt
    sector_on_device p real = elim (Bool-cases (ltb (p / 512) max_sectors)) [
      | inl inside ↦
          let small : 131 + p / 512 < places = ground arith in
          let same : sector_at v i p ≡ file_sector v i (p / 512) = rw inside refl in
          omega (arith, same, ok.on_device (131 + p / 512) small (λ e. real (same ∙ e)))
      | inr outside ↦ absurd (real (rw outside refl))
    ]

    -- the bytes of a round and of the rounds after it
    join :
        (c total rest p : ℕ) (bytes : List ℕ)
        → total ≡ c + rest
        → bytes ≡ file_bytes c v i p
        → ◌≡◌ {A = Option (List ℕ × Volume)}
            (some (bytes ++ file_bytes rest v i (p + c), v))
            (some (file_bytes total v i p, v))
    join c total rest p bytes e same =
        ap (λ l. some (l, v))
          (ap (λ l. l ++ file_bytes rest v i (p + c)) same
            ∙ sym (file_bytes-append c rest v i p)
            ∙ ap (λ n. file_bytes n v i p) (sym e))

    -- Each round takes its bytes from one sector or one hole.
    read_loop-file_bytes :
        (fuel len size p : ℕ)
        → size ≤ fuel
        → p ≤ len
        → read_loop fuel v i len size p ≡ some (file_bytes (lesser size (len - p)) v i p, v)
    unfolding read_loop file_bytes
    read_loop-file_bytes zero len size p enough h =
        let none_left : lesser size (len - p) ≡ 0 = ground arith in rw none_left refl
    read_loop-file_bytes (suc fuel) len size p enough h =
        let c = lesser size (lesser (len - p) (512 - p % 512)) in
        let total = lesser size (len - p) in
        let rest = lesser (size - c) (len - (p + c)) in
        let split : total ≡ c + rest = ground arith in
        let within : p % 512 + c ≤ 512 = ground arith in
        elim (eq-cases size 0) [
          | inl (e, test) ↦ rw test (let none_left : total ≡ 0 = ground arith in rw none_left refl)
          | inr (more, test) ↦
              rw (test, byte_to_sector-sector_at v i ok p)
                (elim (eq-cases c 0) [
                  | inl (e, stop) ↦
                      rw stop (let none_left : total ≡ 0 = ground arith in rw none_left refl)
                  | inr (some_bytes, go) ↦
                      let later : read_loop fuel v i len (size - c) (p + c)
                          ≡ some (file_bytes rest v i (p + c), v) =
                        read_loop-file_bytes fuel len (size - c) (p + c) (omega arith)
                          (ground arith) in
                      rw (go, later)
                        (elim (eq-cases (sector_at v i p) no_sector) [
                          | inl (e, hole) ↦ rw hole (
                              join c total rest p (replicate c 0) split
                                (hole_bytes c p (λ k. e) within))
                          | inr (real, there) ↦
                              let fits : ltb (sector_at v i p) v.free_map.bit_cnt ≡ true =
                                lt→ltb (sector_at v i p) v.free_map.bit_cnt
                                  (sector_on_device p real) in
                              rw (there, fits)
                                (join c total rest p
                                  (get_bytes c v.disk (sector_at v i p) (p % 512)) split
                                  (sector_bytes c p (p % 512) (sector_at v i p) (λ k. (refl, refl))
                                    real within))
                        ])
                ])
        ]

-- `inode_read_at` of a well-formed file never stops, changes nothing, and gives the file's bytes from
-- `offset` on, zeros in its holes: `size` of them, or those before the end of the file.
pub read_at-file_bytes :
    (v : Volume) (i size offset : ℕ)
    → IsIndex v i
    → inode_read_at v i size offset
      ≡ some (file_bytes (lesser size (inode_length v i - offset)) v i offset, v)
unfolding inode_read_at file_bytes
read_at-file_bytes v i size offset ok = elim (Bool-cases (ltb (inode_length v i) offset)) [
  | inl past ↦
      let none_left : lesser size (inode_length v i - offset) ≡ 0 = ground arith in
      rw (past, none_left) refl
  | inr inside ↦
      rw inside (
        read_loop-file_bytes v i ok size (inode_length v i) size offset (omega arith)
          (ground arith))
]
