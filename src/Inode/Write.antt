-- ===== src/Inode/Write.antt =====
-- The loop of `inode_write_at` of filesys/inode.c: each round writes into one sector.
use modeling_unix.Base.{
  ℕ, ◌+◌, ◌/◌, ◌%◌, ◌^◌, ◌≤◌, ◌<◌, ◌≡◌, ◌≢◌, ◌⊎◌, inl, inr, refl, sym, ap, ◌∙◌, false, List, length,
  get_or, ltb, ◌==◌, arith, Bool-cases,
}
use modeling_unix.Inode.{Disk, Volume, no_sector, get_byte, put_bytes}
use modeling_unix.Inode.Slots.{places, slot_zero, IsIndex}
use modeling_unix.Inode.Install.{eq-cases}
use modeling_unix.Inode.Grant.{Taken}
use modeling_unix.Inode.Kept.{Kept}
use modeling_unix.Inode.Sector.{max_sectors, file_sector, Located, Full}
use modeling_unix.Inode.Read.{sector_at}
use modeling_unix.Inode.Bytes.{file_byte}
use modeling_unix.Inode.Words.{put_bytes_sector, put_bytes_outside, put_bytes_inside}
use modeling_unix.Inode.Frame.{Frame, Frame-trans, same-Frame}
use modeling_unix.Inode.Keep.{
  slot-same, SameTables, IsIndex-same, data-SameTables, sector_at-in, sector_at-out, sector_at-same,
  file_byte-same,
}

-- The first `n` bytes of `l` are in the file from `p` on, all of them unless the device is full. No
-- sector was moved, no other byte changed but those of a hole that now has a sector, and the length
-- word is `len`, and the sectors that are not the file's are as before.
pub record Wrote (v : Volume) (i p : ℕ) (l : List ℕ) (n len : ℕ) (v' : Volume) : Type 0 where
  pub index : IsIndex v' i
  pub all : (n ≡ length l) ⊎ ((n < length l) × Taken v'.free_map)
  pub there : (k : ℕ) → k < n → sector_at v' i (p + k) ≢ no_sector
  pub new : (k : ℕ) → k < n → file_byte v' i (p + k) ≡ get_or l k 0 % 256
  pub sectors : (q : ℕ) → sector_at v i q ≢ no_sector → sector_at v' i q ≡ sector_at v i q
  pub rest :
      (q : ℕ)
      → (q < p) ⊎ (p + n ≤ q)
      → sector_at v' i q ≡ sector_at v i q
      → file_byte v' i q ≡ file_byte v i q
  pub length_now : v'.disk i 0 ≡ len
  pub framed : Frame v i v'

-- The data is where it was, or in a hole.
Kept-byte :
    (v v' : Volume) (i q : ℕ)
    → Kept v i v'
    → sector_at v i q ≢ no_sector
    → get_byte v'.disk (sector_at v i q) (q % 512) ≡ get_byte v.disk (sector_at v i q) (q % 512)
Kept-byte v v' i q kept real = elim (Bool-cases (ltb (q / 512) max_sectors)) [
  | inl inside ↦
      let small : 131 + q / 512 < places = ground arith in
      let e = sector_at-in v i q (ground arith) in
      let same : v'.disk (sector_at v i q) (q % 512 / 4) ≡ v.disk (sector_at v i q) (q % 512 / 4) =
        ap (λ s. v'.disk s (q % 512 / 4)) e
        ∙ kept.contents (131 + q / 512) (q % 512 / 4) (omega arith) small (λ z. real (e ∙ z))
        ∙ ap (λ s. v.disk s (q % 512 / 4)) (sym e) in
      ap (λ x. x / 256 ^ (q % 512 % 4) % 256) same
  | inr outside ↦ absurd (real (sector_at-out v i q (ground arith)))
]

Located-sectors :
    (v v₁ : Volume) (i m s q : ℕ)
    → Located v i m s v₁
    → sector_at v i q ≢ no_sector
    → sector_at v₁ i q ≡ sector_at v i q
Located-sectors v v₁ i m s q loc real = elim (Bool-cases (ltb (q / 512) max_sectors)) [
  | inr outside ↦ absurd (real (sector_at-out v i q (ground arith)))
  | inl inside ↦
      let e = sector_at-in v i q (ground arith) in
      let small : q / 512 < max_sectors = ground arith in
      sector_at-in v₁ i q small
      ∙ (elim (eq-cases (q / 512) m) [
        | inl (same, _) ↦
            let was = ap (file_sector v i) same in
            ap (file_sector v₁ i) same ∙ loc.here ∙ loc.old (λ z. real (e ∙ was ∙ z)) ∙ sym was
        | inr (differs, _) ↦ loc.others (q / 512) small differs
      ])
      ∙ sym e
]

-- The device was full.
pub Full-Wrote :
    (v v₁ : Volume) (i p : ℕ) (l : List ℕ)
    → 0 < length l
    → Full v i v₁
    → Wrote v i p l 0 (v.disk i 0) v₁
Full-Wrote v v₁ i p l some_bytes full = record {
  index = full.index;
  all = inr (some_bytes, full.taken);
  there = λ k h. absurd (omega arith);
  new = λ k h. absurd (omega arith);
  sectors = λ q real. same q;
  rest = λ q out e. file_byte-same v v₁ i q e (Kept-byte v v₁ i q full.kept);
  length_now = full.kept.head 0 (omega arith);
  framed = full.kept.framed;
}
  where
    same : (q : ℕ) → sector_at v₁ i q ≡ sector_at v i q
    same q = elim (Bool-cases (ltb (q / 512) max_sectors)) [
      | inl inside ↦ rw inside (full.others (q / 512) (ground arith))
      | inr outside ↦ rw outside refl
    ]

-- One round, into the sector that was found.
module _ (v v₁ : Volume) (i p s : ℕ) (l : List ℕ) (inside : p / 512 < max_sectors)
    (fits : p % 512 + length l ≤ 512) (loc : Located v i (p / 512) s v₁) where
  abbrev after : Disk
  after = put_bytes l v₁.disk s (p % 512)

  abbrev v₂ : Volume
  v₂ = record v₁ { disk = after }

  tables : SameTables v₁.disk i after
  tables =
      data-SameTables v₁ after i (p / 512) loc.index inside
        (λ t w other. put_bytes_sector l v₁.disk s (p % 512) t w (λ z. other (z ∙ sym loc.here)))

  same : (q : ℕ) → sector_at v₂ i q ≡ sector_at v₁ i q
  same = sector_at-same v₁ after i tables

  at_s : (q : ℕ) → q / 512 ≡ p / 512 → sector_at v₂ i q ≡ s
  at_s q e = same q ∙ sector_at-in v₁ i q (omega arith) ∙ ap (file_sector v₁ i) e ∙ loc.here

  real : s ≢ no_sector
  real = omega (arith, loc.real, loc.index.valid.small)

  new_byte : (k : ℕ) → k < length l → file_byte v₂ i (p + k) ≡ get_or l k 0 % 256
  new_byte k h =
      let e = at_s (p + k) (omega arith) in
      let is_there : (s == no_sector) ≡ false = ground (arith, real) in
      let ofs : (p + k) % 512 ≡ p % 512 + k = omega arith in
      rw (e, is_there, ofs) (put_bytes_inside l v₁.disk s (p % 512) k h)

  old_byte :
      (q : ℕ)
      → (q < p) ⊎ (p + length l ≤ q)
      → sector_at v₂ i q ≡ sector_at v i q
      → file_byte v₂ i q ≡ file_byte v i q
  old_byte q out e =
      file_byte-same v v₂ i q e
        (λ was_real. bytes (sector_at v i q) (sym e) ∙ Kept-byte v v₁ i q loc.kept was_real)
    where
      place : q / 512 ≡ p / 512 → (q % 512 < p % 512) ⊎ (p % 512 + length l ≤ q % 512)
      place h = elim out [ inl lo ↦ inl (omega arith) | inr hi ↦ inr (omega arith) ]

      here : sector_at v₂ i q ≡ s → q / 512 ≡ p / 512
      here h = elim (Bool-cases (ltb (q / 512) max_sectors)) [
        | inr outside ↦ absurd (real (sym h ∙ same q ∙ sector_at-out v₁ i q (ground arith)))
        | inl small ↦
            let at_q = sector_at-in v₁ i q (ground arith) in
            elim (eq-cases (q / 512) (p / 512)) [
              | inl (e, _) ↦ e
              | inr (e, _) ↦ absurd (
                  loc.index.apart (131 + q / 512) (131 + p / 512) (ground arith) (omega arith)
                    (omega arith) (λ z. real (sym h ∙ same q ∙ at_q ∙ z))
                    (sym at_q ∙ sym (same q) ∙ h ∙ sym loc.here))
            ]
      ]

      bytes :
          (t : ℕ) → t ≡ sector_at v₂ i q → get_byte after t (q % 512) ≡ get_byte v₁.disk t (q % 512)
      bytes t at = elim (eq-cases t s) [
        | inr (other, _) ↦
            ap (λ x. x / 256 ^ (q % 512 % 4) % 256)
              (put_bytes_sector l v₁.disk s (p % 512) t (q % 512 / 4) other)
        | inl (hit, _) ↦
            rw hit
              (put_bytes_outside l v₁.disk s (p % 512) (q % 512) (place (here (sym (at) ∙ hit))))
      ]

  not_inode : i ≢ s
  not_inode e =
      loc.index.apart 0 (131 + p / 512) (omega arith) (omega arith) (omega arith)
        (λ z. loc.index.inode_real (sym (slot_zero v₁.disk i) ∙ z))
        (slot_zero v₁.disk i ∙ e ∙ sym loc.here)

  pub round-Wrote : Wrote v i p l (length l) (v.disk i 0) v₂
  round-Wrote = record {
    index = IsIndex-same v₁ after i loc.index tables (
        omega
          (arith, loc.index.length_small, put_bytes_sector l v₁.disk s (p % 512) i 0 not_inode));
    all = inl refl;
    there = λ k h z. real (sym (at_s (p + k) (omega arith)) ∙ z);
    new = new_byte;
    sectors = λ q was_real. same q ∙ Located-sectors v v₁ i (p / 512) s q loc was_real;
    rest = old_byte;
    length_now =
        put_bytes_sector l v₁.disk s (p % 512) i 0 not_inode ∙ loc.kept.head 0 (omega arith);
    framed = Frame-trans v v₁ v₂ i loc.kept.framed (
        same-Frame v₁ v₂ i (131 + p / 512) (omega arith) (slot-same v₁.disk after i tables) refl
          (λ t w other.
            put_bytes_sector l v₁.disk s (p % 512) t w (λ z. other (z ∙ sym loc.here))));
  }
