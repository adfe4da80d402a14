-- ===== src/Inode/Keep.antt =====
-- Writes to a file's data and to its length in filesys/inode.c: the index keeps its sectors.
use modeling_unix.Base.{
  ℕ, zero, suc, ◌+◌, ◌/◌, ◌%◌, ◌^◌, ◌≤◌, ◌<◌, ◌≡◌, ◌≢◌, inl, inr, refl, sym, ap, ◌∙◌, ltb, arith,
  Bool-cases,
}
use modeling_unix.Inode.{Disk, Volume, no_sector, put_word, get_byte}
use modeling_unix.Inode.Slots.{
  places, owner, word, entry, slot, slot_zero, slot-owner, owner-lt, IsIndex,
}
use modeling_unix.Inode.Install.{eq-cases, entry-real, entry-none}
use modeling_unix.Inode.Lookup.{not_entry}
use modeling_unix.Inode.Sector.{max_sectors, file_sector}
use modeling_unix.Inode.Read.{sector_at}
use modeling_unix.Inode.Bytes.{file_byte}

-- The tables have the same words.
abbrev pub SameTables : Disk → (inode : ℕ) → Disk → Type 0
SameTables d i d' =
    (r : ℕ)
    → 0 < r
    → r < places
    → slot d i (owner r) ≢ no_sector
    → d' (slot d i (owner r)) (word r) ≡ d (slot d i (owner r)) (word r)

entry-same : (d d' : Disk) (t w : ℕ) → (t ≢ no_sector → d' t w ≡ d t w) → entry d' t w ≡ entry d t w
entry-same d d' t w h = elim (eq-cases t no_sector) [
  | inl (e, _) ↦ entry-none d' t w e ∙ sym (entry-none d t w e)
  | inr (e, _) ↦ entry-real d' t w e ∙ h e ∙ sym (entry-real d t w e)
]

slot_below :
    (d d' : Disk) (i : ℕ)
    → SameTables d i d'
    → (k r : ℕ) → r < k
    → r < places
    → slot d' i r ≡ slot d i r
slot_below d d' i same zero r below h = absurd (omega arith)
slot_below d d' i same (suc k) zero below h = slot_zero d' i ∙ sym (slot_zero d i)
slot_below d d' i same (suc k) (suc q) below h =
    let r = suc q in
    let o = owner-lt r (omega arith) h in
    slot-owner d' i r (omega arith) h
    ∙ ap (λ s. entry d' s (word r)) (slot_below d d' i same k (owner r) (omega arith) (omega arith))
    ∙ entry-same d d' (slot d i (owner r)) (word r) (same r (omega arith) h)
    ∙ sym (slot-owner d i r (omega arith) h)

pub slot-same :
    (d d' : Disk) (i : ℕ) → SameTables d i d' → (r : ℕ) → r < places → slot d' i r ≡ slot d i r
slot-same d d' i same r h = slot_below d d' i same (suc r) r (omega arith) h

-- The index of a file stays well formed where its places keep their sectors.
pub IsIndex-same :
    (v : Volume) (d' : Disk) (i : ℕ)
    → IsIndex v i
    → SameTables v.disk i d'
    → d' i 0 < 2 ^ 31
    → IsIndex (record v { disk = d' }) i
IsIndex-same v d' i ok same small = record {
  valid = ok.valid;
  inode_real = ok.inode_real;
  length_small = small;
  on_device = λ r h real. rw (at r h) (ok.on_device r h (λ z. real (at r h ∙ z)));
  used = λ r h real. rw (at r h) (ok.used r h (λ z. real (at r h ∙ z)));
  apart = λ r q hr hq differs real e.
      ok.apart r q hr hq differs (λ z. real (at r hr ∙ z)) (sym (at r hr) ∙ e ∙ at q hq);
}
  where
    at : (r : ℕ) → r < places → slot d' i r ≡ slot v.disk i r
    at = slot-same v.disk d' i same

-- Another disk whose other sectors are the same has the same tables, where the sector has data.
pub data-SameTables :
    (v : Volume) (d' : Disk) (i m : ℕ)
    → IsIndex v i
    → m < max_sectors
    → ((t w : ℕ) → t ≢ file_sector v i m → d' t w ≡ v.disk t w)
    → SameTables v.disk i d'
data-SameTables v d' i m ok h others r pos hr real =
    let o = owner-lt r pos hr in
    others (slot v.disk i (owner r)) (word r)
      (ok.apart (owner r) (131 + m) (omega arith) (omega arith) (omega arith) real)

-- The length is no pointer.
pub length-SameTables :
    (v : Volume) (i n : ℕ) → IsIndex v i → SameTables v.disk i (put_word v.disk i 0 n)
length-SameTables v i n ok r pos hr real = elim (not_entry v i r ok pos hr real 0 (omega arith)) [
  | inl e ↦ ground arith
  | inr e ↦ ground arith
]

pub sector_at-in :
    (v : Volume) (i p : ℕ) → p / 512 < max_sectors → sector_at v i p ≡ file_sector v i (p / 512)
sector_at-in v i p h = ground arith

pub sector_at-out : (v : Volume) (i p : ℕ) → max_sectors ≤ p / 512 → sector_at v i p ≡ no_sector
sector_at-out v i p h = ground arith

pub sector_at-same :
    (v : Volume) (d' : Disk) (i : ℕ)
    → SameTables v.disk i d'
    → (q : ℕ) → sector_at (record v { disk = d' }) i q ≡ sector_at v i q
sector_at-same v d' i same q = elim (Bool-cases (ltb (q / 512) max_sectors)) [
  | inl inside ↦ rw inside (slot-same v.disk d' i same (131 + q / 512) (ground arith))
  | inr outside ↦ rw outside refl
]

-- A byte is kept where its sector is, and the sector's byte.
pub file_byte-same :
    (v v' : Volume) (i q : ℕ)
    → sector_at v' i q ≡ sector_at v i q
    → (sector_at v i q ≢ no_sector
        → get_byte v'.disk (sector_at v i q) (q % 512)
          ≡ get_byte v.disk (sector_at v i q) (q % 512))
    → file_byte v' i q ≡ file_byte v i q
file_byte-same v v' i q e h = elim (eq-cases (sector_at v i q) no_sector) [
  | inl (_, hole) ↦ rw (e, hole) refl
  | inr (real, there) ↦ rw (e, there) (h real)
]

-- The data is not in the inode's sector.
data-not_inode :
    (v : Volume) (i q : ℕ) → IsIndex v i → sector_at v i q ≢ no_sector → sector_at v i q ≢ i
data-not_inode v i q ok real e = elim (Bool-cases (ltb (q / 512) max_sectors)) [
  | inr outside ↦ real (sector_at-out v i q (ground arith))
  | inl inside ↦
      let at = sector_at-in v i q (ground arith) in
      ok.apart (131 + q / 512) 0 (ground arith) (omega arith) (omega arith) (λ z. real (at ∙ z))
        (sym at ∙ e ∙ sym (slot_zero v.disk i))
]

-- The file's bytes stay when its length changes.
pub length-file_byte :
    (v : Volume) (i q len : ℕ)
    → IsIndex v i
    → file_byte (record v { disk = put_word v.disk i 0 len }) i q ≡ file_byte v i q
length-file_byte v i q len ok =
    file_byte-same v (record v { disk = put_word v.disk i 0 len }) i q
      (sector_at-same v (put_word v.disk i 0 len) i (length-SameTables v i len ok) q)
      (λ real. keep (sector_at v i q) (data-not_inode v i q ok real))
  where
    keep :
        (t : ℕ)
        → t ≢ i
        → get_byte (put_word v.disk i 0 len) t (q % 512) ≡ get_byte v.disk t (q % 512)
    keep t differs = ap (λ x. x / 256 ^ (q % 512 % 4) % 256) (ground arith)
