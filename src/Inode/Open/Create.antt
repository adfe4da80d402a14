-- ===== src/Inode/Open/Create.antt =====
-- `inode_create` of filesys/inode.c: the block of a new inode is an index of holes.
use modeling_unix.Base.{
  ◌^◌, ℕ, zero, suc, ◌-◌, ◌≤◌, ◌<◌, ◌≡◌, ◌≢◌, inl, inr, refl, sym, ap, ◌∙◌, true, Option, some,
  List, [], ◌==◌, arith,
}
use modeling_unix.Bitmap.View.{IsValid, bit}
use modeling_unix.Inode.{Disk, Volume, no_sector, lesser, inode_length, inode_read_at}
use modeling_unix.Inode.Slots.{
  places, owner, word, entry, slot, slot_zero, slot-owner, owner-lt, IsIndex,
}
use modeling_unix.Inode.Install.{eq-cases, entry-none}
use modeling_unix.Inode.Isolation.{Disjoint}
use modeling_unix.Inode.Bytes.{file_bytes, file_bytes-take, read_at-file_bytes}
use modeling_unix.Inode.Open.{System, inode_block, put_block, inode_create}

-- An inode without a pointer: every place but the inode's is empty.
holes_below :
    (d : Disk) (i : ℕ)
    → ((w : ℕ) → 3 ≤ w → d i w ≡ no_sector)
    → (k r : ℕ) → r < k
    → 0 < r
    → r < places
    → slot d i r ≡ no_sector
holes_below d i blank zero r below pos h = absurd (omega arith)
holes_below d i blank (suc k) r below pos h =
    let o = owner-lt r pos h in
    slot-owner d i r pos h ∙ elim (eq-cases (owner r) 0) [
      | inl (e, _) ↦
          let at : slot d i (owner r) ≡ i = ap (slot d i) e ∙ slot_zero d i in
          let far : 3 ≤ word r = ground arith in
          ap (λ s. entry d s (word r)) at ∙ empty_entry (word r) (blank (word r) far)
      | inr (e, _) ↦
          entry-none d (slot d i (owner r)) (word r)
            (holes_below d i blank k (owner r) (omega arith) (ground arith) (omega arith))
    ]
  where
    empty_entry : (w : ℕ) → d i w ≡ no_sector → entry d i w ≡ no_sector
    empty_entry w e = ground arith

pub holes :
    (d : Disk) (i : ℕ)
    → ((w : ℕ) → 3 ≤ w → d i w ≡ no_sector)
    → (r : ℕ) → 0 < r
    → r < places
    → slot d i r ≡ no_sector
holes d i blank r pos h = holes_below d i blank (suc r) r (omega arith) pos h

-- An inode without a pointer is well formed where its own sector is in use.
pub blank-IsIndex :
    (v : Volume) (i : ℕ)
    → IsValid v.free_map
    → i < v.free_map.bit_cnt
    → bit v.free_map i ≡ true
    → ((w : ℕ) → 3 ≤ w → v.disk i w ≡ no_sector)
    → v.disk i 0 < 2 ^ 31
    → IsIndex v i
blank-IsIndex v i valid small used blank short = record {
  valid = valid;
  inode_real = omega (arith, valid.small);
  length_small = short;
  on_device = λ r h real. omega (arith, at r h real, small);
  used = λ r h real. ap (bit v.free_map) (at r h real) ∙ used;
  apart =
      λ r q hr hq differs real e. differs (only r hr real ∙ sym (only q hq (λ z. real (e ∙ z))));
}
  where
    only : (r : ℕ) → r < places → slot v.disk i r ≢ no_sector → r ≡ 0
    only r h real = elim (eq-cases r 0) [
      | inl (e, _) ↦ e
      | inr (e, _) ↦ absurd (real (holes v.disk i blank r (ground arith) h))
    ]

    at : (r : ℕ) → r < places → slot v.disk i r ≢ no_sector → slot v.disk i r ≡ i
    at r h real = ap (slot v.disk i) (only r h real) ∙ slot_zero v.disk i

-- Two inodes without pointers share no sector.
pub blank-Disjoint :
    (v : Volume) (i j : ℕ)
    → i ≢ j
    → i ≢ no_sector
    → j ≢ no_sector
    → ((w : ℕ) → 3 ≤ w → v.disk i w ≡ no_sector)
    → ((w : ℕ) → 3 ≤ w → v.disk j w ≡ no_sector)
    → Disjoint v i j
blank-Disjoint v i j differs real_i real_j blank_i blank_j r q hr hq real e = elim (eq-cases q 0) [
  | inr (pos, _) ↦ real (holes v.disk j blank_j q (ground arith) hq)
  | inl (at_j, _) ↦
      let is_j : slot v.disk i r ≡ j = e ∙ ap (slot v.disk j) at_j ∙ slot_zero v.disk j in
      elim (eq-cases r 0) [
        | inl (at_i, _) ↦ differs (sym (ap (slot v.disk i) at_i ∙ slot_zero v.disk i) ∙ is_j)
        | inr (pos, _) ↦ real_j (sym is_j ∙ holes v.disk i blank_i r (ground arith) hr)
      ]
]

pub inode_block-blank : (length is_dir w : ℕ) → 3 ≤ w → inode_block length is_dir w ≡ no_sector
unfolding inode_block
inode_block-blank length is_dir w h = ground arith

pub inode_block-length : (length is_dir : ℕ) → inode_block length is_dir 0 ≡ length
unfolding inode_block
inode_block-length length is_dir = refl

-- the volume with the new inode's block
abbrev pub created : Volume → (sector length is_dir : ℕ) → Volume
created v sector length is_dir = record v {
  disk = put_block v.disk sector (inode_block length is_dir);
}

pub created-IsIndex :
    (v : Volume) (sector length is_dir : ℕ)
    → IsValid v.free_map
    → sector < v.free_map.bit_cnt
    → bit v.free_map sector ≡ true
    → length < 2 ^ 31
    → IsIndex (created v sector length is_dir) sector
unfolding inode_block
created-IsIndex v sector length is_dir valid small used short =
    blank-IsIndex (created v sector length is_dir) sector valid small used (λ w h. ground arith)
      (let self : (sector == sector) ≡ true = ground arith in rw self short)

pub created-length :
    (v : Volume) (sector length is_dir : ℕ)
    → inode_length (created v sector length is_dir) sector ≡ length
unfolding inode_length inode_block
created-length v sector length is_dir =
    let self : (sector == sector) ≡ true = ground arith in rw self refl

-- no bytes
none_of : (v : Volume) (i p n : ℕ) → n ≡ 0 → file_bytes n v i p ≡ []
none_of v i p n e =
    ap (λ k. file_bytes k v i p) e
    ∙ file_bytes-take 0 v i p [] (omega arith) (λ k h. absurd (omega arith))

module _ {File : Type 0} (write_at : File → List ℕ → ℕ → Option (ℕ × File)) where
  -- A new empty file in a sector that is in use: the call succeeds, the index is well formed, every
  -- read gives no bytes, and no other sector and no bit of the free map changes.
  pub create-IsIndex :
      (s : System) (file : File) (sector is_dir : ℕ) (room : Option ℕ)
      → IsValid s.volume.free_map
      → sector < s.volume.free_map.bit_cnt
      → bit s.volume.free_map sector ≡ true
      → (v : Volume) × (inode_create write_at s file sector 0 is_dir room
          ≡ some (true, record s { volume = v }, file))
        × IsIndex v sector
        × ((size offset : ℕ) → inode_read_at v sector size offset ≡ some ([], v))
        × ((t w : ℕ) → t ≢ sector → v.disk t w ≡ s.volume.disk t w)
        × (v.free_map ≡ s.volume.free_map)
  unfolding inode_create
  create-IsIndex s file sector is_dir room valid small used =
      let v = created s.volume sector 0 is_dir in
      let ok = created-IsIndex s.volume sector 0 is_dir valid small used (omega arith) in
      (
        v,
        refl,
        ok,
        λ size offset.
            read_at-file_bytes v sector size offset ok
            ∙ ap (λ l. some (l, v))
                (none_of v sector offset (lesser size (inode_length v sector - offset))
                  (ground (arith, created-length s.volume sector 0 is_dir))),
        λ t w other. ground arith,
        refl,
      )
