-- ===== src/Inode/Isolation.antt =====
-- A write to one file of filesys/inode.c and the contents of another.
use mathlib.Core.Path.{subst}
use modeling_unix.Base.{
  ℕ, ◌+◌, ◌*◌, ◌/◌, ◌%◌, ◌^◌, ◌≤◌, ◌<◌, ◌≡◌, ◌≢◌, inl, inr, sym, ap, ◌∙◌, true, false, some, List,
  length, ltb, arith, Bool-cases,
}
use modeling_unix.Bitmap.View.{IsValid, bit}
use modeling_unix.Inode.{Volume, no_sector, inode_length, inode_write_at}
use modeling_unix.Inode.Slots.{places, owner, word, slot, slot_zero, owner-lt, IsIndex}
use modeling_unix.Inode.Frame.{NotOf, Frame}
use modeling_unix.Inode.Sector.{max_sectors}
use modeling_unix.Inode.Read.{sector_at}
use modeling_unix.Inode.Bytes.{file_byte}
use modeling_unix.Inode.Keep.{SameTables, slot-same, sector_at-in, sector_at-out, file_byte-same}
use modeling_unix.Inode.WriteLoop.{write_at-Wrote}

-- The files with the inodes `i` and `j` have no sector in common.
abbrev pub Disjoint : Volume → (i j : ℕ) → Type 0
Disjoint v i j =
    (r q : ℕ)
    → r < places
    → q < places
    → slot v.disk j q ≢ no_sector
    → slot v.disk i r ≢ slot v.disk j q

module _ (v v' : Volume) (i j : ℕ) (framed : Frame v i v') (valid : IsValid v'.free_map)
    (ok : IsIndex v j) (apart : Disjoint v i j) where
  -- the sectors of `j` do not become sectors of `i`
  away : (q : ℕ) → q < places → slot v.disk j q ≢ no_sector → NotOf v' i (slot v.disk j q)
  away q hq real r hr e = elim (framed.new_free r hr (λ z. real (sym e ∙ z))) [
    | inl was ↦ apart r q hr hq real (was ∙ e)
    | inr clear ↦
        let used : bit v.free_map (slot v.disk j q) ≡ true = ok.used q hq real in
        let both : true ≡ false = sym used ∙ ap (bit v.free_map) (sym e) ∙ clear in differ both
  ]
    where
      differ : ¬ (true ≡ false)
      differ h = cc

  tables : SameTables v.disk j v'.disk
  tables r pos hr real =
      framed.frame (slot v.disk j (owner r)) (word r) real
        (away (owner r) (omega (arith, owner-lt r pos hr)) real)

  same : (r : ℕ) → r < places → slot v'.disk j r ≡ slot v.disk j r
  same = slot-same v.disk v'.disk j tables

  other-length : v'.disk j 0 ≡ v.disk j 0
  other-length =
      let real : slot v.disk j 0 ≢ no_sector = λ z. ok.inode_real (sym (slot_zero v.disk j) ∙ z) in
      framed.frame j 0 ok.inode_real
        (subst (NotOf v' i) (slot_zero v.disk j) (away 0 (omega arith) real))

  other-IsIndex : IsIndex v' j
  other-IsIndex = record {
    valid = valid;
    inode_real = ok.inode_real;
    length_small = omega (arith, ok.length_small, other-length);
    on_device = λ r h real.
        omega (arith, same r h, framed.size, ok.on_device r h (λ z. real (same r h ∙ z)));
    used = λ r h real.
        framed.used (slot v'.disk j r)
          (ap (bit v.free_map) (same r h) ∙ ok.used r h (λ z. real (same r h ∙ z)));
    apart = λ r q hr hq differs real e.
        ok.apart r q hr hq differs (λ z. real (same r hr ∙ z)) (sym (same r hr) ∙ e ∙ same q hq);
  }

  other-Disjoint : Disjoint v' i j
  other-Disjoint r q hr hq real e = away q hq (λ z. real (same q hq ∙ z)) r hr (e ∙ same q hq)

  other-byte : (p : ℕ) → file_byte v' j p ≡ file_byte v j p
  other-byte p = elim (Bool-cases (ltb (p / 512) max_sectors)) [
    | inr outside ↦
        let big : max_sectors ≤ p / 512 = ground arith in
        file_byte-same v v' j p (sector_at-out v' j p big ∙ sym (sector_at-out v j p big))
          (λ real. absurd (real (sector_at-out v j p big)))
    | inl inside ↦
        let small : p / 512 < max_sectors = ground arith in
        let at = sector_at-in v j p small in
        file_byte-same v v' j p
          (sector_at-in v' j p small ∙ same (131 + p / 512) (omega arith) ∙ sym at)
          (λ real.
            ap (λ x. x / 256 ^ (p % 512 % 4) % 256)
              (framed.frame (sector_at v j p) (p % 512 / 4) real (
                subst (NotOf v' i) (sym at)
                  (away (131 + p / 512) (omega arith) (λ z. real (at ∙ z))))))
  ]

-- A write to a well-formed file, which is not denied and ends within the largest size of a file
-- (offset + length ≤ max_sectors * 512), returns, and leaves every other well-formed file, of no sector
-- in common with the first, as it was: its index is well formed, its length and bytes are the same, and it still has no sector in
-- common with the first.
pub write_at-isolated :
    (v : Volume) (i j : ℕ) (l : List ℕ) (offset : ℕ)
    → IsIndex v i
    → IsIndex v j
    → Disjoint v i j
    → offset + length l ≤ max_sectors * 512
    → (n : ℕ) × (v' : Volume) × (inode_write_at v i 0 l offset ≡ some (n, v'))
      × IsIndex v' j
      × (inode_length v' j ≡ inode_length v j)
      × ((p : ℕ) → file_byte v' j p ≡ file_byte v j p)
      × Disjoint v' i j
unfolding inode_length
write_at-isolated v i j l offset oki okj apart room =
    let (n, v', ran, w) = write_at-Wrote v i l offset oki room in
    let valid = w.index.valid in
    (
      n,
      v',
      ran,
      other-IsIndex v v' i j w.framed valid okj apart,
      other-length v v' i j w.framed valid okj apart,
      other-byte v v' i j w.framed valid okj apart,
      other-Disjoint v v' i j w.framed valid okj apart,
    )
