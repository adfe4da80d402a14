-- ===== src/Inode/Install.antt =====
-- A new sector at an empty place of an inode's index of filesys/inode.c: all other places keep their
-- sectors.
use modeling_unix.Base.{
  ℕ, zero, suc, ◌<◌, ◌≡◌, ◌≢◌, ◌⊎◌, inl, inr, refl, sym, ap, ◌∙◌, Bool, true, false, ◌==◌,
  if◌then◌else◌, arith, Bool-cases,
}
use modeling_unix.Bitmap.{Bitmap}
use modeling_unix.Bitmap.View.{bit}
use modeling_unix.Bitmap.Range.{Filled, within}
use modeling_unix.Inode.{Disk, Volume, no_sector}
use modeling_unix.Inode.Slots.{
  places, owner, word, entry, slot, slot_zero, slot-owner, place_inj, owner-lt, IsIndex,
}

-- `n` is written at the place `r`, and its sector is an empty table where `r` is a table's place.
pub record Installs (d : Disk) (i r n : ℕ) (d' : Disk) : Type 0 where
  pub hit : d' (slot d i (owner r)) (word r) ≡ n
  pub keep : (t w : ℕ) → t ≢ n → (t ≢ slot d i (owner r)) ⊎ (w ≢ word r) → d' t w ≡ d t w
  pub empty : r < 131 → (w : ℕ) → d' n w ≡ no_sector

-- an empty place of an index, and a sector that no place has
pub record IsFree (d : Disk) (i r n : ℕ) : Type 0 where
  pub place_in : r < places
  pub not_inode : 0 < r
  pub vacant : slot d i r ≡ no_sector
  pub owned : slot d i (owner r) ≢ no_sector
  pub real : n ≢ no_sector
  pub fresh : (q : ℕ) → q < places → slot d i q ≢ n

pub eq-cases : (a b : ℕ) → ((a ≡ b) × ((a == b) ≡ true)) ⊎ ((a ≢ b) × ((a == b) ≡ false))
eq-cases a b = elim (Bool-cases (a == b)) [
  | inl e ↦ inl (ground arith, e)
  | inr e ↦ inr (ground arith, e)
]

pub entry-real : (d : Disk) (t w : ℕ) → t ≢ no_sector → entry d t w ≡ d t w
entry-real d t w h = ground arith

pub entry-none : (d : Disk) (t w : ℕ) → t ≡ no_sector → entry d t w ≡ no_sector
entry-none d t w h = ground arith

module _ (d d' : Disk) (i r₁ n : ℕ) (free : IsFree d i r₁ n) (made : Installs d i r₁ n d')
    (apart : (r q : ℕ)
      → r < places
      → q < places
      → r ≢ q
      → slot d i r ≢ no_sector
      → slot d i r ≢ slot d i q) where
  -- the sector at a place after the write
  abbrev after : ℕ → ℕ
  after r = if r == r₁ then n else slot d i r

  -- a place in the table that was made
  in_new : (r : ℕ) → 0 < r → r < places → owner r ≡ r₁ → entry d' n (word r) ≡ after r
  in_new r h k o =
      let below = owner-lt r h k in
      let other : (r == r₁) ≡ false = ground arith in
      let was : slot d i r ≡ no_sector =
        slot-owner d i r h k
        ∙ entry-none d (slot d i (owner r)) (word r) (ap (slot d i) o ∙ free.vacant) in
      rw other (entry-real d' n (word r) free.real ∙ made.empty (omega arith) (word r) ∙ sym was)

  -- a place in a table that was there
  in_old : (r : ℕ) → 0 < r → r < places → entry d' (slot d i (owner r)) (word r) ≡ after r
  in_old r h k =
      let o = owner r in
      let was = slot-owner d i r h k in
      let below = owner-lt r h k in
      let below₁ = owner-lt r₁ free.not_inode free.place_in in
      elim (eq-cases (slot d i o) no_sector) [
        | inl (e, _) ↦ elim (eq-cases r r₁) [
          | inl (same, _) ↦ absurd (free.owned (ap (λ q. slot d i (owner q)) (sym same) ∙ e))
          | inr (_, other) ↦ rw other (
              entry-none d' (slot d i o) (word r) e
              ∙ sym (was ∙ entry-none d (slot d i o) (word r) e))
        ]
        | inr (real, _) ↦ entry-real d' (slot d i o) (word r) real ∙ (elim (eq-cases r r₁) [
          | inl (same, hit) ↦ rw hit (ap (λ q. d' (slot d i (owner q)) (word q)) same ∙ made.hit)
          | inr (differs, other) ↦ rw other (
              made.keep (slot d i o) (word r) (free.fresh o (omega arith))
                (elsewhere r h k differs real)
              ∙ sym (was ∙ entry-real d (slot d i o) (word r) real))
        ])
      ]
    where
      elsewhere :
          (r : ℕ)
          → 0 < r
          → r < places
          → r ≢ r₁
          → slot d i (owner r) ≢ no_sector
          → (slot d i (owner r) ≢ slot d i (owner r₁)) ⊎ (word r ≢ word r₁)
      elsewhere r h k differs real =
          let below = owner-lt r h k in
          let below₁ = owner-lt r₁ free.not_inode free.place_in in
          elim (eq-cases (owner r) (owner r₁)) [
            | inl (o, _) ↦ inr (λ w. differs (place_inj r r₁ h free.not_inode k free.place_in o w))
            | inr (o, _) ↦ inl (apart (owner r) (owner r₁) (omega arith) (omega arith) o real)
          ]

  slot_below : (k r : ℕ) → r < k → r < places → slot d' i r ≡ after r
  slot_below zero r below h = absurd (omega arith)
  slot_below (suc k) zero below h =
      let other : (zero == r₁) ≡ false = ground (arith, free.not_inode) in
      rw (other, slot_zero d' i, slot_zero d i) refl
  slot_below (suc k) (suc q) below h =
      let r = suc q in
      let o = owner-lt r (omega arith) h in
      let ih = slot_below k (owner r) (omega arith) (omega arith) in
      slot-owner d' i r (omega arith) h ∙ elim (eq-cases (owner r) r₁) [
        | inl (same, hit) ↦
            ap (λ s. entry d' s (word r)) (ih ∙ new_slot (owner r) hit)
            ∙ in_new r (omega arith) h same
        | inr (_, other) ↦
            ap (λ s. entry d' s (word r)) (ih ∙ old_slot (owner r) other) ∙ in_old r (omega arith) h
      ]
    where
      new_slot : (q : ℕ) → (q == r₁) ≡ true → after q ≡ n
      new_slot q e = rw e refl

      old_slot : (q : ℕ) → (q == r₁) ≡ false → after q ≡ slot d i q
      old_slot q e = rw e refl

  -- The place has the new sector, and every other place the sector that it had.
  pub install-slot : (r : ℕ) → r < places → slot d' i r ≡ after r
  install-slot r h = slot_below (suc r) r (omega arith) h

  pub slot_new : slot d' i r₁ ≡ n
  slot_new = install-slot r₁ free.place_in ∙ if_same r₁ refl
    where
      if_same : (r : ℕ) → r ≡ r₁ → after r ≡ n
      if_same r e = ground arith

  pub slot_old : (r : ℕ) → r < places → r ≢ r₁ → slot d' i r ≡ slot d i r
  slot_old r h differs = install-slot r h ∙ if_other (slot d i r) differs
    where
      if_other : (s : ℕ) → r ≢ r₁ → (if r == r₁ then n else s) ≡ s
      if_other s e = ground arith

granted : (b b' : Bitmap) (n : ℕ) → Filled b n 1 true b' → bit b' n ≡ true
granted b b' n f = f.bits n ∙ pick (bit b n)
  where
    pick : (x : Bool) → (if within n 1 n then true else x) ≡ true
    pick x = ground arith

pub still : (b b' : Bitmap) (n s : ℕ) → Filled b n 1 true b' → bit b s ≡ true → bit b' s ≡ true
still b b' n s f e = f.bits s ∙ pick (bit b s) e
  where
    pick : (x : Bool) → x ≡ true → (if within n 1 s then true else x) ≡ true
    pick x h = ground arith

-- A sector that was not in use is granted to an empty place: the index stays well formed.
pub install-IsIndex :
    (v v' : Volume) (i r₁ n : ℕ)
    → IsIndex v i
    → IsFree v.disk i r₁ n
    → Installs v.disk i r₁ n v'.disk
    → n < v.free_map.bit_cnt
    → Filled v.free_map n 1 true v'.free_map
    → IsIndex v' i
install-IsIndex v v' i r₁ n ok free made small filled = record {
  valid = filled.valid;
  inode_real = ok.inode_real;
  length_small = omega (arith, ok.length_small, length_kept);
  on_device = on_device;
  used = used;
  apart = apart;
}
  where
    not_inode : i ≢ n
    not_inode z = free.fresh 0 (omega arith) (slot_zero v.disk i ∙ z)

    length_kept : v'.disk i 0 ≡ v.disk i 0
    length_kept = made.keep i 0 not_inode (elim (eq-cases (owner r₁) 0) [
      | inl (e, _) ↦ inr (ground (arith, free.not_inode))
      | inr (e, _) ↦ inl (λ z.
          ok.apart (owner r₁) 0
            (omega (arith, owner-lt r₁ free.not_inode free.place_in, free.place_in)) (omega arith) e
            free.owned (sym z ∙ sym (slot_zero v.disk i)))
    ])

    new : slot v'.disk i r₁ ≡ n
    new = slot_new v.disk v'.disk i r₁ n free made ok.apart

    old : (r : ℕ) → r < places → r ≢ r₁ → slot v'.disk i r ≡ slot v.disk i r
    old = slot_old v.disk v'.disk i r₁ n free made ok.apart

    on_device :
        (r : ℕ) → r < places → slot v'.disk i r ≢ no_sector → slot v'.disk i r < v'.free_map.bit_cnt
    on_device r h real = elim (eq-cases r r₁) [
      | inl (e, _) ↦ omega (arith, ap (slot v'.disk i) e ∙ new, filled.cnt)
      | inr (e, _) ↦
          let same = old r h e in
          omega (arith, same, ok.on_device r h (λ z. real (same ∙ z)), filled.cnt)
    ]

    used :
        (r : ℕ)
        → r < places
        → slot v'.disk i r ≢ no_sector
        → bit v'.free_map (slot v'.disk i r) ≡ true
    used r h real = elim (eq-cases r r₁) [
      | inl (e, _) ↦
          ap (bit v'.free_map) (ap (slot v'.disk i) e ∙ new)
          ∙ granted v.free_map v'.free_map n filled
      | inr (e, _) ↦
          let same = old r h e in
          ap (bit v'.free_map) same
          ∙ still v.free_map v'.free_map n (slot v.disk i r) filled
              (ok.used r h (λ z. real (same ∙ z)))
    ]

    apart :
        (r q : ℕ)
        → r < places
        → q < places
        → r ≢ q
        → slot v'.disk i r ≢ no_sector
        → slot v'.disk i r ≢ slot v'.disk i q
    apart r q hr hq differs real = elim (eq-cases r r₁) [
      | inl (e, _) ↦
          let q_old = old q hq (λ z. differs (e ∙ sym z)) in
          λ z. free.fresh q hq (sym q_old ∙ sym z ∙ ap (slot v'.disk i) e ∙ new)
      | inr (e, _) ↦
          let r_old = old r hr e in
          elim (eq-cases q r₁) [
            | inl (e', _) ↦ λ z. free.fresh r hr (sym r_old ∙ z ∙ ap (slot v'.disk i) e' ∙ new)
            | inr (e', _) ↦ λ z.
                ok.apart r q hr hq differs (λ y. real (r_old ∙ y)) (sym r_old ∙ z ∙ old q hq e')
          ]
    ]
