-- ===== src/Inode/Close/Steps.antt =====
-- A removed file of filesys/inode.c gives back the sector of one place of its index.
use modeling_unix.Base.{
  ℕ, ◌+◌, ◌≤◌, ◌<◌, ◌≡◌, ◌≢◌, ◌⊎◌, inl, inr, refl, sym, ap, ◌∙◌, Bool, true, false, Option, some,
  List, if◌then◌else◌, arith,
}
use modeling_unix.Bitmap.{Bitmap}
use modeling_unix.Bitmap.View.{IsValid, bit}
use modeling_unix.Bitmap.Scan.{Run}
use modeling_unix.Bitmap.Range.{Filled, within}
use modeling_unix.FreeMap.{free_map_release}
use modeling_unix.FreeMap.Laws.{release-Filled}
use modeling_unix.Inode.{Volume, no_sector}
use modeling_unix.Inode.Slots.{places, slot, IsIndex}
use modeling_unix.Inode.Install.{eq-cases}
use modeling_unix.Inode.Close.{release_sector}

-- The sectors at the places that `done` picks are free in `b`, the others are as in the volume's map.
pub record Released (v : Volume) (i : ℕ) (done : ℕ → Bool) (b : Bitmap) : Type 0 where
  pub valid : IsValid b
  pub cnt : b.bit_cnt ≡ v.free_map.bit_cnt
  pub gone :
      (r : ℕ)
      → r < places
      → done r ≡ true
      → slot v.disk i r ≢ no_sector
      → bit b (slot v.disk i r) ≡ false
  pub stay :
      (s : ℕ)
      → ((r : ℕ) → r < places → done r ≡ true → slot v.disk i r ≢ s)
      → bit b s ≡ bit v.free_map s

-- `done'` picks the place `r` and what `done` picks.
abbrev pub Adds : (ℕ → Bool) → ℕ → (ℕ → Bool) → Type 0
Adds done r done' =
    ((q : ℕ) → done' q ≡ true → (done q ≡ true) ⊎ (q ≡ r))
    × ((q : ℕ) → done q ≡ true → done' q ≡ true)
    × (done' r ≡ true)

freed : (b b' : Bitmap) (s : ℕ) → Filled b s 1 false b' → bit b' s ≡ false
freed b b' s f = f.bits s ∙ pick (bit b s)
  where
    pick : (x : Bool) → (if within s 1 s then false else x) ≡ false
    pick x = ground arith

kept : (b b' : Bitmap) (s t : ℕ) → Filled b s 1 false b' → t ≢ s → bit b' t ≡ bit b t
kept b b' s t f h = f.bits t ∙ pick (bit b t)
  where
    pick : (x : Bool) → (if within s 1 t then false else x) ≡ x
    pick x = ground arith

module _ {File : Type 0} (write_at : File → List ℕ → ℕ → Option (ℕ × File))
    (returns : (file : File) (words : List ℕ) (size : ℕ)
      → (r : ℕ × File) × (write_at file words size ≡ some r))
    (v : Volume) (i : ℕ) (ok : IsIndex v i) where
  abbrev pub at : Bitmap → Volume
  at b = record v { free_map = b }

  -- One sector that is not free yet.
  pub once :
      (done done' : ℕ → Bool) (b : Bitmap) (file : File) (r : ℕ)
      → Released v i done b
      → Adds done r done'
      → r < places
      → done r ≡ false
      → slot v.disk i r ≢ no_sector
      → (b' : Bitmap) × (file' : File) × (free_map_release write_at b file (slot v.disk i r) 1
          ≡ some (b', file'))
        × Released v i done' b'
  once done done' b file r rel (new, old, this) h not_yet real =
      let s = slot v.disk i r in
      let others : (q : ℕ) → q < places → done q ≡ true → slot v.disk i q ≢ s =
        λ q hq e z. ok.apart r q h hq (λ same. cc (sym not_yet ∙ ap done same ∙ e)) real (sym z) in
      let used : bit b s ≡ true = rel.stay s others ∙ ok.used r h real in
      let run : Run (bit b) s 1 true =
        λ j lo hi. let e : j ≡ s = omega arith in ap (bit b) e ∙ used in
      let small : s + 1 ≤ b.bit_cnt = omega (arith, ok.on_device r h real, rel.cnt) in
      let (b', file', done, ran, put, filled) =
        release-Filled write_at returns b file s 1 rel.valid small run in
      (
        b',
        file',
        ran,
        record {
          valid = filled.valid;
          cnt = filled.cnt ∙ rel.cnt;
          gone = λ q hq e there. elim (new q e) [
            | inr same ↦ ap (λ k. bit b' (slot v.disk i k)) same ∙ freed b b' s filled
            | inl was ↦
                kept b b' s (slot v.disk i q) filled (others q hq was) ∙ rel.gone q hq was there
          ];
          stay = λ t out.
              kept b b' s t filled (λ z. out r h this (sym z))
              ∙ rel.stay t (λ q hq e. out q hq (old q e));
        },
      )

  -- Places without a sector are done.
  pub skip :
      (done done' : ℕ → Bool) (b : Bitmap)
      → Released v i done b
      → ((q : ℕ) → q < places → done' q ≡ true → (done q ≡ true) ⊎ (slot v.disk i q ≡ no_sector))
      → ((q : ℕ) → done q ≡ true → done' q ≡ true)
      → Released v i done' b
  skip done done' b rel new old = record {
    valid = rel.valid;
    cnt = rel.cnt;
    gone = λ q hq e there. elim (new q hq e) [
      | inl was ↦ rel.gone q hq was there
      | inr gap ↦ absurd (there gap)
    ];
    stay = λ t out. rel.stay t (λ q hq e. out q hq (old q e));
  }

  abbrev pub Gives : (done : ℕ → Bool) → Option (Volume × File) → Type 0
  Gives done out =
      (b' : Bitmap) × (file' : File) × (out ≡ some (at b', file')) × Released v i done b'

  pub sector :
      (done done' : ℕ → Bool) (b : Bitmap) (file : File) (r s : ℕ)
      → Released v i done b
      → Adds done r done'
      → r < places
      → done r ≡ false
      → s ≡ slot v.disk i r
      → Gives done' (release_sector write_at (at b) file s)
  sector done done' b file r s rel adds h not_yet e =
      rw e (elim (eq-cases (slot v.disk i r) no_sector) [
        | inl (gap, test) ↦
            let (new, old, this) = adds in
            (
              b,
              file,
              rw test refl,
              skip done done' b rel
                  (λ q hq z. elim (new q z) [
                    | inl was ↦ inl was
                    | inr same ↦ inr (ap (slot v.disk i) same ∙ gap)
                  ])
                  old,
            )
        | inr (real, test) ↦
            let (b', file', ran, rel') = once done done' b file r rel adds h not_yet real in
            (b', file', rw (test, ran) refl, rel')
      ])
