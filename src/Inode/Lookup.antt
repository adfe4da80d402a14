-- ===== src/Inode/Lookup.antt =====
-- `byte_to_sector` of filesys/inode.c with its lookups in the multi-level index.
use mathlib.Core.Path.{fun_ext}
use modeling_unix.Base.{
  ℕ, ◌≤◌, ◌<◌, ◌≡◌, ◌≢◌, ◌⊎◌, inl, inr, refl, sym, ap, ◌∙◌, true, false, Option, some, arith,
}
use modeling_unix.Bitmap.{Bitmap}
use modeling_unix.Bitmap.View.{IsValid, bit}
use modeling_unix.Bitmap.Range.{Filled}
use modeling_unix.Inode.{
  Disk, Volume, no_sector, no_space, put_word, fill_sector, is_sector, access_indirect_block,
  lookup_entry, follow,
}
use modeling_unix.Inode.Frame.{install-Frame}
use modeling_unix.Inode.Grant.{Taken, grant-Granted}
use modeling_unix.Inode.Kept.{Kept, Kept-refl}
use modeling_unix.Inode.Slots.{places, owner, word, slot, slot_zero, slot-owner, owner-lt, IsIndex}
use modeling_unix.Inode.Install.{
  Installs, IsFree, eq-cases, entry-real, slot_new, slot_old, install-IsIndex,
}

-- The place `r` now has the sector `s`, and every other place the sector that it had.
pub record Placed (v : Volume) (i r s : ℕ) (v' : Volume) : Type 0 where
  pub index : IsIndex v' i
  pub here : slot v'.disk i r ≡ s
  pub others : (q : ℕ) → q < places → q ≢ r → slot v'.disk i q ≡ slot v.disk i q
  pub real : s < v'.free_map.bit_cnt
  pub old : slot v.disk i r ≢ no_sector → s ≡ slot v.disk i r
  pub kept : Kept v i v'

-- a lookup at the place `r` with `write`: there is no space left, or the place has a sector
abbrev pub Looked : Volume → (inode place : ℕ) → Option (ℕ × Volume) → Type 0
Looked v i r out =
    ((out ≡ some (no_space, v)) × Taken v.free_map)
    ⊎ ((s : ℕ) × (v' : Volume) × (out ≡ some (s, v')) × Placed v i r s v')

pub real-is_sector : (b : Bitmap) (s : ℕ) → IsValid b → s < b.bit_cnt → is_sector s ≡ true
real-is_sector b s ok h = ground (arith, ok.small)

put_hit : (d : Disk) (s w n : ℕ) → put_word d s w n s w ≡ n
put_hit d s w n = ground arith

put_other : (d : Disk) (s w n t j : ℕ) → (t ≢ s) ⊎ (j ≢ w) → put_word d s w n t j ≡ d t j
put_other d s w n t j h = ground arith

fill_hit : (d : Disk) (s v w : ℕ) → fill_sector d s v s w ≡ v
fill_hit d s v w = ground arith

fill_other : (d : Disk) (s v t w : ℕ) → t ≢ s → fill_sector d s v t w ≡ d t w
fill_other d s v t w h = ground arith

is_new :
    (v : Volume) (i n r : ℕ)
    → IsIndex v i
    → n < v.free_map.bit_cnt
    → bit v.free_map n ≡ false
    → r < places
    → 0 < r
    → slot v.disk i r ≡ no_sector
    → slot v.disk i (owner r) ≢ no_sector
    → IsFree v.disk i r n
is_new v i n r ok small unused h pos vacant owned = record {
  place_in = h;
  not_inode = pos;
  vacant = vacant;
  owned = owned;
  real = real;
  fresh = fresh;
}
  where
    real : n ≢ no_sector
    real = omega (arith, ok.valid.small)

    fresh : (q : ℕ) → q < places → slot v.disk i q ≢ n
    fresh q hq e =
        let used = ok.used q hq (λ z. real (sym e ∙ z)) in
        cc (sym unused ∙ ap (bit v.free_map) (sym e) ∙ used)

module _ (v : Volume) (i r : ℕ) (pos : 0 < r) (h : r < places)
    (owned : slot v.disk i (owner r) ≢ no_sector) where
  abbrev pub table : ℕ
  table = slot v.disk i (owner r)

  abbrev pub read : ℕ
  read = v.disk table (word r)

  read-slot : read ≡ slot v.disk i r
  read-slot = sym (slot-owner v.disk i r pos h ∙ entry-real v.disk table (word r) owned)

  put_same : put_word v.disk table (word r) read ≡ v.disk
  put_same = fun_ext (λ t. fun_ext (λ j. ground arith))

  -- A lookup without `write` only reads: a pointer that is not there stops the lookup.
  pub lookup_entry-read : lookup_entry v table (word r) false ≡ some (slot v.disk i r, v)
  unfolding lookup_entry
  lookup_entry-read = elim (eq-cases read no_sector) [
    | inl (e, test) ↦ rw test (ap (λ s. some (s, v)) (sym e ∙ read-slot))
    | inr (e, test) ↦ rw test (ap (λ s. some (s, v)) read-slot)
  ]

  pub follow-read :
      (slot v.disk i r ≢ no_sector → is_sector (slot v.disk i r) ≡ true)
      → follow v table (word r) false ≡ some (slot v.disk i r, v)
  unfolding follow access_indirect_block
  follow-read is_real = elim (eq-cases read no_sector) [
    | inl (e, test) ↦ rw test (ap (λ s. some (s, v)) (sym e ∙ read-slot))
    | inr (e, test) ↦
        let sector : is_sector read ≡ true =
          ap is_sector read-slot ∙ is_real (λ z. e (read-slot ∙ z)) in
        rw (test, sector)
          (ap (λ d. some (read, record v { disk = d })) put_same ∙ ap (λ s. some (s, v)) read-slot)
  ]

module _ (v : Volume) (i r : ℕ) (ok : IsIndex v i) (pos : 0 < r) (h : r < places)
    (owned : slot v.disk i (owner r) ≢ no_sector) where
  abbrev table₁ : ℕ
  table₁ = slot v.disk i (owner r)

  abbrev read₁ : ℕ
  read₁ = v.disk table₁ (word r)

  here_Placed : slot v.disk i r ≢ no_sector → Placed v i r read₁ v
  here_Placed real = record {
    index = ok;
    here = sym (read-slot v i r pos h owned);
    others = λ q hq differs. refl;
    real = rw (read-slot v i r pos h owned) (ok.on_device r h real);
    old = λ z. (read-slot v i r pos h owned);
    kept = Kept-refl v i;
  }

  -- The first three words of an inode name no sector.
  pub not_entry : (w : ℕ) → w < 3 → (i ≢ table₁) ⊎ (w ≢ word r)
  not_entry w below = elim (eq-cases (owner r) 0) [
    | inl (e, _) ↦ inr (ground arith)
    | inr (e, _) ↦ inl (λ z.
        ok.apart 0 (owner r) (omega arith) (omega (arith, owner-lt r pos h)) (λ y. e (sym y))
          (λ y. ok.inode_real (sym (slot_zero v.disk i) ∙ y)) (slot_zero v.disk i ∙ z))
  ]

  new_Placed :
      (n : ℕ) (d' : Disk) (b : Bitmap)
      → n < v.free_map.bit_cnt
      → bit v.free_map n ≡ false
      → Filled v.free_map n 1 true b
      → slot v.disk i r ≡ no_sector
      → (IsFree v.disk i r n → Installs v.disk i r n d')
      → Placed v i r n (record { disk = d'; free_map = b })
  new_Placed n d' b small unused filled vacant make =
      let free = is_new v i n r ok small unused h pos vacant owned in
      let made = make free in
      record {
        index =
            install-IsIndex v (record { disk = d'; free_map = b }) i r n ok free made small filled;
        here = slot_new v.disk d' i r n free made ok.apart;
        others = slot_old v.disk d' i r n free made ok.apart;
        real = omega (arith, filled.cnt);
        old = λ z. absurd (z vacant);
        kept = record {
          head = λ w below.
              made.keep i w (λ z. free.fresh 0 (omega arith) (slot_zero v.disk i ∙ z))
                (not_entry w below);
          contents = λ q w lo hi there. made.keep (slot v.disk i q) w (free.fresh q hi) (
              inl (
                ok.apart q (owner r) hi (omega (arith, owner-lt r pos h))
                  (omega (arith, owner-lt r pos h)) there));
          framed =
              install-Frame v (record { disk = d'; free_map = b }) i r n ok free made unused filled;
        };
      }

  make_table :
      (n : ℕ)
      → IsFree v.disk i r n
      → Installs v.disk i r n (put_word (fill_sector v.disk n no_sector) table₁ (word r) n)
  make_table n free = record {
    hit = put_hit (fill_sector v.disk n no_sector) table₁ (word r) n;
    keep = λ t w other place.
        put_other (fill_sector v.disk n no_sector) table₁ (word r) n t w place
        ∙ fill_other v.disk n no_sector t w other;
    empty = λ table_place w.
        put_other (fill_sector v.disk n no_sector) table₁ (word r) n n w
          (inl (λ z. free.fresh (owner r) (omega (arith, owner-lt r pos h)) (sym z)))
        ∙ fill_hit v.disk n no_sector w;
  }

  make_entry :
      131 ≤ r
      → (n : ℕ) → IsFree v.disk i r n
      → Installs v.disk i r n (put_word v.disk table₁ (word r) n)
  make_entry data_place n free = record {
    hit = put_hit v.disk table₁ (word r) n;
    keep = λ t w other place. put_other v.disk table₁ (word r) n t w place;
    empty = λ table_place w. absurd (omega arith);
  }

  pub lookup_entry-Looked : 131 ≤ r → Looked v i r (lookup_entry v table₁ (word r) true)
  unfolding lookup_entry
  lookup_entry-Looked data_place = elim (eq-cases read₁ no_sector) [
    | inl (e, test) ↦
        rw test (elim (grant-Granted v (λ n. put_word v.disk table₁ (word r) n) ok.valid) [
          | inl full ↦ inl full
          | inr (n, b, ran, small, unused, filled) ↦ inr (
            n,
            record { disk = put_word v.disk table₁ (word r) n; free_map = b },
            ran,
            new_Placed n (put_word v.disk table₁ (word r) n) b small unused filled
                (sym (read-slot v i r pos h owned) ∙ e) (make_entry data_place n),
          )
        ])
    | inr (e, test) ↦
        rw test (inr (read₁, v, refl, here_Placed (λ z. e ((read-slot v i r pos h owned) ∙ z))))
  ]

  pub follow-Looked : Looked v i r (follow v table₁ (word r) true)
  unfolding follow access_indirect_block
  follow-Looked = elim (eq-cases read₁ no_sector) [
    | inl (e, test) ↦
        rw test (elim (grant-Granted v (λ n. fill_sector v.disk n no_sector) ok.valid) [
          | inl (full, taken) ↦ inl (rw full refl, taken)
          | inr (n, b, ran, small, unused, filled) ↦
              let sector : is_sector n ≡ true = real-is_sector v.free_map n ok.valid small in
              inr (
                n,
                record {
                  disk = put_word (fill_sector v.disk n no_sector) table₁ (word r) n;
                  free_map = b;
                },
                rw (ran, sector) refl,
                new_Placed n (put_word (fill_sector v.disk n no_sector) table₁ (word r) n) b small
                    unused filled (sym (read-slot v i r pos h owned) ∙ e) (make_table n),
              )
        ])
    | inr (e, test) ↦
        let placed = here_Placed (λ z. e ((read-slot v i r pos h owned) ∙ z)) in
        let sector : is_sector read₁ ≡ true =
          real-is_sector v.free_map read₁ ok.valid placed.real in
        rw test (
          inr (
            read₁,
            v,
            rw sector (ap (λ d. some (read₁, record v { disk = d })) (put_same v i r pos h owned)),
            placed,
          ))
  ]
