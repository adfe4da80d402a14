-- ===== src/Inode/Frame.antt =====
-- What a write to a file of filesys/inode.c leaves alone: the sectors that are not the file's.
use modeling_unix.Base.{
  ℕ, ◌<◌, ◌≡◌, ◌≢◌, ◌⊎◌, inl, inr, refl, sym, ap, ◌∙◌, true, false, arith, Bool-cases,
}
use modeling_unix.Bitmap.{Bitmap}
use modeling_unix.Bitmap.View.{bit}
use modeling_unix.Bitmap.Range.{Filled}
use modeling_unix.Inode.{Volume, no_sector}
use modeling_unix.Inode.Slots.{places, owner, owner-lt, slot, IsIndex}
use modeling_unix.Inode.Install.{Installs, IsFree, eq-cases, slot_new, slot_old, still}

-- a sector that is not the file's
abbrev pub NotOf : Volume → (inode sector : ℕ) → Type 0
NotOf v i t = (r : ℕ) → r < places → slot v.disk i r ≢ t

-- The file keeps its sectors, its new ones were free, no sector in use was freed, and the sectors that
-- are not the file's have the words that they had.
pub record Frame (v : Volume) (i : ℕ) (v' : Volume) : Type 0 where
  pub keeps :
      (q : ℕ) → q < places → slot v.disk i q ≢ no_sector → slot v'.disk i q ≡ slot v.disk i q
  pub new_free :
      (q : ℕ)
      → q < places
      → slot v'.disk i q ≢ no_sector
      → (slot v.disk i q ≡ slot v'.disk i q) ⊎ (bit v.free_map (slot v'.disk i q) ≡ false)
  pub used : (s : ℕ) → bit v.free_map s ≡ true → bit v'.free_map s ≡ true
  pub size : v'.free_map.bit_cnt ≡ v.free_map.bit_cnt
  pub frame : (t w : ℕ) → t ≢ no_sector → NotOf v' i t → v'.disk t w ≡ v.disk t w

pub Frame-refl : (v : Volume) (i : ℕ) → Frame v i v
Frame-refl v i = record {
  keeps = λ q h real. refl;
  new_free = λ q h real. inl refl;
  used = λ s u. u;
  size = refl;
  frame = λ t w real out. refl;
}

pub Frame-trans : (v v₁ v' : Volume) (i : ℕ) → Frame v i v₁ → Frame v₁ i v' → Frame v i v'
Frame-trans v v₁ v' i first second = record {
  keeps = λ q h real. let e = first.keeps q h real in second.keeps q h (λ z. real (sym e ∙ z)) ∙ e;
  new_free = λ q h real. elim (second.new_free q h real) [
    | inr clear ↦ inr (was_free v v₁ first.used (slot v'.disk i q) clear)
    | inl e ↦ elim (first.new_free q h (λ z. real (sym e ∙ z))) [
      | inl e' ↦ inl (e' ∙ e)
      | inr clear ↦ inr (ap (bit v.free_map) (sym e) ∙ clear)
    ]
  ];
  used = λ s u. second.used s (first.used s u);
  size = second.size ∙ first.size;
  frame = λ t w real out.
      second.frame t w real out
      ∙ first.frame t w real (λ r h z. out r h (second.keeps r h (λ y. real (sym z ∙ y)) ∙ z));
}
  where
    was_free :
        (a b : Volume)
        → ((s : ℕ) → bit a.free_map s ≡ true → bit b.free_map s ≡ true)
        → (s : ℕ) → bit b.free_map s ≡ false
        → bit a.free_map s ≡ false
    was_free a b used s clear = elim (Bool-cases (bit a.free_map s)) [
      | inr e ↦ e
      | inl e ↦ let both : true ≡ false = sym (used s e) ∙ clear in cc
    ]

-- A sector that was free is granted to an empty place.
pub install-Frame :
    (v v' : Volume) (i r n : ℕ)
    → IsIndex v i
    → IsFree v.disk i r n
    → Installs v.disk i r n v'.disk
    → bit v.free_map n ≡ false
    → Filled v.free_map n 1 true v'.free_map
    → Frame v i v'
install-Frame v v' i r n ok free made clear filled = record {
  keeps = λ q h real. old q h (λ e. real (ap (slot v.disk i) e ∙ free.vacant));
  new_free = λ q h real. elim (eq-cases q r) [
    | inl (e, _) ↦ inr (ap (bit v.free_map) (ap (slot v'.disk i) e ∙ new) ∙ clear)
    | inr (e, _) ↦ inl (sym (old q h e))
  ];
  used = λ s u. still v.free_map v'.free_map n s filled u;
  size = filled.cnt;
  frame = λ t w real out.
      let below = owner-lt r free.not_inode free.place_in in
      made.keep t w (λ z. out r free.place_in (new ∙ sym z))
        (inl (λ z.
          out (owner r) (omega (arith, free.place_in))
            (old (owner r) (omega (arith, free.place_in)) (omega arith) ∙ sym z)));
}
  where
    new : slot v'.disk i r ≡ n
    new = slot_new v.disk v'.disk i r n free made ok.apart

    old : (q : ℕ) → q < places → q ≢ r → slot v'.disk i q ≡ slot v.disk i q
    old = slot_old v.disk v'.disk i r n free made ok.apart

-- A write to a sector of the file that leaves the pointers as they are.
pub same-Frame :
    (v : Volume) (d' : Volume) (i r : ℕ)
    → r < places
    → ((q : ℕ) → q < places → slot d'.disk i q ≡ slot v.disk i q)
    → d'.free_map ≡ v.free_map
    → ((t w : ℕ) → t ≢ slot v.disk i r → d'.disk t w ≡ v.disk t w)
    → Frame v i d'
same-Frame v d' i r h same map others = record {
  keeps = λ q hq real. same q hq;
  new_free = λ q hq real. inl (sym (same q hq));
  used = λ s u. ap (λ b. bit b s) map ∙ u;
  size = ap Bitmap.bit_cnt map;
  frame = λ t w real out. others t w (λ z. out r h (same r h ∙ sym z));
}
