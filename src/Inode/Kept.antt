-- ===== src/Inode/Kept.antt =====
-- What `byte_to_sector` of filesys/inode.c leaves as it was.
use modeling_unix.Base.{ℕ, ◌≤◌, ◌<◌, ◌≡◌, ◌≢◌, refl, sym, ap, ◌∙◌}
use modeling_unix.Inode.{Volume, no_sector}
use modeling_unix.Inode.Frame.{Frame, Frame-refl, Frame-trans}
use modeling_unix.Inode.Slots.{places, slot}

-- The words of the inode that name no sector, and the data, are as before.
pub record Kept (v : Volume) (i : ℕ) (v' : Volume) : Type 0 where
  pub head : (w : ℕ) → w < 3 → v'.disk i w ≡ v.disk i w
  pub contents :
      (q w : ℕ)
      → 131 ≤ q
      → q < places
      → slot v.disk i q ≢ no_sector
      → v'.disk (slot v.disk i q) w ≡ v.disk (slot v.disk i q) w
  pub framed : Frame v i v'

pub Kept-refl : (v : Volume) (i : ℕ) → Kept v i v
Kept-refl v i = record {
  head = λ w below. refl;
  contents = λ q w lo hi real. refl;
  framed = Frame-refl v i;
}

pub Kept-trans :
    (v v₁ v' : Volume) (i : ℕ)
    → ((q : ℕ) → 131 ≤ q → q < places → slot v₁.disk i q ≡ slot v.disk i q)
    → Kept v i v₁
    → Kept v₁ i v'
    → Kept v i v'
Kept-trans v v₁ v' i same first second = record {
  head = λ w below. second.head w below ∙ first.head w below;
  contents = λ q w lo hi real.
      let e = same q lo hi in
      ap (λ s. v'.disk s w) (sym e)
      ∙ second.contents q w lo hi (λ z. real (sym e ∙ z))
      ∙ ap (λ s. v₁.disk s w) e
      ∙ first.contents q w lo hi real;
  framed = Frame-trans v v₁ v' i first.framed second.framed;
}
