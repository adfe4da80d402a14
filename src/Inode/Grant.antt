-- ===== src/Inode/Grant.antt =====
-- `free_map_allocate` as filesys/inode.c calls it: a new sector, or none is left.
use modeling_unix.Base.{
  ℕ, ◌<◌, ◌≡◌, ◌⊎◌, inl, inr, refl, ap, ◌∙◌, Bool, true, false, Option, none, some, arith,
  Bool-cases,
}
use modeling_unix.Bitmap.{Bitmap}
use modeling_unix.Bitmap.View.{IsValid, bit}
use modeling_unix.Bitmap.Scan.{Run}
use modeling_unix.Bitmap.Range.{Filled}
use modeling_unix.FreeMap.{free_map_allocate}
use modeling_unix.FreeMap.Laws.{Allocated, allocate-Allocated}
use modeling_unix.Inode.{Disk, Volume, no_space, grant}

-- no sector is left
abbrev pub Taken : Bitmap → Type 0
Taken b = (s : ℕ) → s < b.bit_cnt → bit b s ≡ true

-- the outcomes of `grant`
abbrev pub Granted : Volume → (ℕ → Disk) → Type 0
Granted v install =
    ((grant v install ≡ some (no_space, v)) × Taken v.free_map)
    ⊎ ((n : ℕ) × (b : Bitmap) × (grant v install
          ≡ some (n, record { disk = install n; free_map = b }))
        × (n < v.free_map.bit_cnt)
        × (bit v.free_map n ≡ false)
        × Filled v.free_map n 1 true b)

pub grant-Granted : (v : Volume) (install : ℕ → Disk) → IsValid v.free_map → Granted v install
unfolding grant
grant-Granted v install ok = pick (allocate-Allocated v.free_map 1 ok)
  where
    taken : (f : ℕ → Bool) (s : ℕ) → ¬ Run f s 1 false → f s ≡ true
    taken f s nothing = elim (Bool-cases (f s)) [
      | inl e ↦ e
      | inr e ↦ absurd (nothing (λ j lo hi. ap f (omega arith) ∙ e))
    ]

    pick :
        (r : Option ℕ) × (b : Bitmap) × (free_map_allocate v.free_map 1 ≡ some (r, b))
          × Allocated v.free_map 1 r b
        → Granted v install
    pick (none, b, ran, (nothing, same)) = inl (
      rw (ran, same) refl,
      λ s h. taken (bit v.free_map) s (nothing s (omega arith) (omega arith)),
    )
    pick (some n, b, ran, (room, run, least, filled)) =
        inr (n, b, rw ran refl, omega (arith, room), run n (omega arith) (omega arith), filled)
