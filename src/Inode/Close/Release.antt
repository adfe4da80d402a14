-- ===== src/Inode/Close/Release.antt =====
-- Closing a removed file of filesys/inode.c gives back its sectors, and no others.
use modeling_unix.Base.{ℕ, ◌+◌, ◌≡◌, Bool, ◌&&◌, ◌||◌, Option, some, List, ltb, leb, ◌==◌}
use modeling_unix.Bitmap.{Bitmap}
use modeling_unix.Inode.{Volume, inode_length}
use modeling_unix.Inode.Slots.{IsIndex}
use modeling_unix.Inode.Close.Steps.{at, Gives}

-- the data's first `m` sectors, and the places after each of the other steps
abbrev contents : ℕ → ℕ → Bool
contents m q = leb 131 q && ltb q (131 + m)

abbrev with_table : ℕ → ℕ → Bool
with_table m q = contents m q || q == 1

abbrev with_entries : (m k : ℕ) → ℕ → Bool
with_entries m k q = with_table m q || (leb 3 q && ltb q (3 + k))

abbrev with_tables : ℕ → ℕ → Bool
with_tables m q = with_entries m 128 q || q == 2

module _ {File : Type 0} (write_at : File → List ℕ → ℕ → Option (ℕ × File))
    (returns : (file : File) (words : List ℕ) (size : ℕ)
      → (r : ℕ × File) × (write_at file words size ≡ some r))
    (v : Volume) (i : ℕ) (ok : IsIndex v i) where
  abbrev Given : (done : ℕ → Bool) → Option (Volume × File) → Type 0
  Given = Gives write_at returns v i ok

  abbrev set : Bitmap → Volume
  set = at write_at returns v i ok

  abbrev length_now : ℕ
  length_now = inode_length v i
