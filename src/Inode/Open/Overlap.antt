-- ===== src/Inode/Open/Overlap.antt =====
-- Two calls of `inode_open` of filesys/inode.c at the same time: the list's lock is free between the search
-- and the insertion of each.
use modeling_unix.Base.{ℕ, ◌+◌, if◌then◌else◌, ◌==◌, List, [], ◌∷◌}
use modeling_unix.Inode.Open.{Inode}

abbrev pub entries : (sector : ℕ) → List Inode → ℕ
entries t [] = 0
entries t (x ∷ xs) = if x.sector == t then entries t xs + 1 else entries t xs
