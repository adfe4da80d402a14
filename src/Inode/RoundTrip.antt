-- ===== src/Inode/RoundTrip.antt =====
-- A write of filesys/inode.c and the read after it.
use modeling_unix.Base.{
  ℕ, ◌+◌, ◌-◌, ◌*◌, ◌%◌, ◌≤◌, ◌<◌, ◌≡◌, ◌⊎◌, inl, inr, ap, ◌∙◌, map, some, List, length, take,
  arith,
}
use modeling_unix.Inode.{Volume, lesser, inode_length, inode_read_at, inode_write_at}
use modeling_unix.Inode.Slots.{IsIndex}
use modeling_unix.Inode.Grant.{Taken}
use modeling_unix.Inode.Sector.{max_sectors}
use modeling_unix.Inode.Bytes.{file_bytes, file_bytes-take, read_at-file_bytes}
use modeling_unix.Inode.WriteLoop.{write_at-Wrote}

-- A write to a well-formed file, below the largest size of a file, and then a read of as many bytes at
-- the same offset: the read gives the bytes of the buffer that were written, all of them unless the
-- device is full.
pub write_at-read_at :
    (v : Volume) (i : ℕ) (l : List ℕ) (offset : ℕ)
    → IsIndex v i
    → offset + length l ≤ max_sectors * 512
    → (n : ℕ) × (v' : Volume) × (inode_write_at v i 0 l offset ≡ some (n, v'))
      × (inode_read_at v' i n offset ≡ some (take n (map (λ b. b % 256) l), v'))
      × ((n ≡ length l) ⊎ ((n < length l) × Taken v'.free_map))
unfolding inode_length
write_at-read_at v i l p ok room =
    let (n, v', ran, w) = write_at-Wrote v i l p ok room in
    let fits : n ≤ length l = elim w.all [ inl e ↦ omega arith | inr (few, _) ↦ omega arith ] in
    let whole : lesser n (v'.disk i 0 - p) ≡ n = ground (arith, w.length_now) in
    (
      n,
      v',
      ran,
      read_at-file_bytes v' i n p w.index
          ∙ ap (λ k. some (file_bytes k v' i p, v')) whole
          ∙ ap (λ bytes. some (bytes, v')) (file_bytes-take n v' i p l fits w.new),
      w.all,
    )
