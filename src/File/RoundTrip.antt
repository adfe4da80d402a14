-- ===== src/File/RoundTrip.antt =====
-- A write to a file of filesys/file.c, and a read of it from where the write began.
use modeling_unix.Base.{
  ℕ, suc, ◌+◌, ◌*◌, ◌%◌, ◌≤◌, ◌<◌, ◌≡◌, ◌⊎◌, inl, inr, refl, ap, ◌∙◌, some, List, [], ◌∷◌, map,
  length, take, arith, length-take, assert, ◌>>◌, true,
}
use modeling_unix.Base.Int.{pos, leb_ℤ}
use modeling_unix.Monitor.{done}
use modeling_unix.Pipe.{same_file}
use modeling_unix.Inode.{Volume, inode_read_at, inode_write_at}
use modeling_unix.Inode.Slots.{IsIndex}
use modeling_unix.Inode.Grant.{Taken}
use modeling_unix.Inode.Sector.{max_sectors}
use modeling_unix.Inode.RoundTrip.{write_at-read_at}
use modeling_unix.File.{
  File, World, reg, advance, file_read, file_write, file_seek, read_error, write_error,
  read_checked, write_checked, type_error, from_inode, into_inode, read_type, write_type,
}

length-map_bytes : (l : List ℕ) → length (map (λ b. b % 256) l) ≡ length l
length-map_bytes [] = refl
length-map_bytes (b ∷ l) = ap suc (length-map_bytes l)

length-written : (n : ℕ) (l : List ℕ) → n ≤ length l → length (take n (map (λ b. b % 256) l)) ≡ n
length-written n l h = omega (arith, length-take n (map (λ b. b % 256) l), length-map_bytes l)

file_write-reg :
    (f : File) (w : World) (l : List ℕ)
    → f.type ≡ reg
    → file_write (some f) w l
      ≡ into_inode f w (inode_write_at w.volume f.inode w.denied l f.position)
unfolding file_write write_error
file_write-reg f w l e =
    ap (λ t. write_checked (type_error t (same_file w.pipe_of.write_end f.self)) (some f) w l) e
    ∙ ap (λ t. write_type t f w l) e

file_read-reg :
    (f : File) (w : World) (n : ℕ)
    → f.type ≡ reg
    → file_read (some f) w n ≡ from_inode f w (inode_read_at w.volume f.inode n f.position)
unfolding file_read read_error
file_read-reg f w n e =
    ap (λ t. read_checked (type_error t (same_file w.pipe_of.read_end f.self)) (some f) w n) e
    ∙ ap (λ t. read_type t f w n) e

seek-back : (f : File) (n : ℕ) → file_seek (advance f n) (pos f.position) ≡ some f
unfolding file_seek
seek-back f n =
    let t : leb_ℤ (pos 0) (pos f.position) ≡ true = ground arith in ap (λ b. assert b >> some f) t

-- A regular file that is well formed and not denied, where what is written ends below the largest size of
-- a file: `file_write` moves the position behind what it has written, `file_seek` takes it back, and
-- `file_read` of as many bytes gives the bytes that were written, all of them unless the device is full,
-- and leaves the file where the write has left it.
pub write-read :
    (f : File) (w : World) (l : List ℕ)
    → f.type ≡ reg
    → w.denied ≡ 0
    → IsIndex w.volume f.inode
    → f.position + length l ≤ max_sectors * 512
    → (n : ℕ) × (v : Volume) × (file_write (some f) w l
        ≡ some (
            done (record {
              result = pos n;
              bytes = [];
              file = some (advance f n);
              world = record w { volume = v };
            })))
      × (file_seek (advance f n) (pos f.position) ≡ some f)
      × (file_read (some f) (record w { volume = v }) n
          ≡ some (
              done (record {
                result = pos n;
                bytes = take n (map (λ b. b % 256) l);
                file = some (advance f n);
                world = record w { volume = v };
              })))
      × ((n ≡ length l) ⊎ ((n < length l) × Taken v.free_map))
write-read f w l e d ok room =
    let (n, v, wrote, got, all) = write_at-read_at w.volume f.inode l f.position ok room in
    let fits : n ≤ length l = elim all [ inl x ↦ omega arith | inr (few, x) ↦ omega arith ] in
    (
      n,
      v,
      file_write-reg f w l e
          ∙ ap (λ k. into_inode f w (inode_write_at w.volume f.inode k l f.position)) d
          ∙ ap (into_inode f w) wrote,
      seek-back f n,
      file_read-reg f (record w { volume = v }) n e
          ∙ ap (from_inode f (record w { volume = v })) got
          ∙ ap
              (λ k. some (
                done (record {
                  result = pos k;
                  bytes = take n (map (λ b. b % 256) l);
                  file = some (advance f k);
                  world = record w { volume = v };
                })))
              (length-written n l fits),
      all,
    )
