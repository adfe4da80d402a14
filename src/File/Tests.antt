-- ===== src/File/Tests.antt =====
-- Runs of filesys/file.c.
use modeling_unix.Base.{ℕ, ◌%◌, ◌<◌, ◌≡◌, ◌⊎◌, refl, none, some, [], map, length, take, arith}
use modeling_unix.Base.Int.{pos}
use modeling_unix.Monitor.{done}
use modeling_unix.Pipe.{Pipe}
use modeling_unix.Inode.{Volume}
use modeling_unix.Inode.Grant.{Taken}
use modeling_unix.Inode.Tests.{file, buffer, file-IsIndex}
use modeling_unix.File.{
  File, World, FileType, reg, dir, advance, file_read, file_write, file_seek, failed, read_error,
  eisdir,
}
use modeling_unix.File.RoundTrip.{write-read}

abbrev no_pipe : Pipe
no_pipe = record {
  ring = record { buffer = []; capacity = 0; head = 0; tail = 0 };
  read_end = none;
  write_end = none;
  notified = [];
}

abbrev world : World
world = record { volume = file; denied = 0; pipe_of = no_pipe; wakes = []; keys = []; console = [] }

abbrev open_file : FileType → File
open_file t = record { self = 5; type = t; inode = 1; position = 510; ref_count = 1 }

write-read_example :
    (n : ℕ) × (v : Volume) × (file_write (some (open_file reg)) world buffer
      ≡ some (
          done (record {
            result = pos n;
            bytes = [];
            file = some (advance (open_file reg) n);
            world = record world { volume = v };
          })))
    × (file_seek (advance (open_file reg) n) (pos 510) ≡ some (open_file reg))
    × (file_read (some (open_file reg)) (record world { volume = v }) n
        ≡ some (
            done (record {
              result = pos n;
              bytes = take n (map (λ b. b % 256) buffer);
              file = some (advance (open_file reg) n);
              world = record world { volume = v };
            })))
    × ((n ≡ length buffer) ⊎ ((n < length buffer) × Taken v.free_map))
write-read_example = write-read (open_file reg) world buffer refl refl file-IsIndex (omega arith)

read_dir_run :
    file_read (some (open_file dir)) world 3
    ≡ some (done (failed eisdir (some (open_file dir)) world))
unfolding file_read read_error
read_dir_run = refl
