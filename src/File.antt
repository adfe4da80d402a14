-- ===== src/File.antt =====
-- filesys/file.c: open files, over the inodes and the pipes. A file is its fields; `self` is its address,
-- by which a pipe knows its ends. The list of the open files, which only collects them, and the denial of
-- writes are left out.
pub mod RoundTrip
mod Tests
use modeling_unix.Base.{
  ℕ, zero, suc, ◌+◌, Bool, not, Option, none, some, List, [], ◌∷◌, length, take, drop, ltb, ◌==◌,
  if◌then◌else◌, assert, ◌>>=◌, ◌>>◌, ◌++◌, leb, ◌&&◌, true, false,
}
use modeling_unix.Base.Int.{ℤ, pos, sub_ℕ, pos_part, leb_ℤ}
use modeling_unix.Monitor.{Outcome, done, waiting}
use modeling_unix.Inode.{Volume, inode_read_at, inode_write_at, inode_length}
use modeling_unix.Pipe.{Pipe, same_file, pipe_read, pipe_write}

pub data FileType : Type 0 where
  stdin stdout reg dir pipe : FileType

pub record File : Type 0 where
  pub self : ℕ
  pub type : FileType
  pub inode : ℕ
  pub position : ℕ
  pub ref_count : ℕ

-- What the file is about: the volume and how often writes to the inode are denied, the pipe and the states
-- in which its lock comes back, the keys that are typed, and what the console shows.
pub record World : Type 0 where
  pub volume : Volume
  pub denied : ℕ
  pub pipe_of : Pipe
  pub wakes : List Pipe
  pub keys : List ℕ
  pub console : List ℕ

abbrev pub einvf : ℕ
einvf = 13

abbrev pub ebadf : ℕ
ebadf = 113

abbrev pub eisdir : ℕ
eisdir = 123

-- the error for a file that is not this end of its pipe
abbrev pub type_error : FileType → (is_end : Bool) → ℕ
type_error pipe is_end = if is_end then 0 else ebadf
type_error dir is_end = eisdir
type_error t is_end = 0

pub read_error : Option File → World → ℕ
read_error none w = einvf
read_error (some f) w = type_error f.type (same_file w.pipe_of.read_end f.self)

pub write_error : Option File → World → ℕ
write_error none w = einvf
write_error (some f) w = type_error f.type (same_file w.pipe_of.write_end f.self)

-- the result, the bytes that were read, and the file and the rest afterwards
pub record Answer : Type 0 where
  pub result : ℤ
  pub bytes : List ℕ
  pub file : Option File
  pub world : World

abbrev pub failed : (error : ℕ) → Option File → World → Answer
failed error f w = record { result = sub_ℕ 0 error; bytes = []; file = f; world = w }

abbrev pub advance : File → (by : ℕ) → File
advance f by = record f { position = f.position + by }

abbrev pub from_inode : File → World → Option (List ℕ × Volume) → Option (Outcome Answer)
from_inode f w none = none
from_inode f w (some (bytes, v)) = some (
    done (record {
      result = pos (length bytes);
      bytes = bytes;
      file = some (advance f (length bytes));
      world = record w { volume = v };
    }))

abbrev pub from_pipe :
    File → World → Outcome (ℕ × List ℕ × Pipe × List Pipe) → Option (Outcome Answer)
from_pipe f w waiting = some waiting
from_pipe f w (done (n, bytes, p, wakes)) = some (
    done (record {
      result = pos n;
      bytes = bytes;
      file = some f;
      world = record w { pipe_of = p; wakes = wakes };
    }))

abbrev pub read_type : FileType → File → World → (size : ℕ) → Option (Outcome Answer)
read_type stdin f w size =
    if ltb (length w.keys) size
    then some waiting
    else some (
        done (record {
          result = pos size;
          bytes = take size w.keys;
          file = some f;
          world = record w { keys = drop size w.keys };
        }))
read_type stdout f w size =
    some (done (record { result = pos 0; bytes = []; file = some f; world = w }))
read_type pipe f w size = from_pipe f w (pipe_read w.wakes w.pipe_of size)
read_type reg f w size = from_inode f w (inode_read_at w.volume f.inode size f.position)
read_type dir f w size =
    some (done (record { result = sub_ℕ 0 1; bytes = []; file = some f; world = w }))

abbrev pub read_checked : (error : ℕ) → Option File → World → (size : ℕ) → Option (Outcome Answer)
read_checked (suc error) f w size = some (done (failed (suc error) f w))
read_checked zero none w size = none
read_checked zero (some f) w size = read_type f.type f w size

pub file_read : Option File → World → (size : ℕ) → Option (Outcome Answer)
file_read f w size = read_checked (read_error f w) f w size

abbrev pub into_inode : File → World → Option (ℕ × Volume) → Option (Outcome Answer)
into_inode f w none = none
into_inode f w (some (n, v)) = some (
    done (record {
      result = pos n;
      bytes = [];
      file = some (advance f n);
      world = record w { volume = v };
    }))

abbrev pub into_pipe : File → World → Outcome (ℕ × Pipe × List Pipe) → Option (Outcome Answer)
into_pipe f w waiting = some waiting
into_pipe f w (done (n, p, wakes)) = some (
    done (record {
      result = pos n;
      bytes = [];
      file = some f;
      world = record w { pipe_of = p; wakes = wakes };
    }))

abbrev pub write_type : FileType → File → World → (buffer : List ℕ) → Option (Outcome Answer)
write_type stdin f w buffer =
    some (done (record { result = pos 0; bytes = []; file = some f; world = w }))
write_type stdout f w buffer = some (
    done (record {
      result = pos (length buffer);
      bytes = [];
      file = some f;
      world = record w { console = w.console ++ buffer };
    }))
write_type pipe f w buffer = into_pipe f w (pipe_write w.wakes w.pipe_of buffer)
write_type reg f w buffer =
    into_inode f w (inode_write_at w.volume f.inode w.denied buffer f.position)
write_type dir f w buffer =
    some (done (record { result = sub_ℕ 0 1; bytes = []; file = some f; world = w }))

abbrev pub write_checked :
    (error : ℕ) → Option File → World → (buffer : List ℕ) → Option (Outcome Answer)
write_checked (suc error) f w buffer = some (done (failed (suc error) f w))
write_checked zero none w buffer = none
write_checked zero (some f) w buffer = write_type f.type f w buffer

pub file_write : Option File → World → (buffer : List ℕ) → Option (Outcome Answer)
file_write f w buffer = write_checked (write_error f w) f w buffer

pub file_seek : File → (new_pos : ℤ) → Option File
file_seek f new_pos =
    assert (leb_ℤ (pos 0) new_pos) >> some (record f { position = pos_part new_pos })

abbrev pub file_tell : File → ℕ
file_tell f = f.position

pub file_length : World → File → ℕ
file_length w f = inode_length w.volume f.inode

pub file_dup : Option File → Option (Option File)
file_dup none = some none
file_dup (some f) =
    assert (ltb 0 f.ref_count) >> some (some (record f { ref_count = f.ref_count + 1 }))
