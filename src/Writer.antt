-- ===== src/Writer.antt =====
-- writer.go: the console, file and multi writers. Writer/Files.antt has the files that they use.
-- The answers of the operating system are arguments; the goroutines that a rotation starts are
-- the jobs of its result, and their bodies are in Writer/Compress.antt and Writer/Clean.antt.
pub mod Files
pub mod Ledger
pub mod Rotate
pub mod Keep
pub mod Refine
pub mod Fail
pub mod Sort
pub mod Clean
pub mod Compress
pub mod Multi
mod Tests
use onelog.Prelude.{
  ℕ, ◌+◌, ◌*◌, Bool, true, false, ◌&&◌, Option, none, some, List, [], ◌∷◌, ◌++◌, Bytes, codes,
  length, take, if◌then◌else◌, add64, lt64,
}
use onelog.Errors.{Error, foreign}
use onelog.Writer.Files.{Disk, content, put, created, or_empty, renamed}

-- A file that Close was called on stays in the field; its operations fail from then on.
pub data Handle : Type 0 where
  opened closed : Handle

-- Sizes, ages and counts are int64 patterns.
pub record FileWriter : Type 0 where
  pub filename : Bytes
  pub file : Option Handle
  pub max_size : ℕ
  pub max_age : ℕ
  pub max_backups : ℕ
  pub compress : Bool
  pub size : ℕ

abbrev pub FileWriterOption : Type 0
FileWriterOption = FileWriter → FileWriter

unfoldable pub with_max_size : ℕ → FileWriterOption
with_max_size n w = record w { max_size = n }

unfoldable pub with_max_age : ℕ → FileWriterOption
with_max_age n w = record w { max_age = n }

unfoldable pub with_max_backups : ℕ → FileWriterOption
with_max_backups n w = record w { max_backups = n }

unfoldable pub with_compress : Bool → FileWriterOption
with_compress b w = record w { compress = b }

-- The errors of the three calls that open a file.
pub record Opening : Type 0 where
  pub mkdir : Option Error
  pub create : Option Error
  pub stat : Option Error

abbrev pub open_steps :
    Option Error
    → Option Error
    → Option Error
    → FileWriter
    → Disk
    → FileWriter × Disk × Option Error
open_steps (some e) create stat w d = (w, d, some e)
open_steps none (some e) stat w d = (w, d, some e)
open_steps none none (some e) w d = (w, created (content d w.filename) d w.filename, some e)
open_steps none none none w d = (
  record w { file = some opened; size = length (or_empty (content d w.filename)) },
  created (content d w.filename) d w.filename,
  none,
)

unfoldable pub open_file : Opening → FileWriter → Disk → FileWriter × Disk × Option Error
open_file o w d = open_steps o.mkdir o.create o.stat w d

abbrev pub apply_options : List FileWriterOption → FileWriter → FileWriter
apply_options [] w = w
apply_options (o ∷ os) w = apply_options os (o w)

abbrev pub default_file_writer : Bytes → FileWriter
default_file_writer filename = record {
  filename = filename;
  file = none;
  max_size = 100 * 1024 * 1024;
  max_age = 7 * 24 * 3_600_000_000_000;
  max_backups = 5;
  compress = true;
  size = 0;
}

unfoldable pub new_file_writer :
    Bytes → List FileWriterOption → Opening → Disk → FileWriter × Disk × Option Error
unfolding open_file
new_file_writer filename options o d =
    open_file o (apply_options options (default_file_writer filename)) d

-- What the system answers during one call of Write. `stamp` is the time as the name of a backup
-- shows it; `fault` is, of a write that fails, how many bytes came through, and its error.
pub record Calls : Type 0 where
  pub first : Opening
  pub close_error : Option Error
  pub stamp : Bytes
  pub rename_error : Option Error
  pub second : Opening
  pub fault : Option (ℕ × Error)

-- The goroutines of a rotation.
pub data Job : Type 0 where
  compression : Bytes → Job
  clean_up : Job

pub record Rotation : Type 0 where
  pub writer : FileWriter
  pub disk : Disk
  pub error : Option Error
  pub jobs : List Job

-- `os.ErrClosed` and `os.ErrInvalid`.
abbrev pub already_closed : Error
already_closed = foreign (codes "file already closed")

abbrev pub invalid : Error
invalid = foreign (codes "invalid argument")

-- `File.Close`: the file is closed then, also when the call fails.
abbrev pub close_handle : Option Handle → Option Error → Option Error
close_handle none answer = some invalid
close_handle (some closed) answer = some already_closed
close_handle (some opened) answer = answer

abbrev pub after_close : Option Handle → Option Handle
after_close none = none
after_close (some h) = some closed

abbrev pub rotated_name : FileWriter → Bytes → Bytes
rotated_name w stamp = w.filename ++ (b'.' ∷ stamp)

abbrev pub compress_jobs : FileWriter → Bytes → List Job
compress_jobs w name = if w.compress then compression name ∷ [] else []

abbrev pub reopened : List Job → FileWriter × Disk × Option Error → Rotation
reopened jobs (w, d, some e) = record { writer = w; disk = d; error = some e; jobs = jobs }
reopened jobs (w, d, none) = record {
  writer = w;
  disk = d;
  error = none;
  jobs = jobs ++ clean_up ∷ [];
}

abbrev pub rotate_steps :
    Option Error → Option Error → Bytes → Opening → FileWriter → Disk → Rotation
rotate_steps (some e) rename stamp o w d = record {
  writer = w;
  disk = d;
  error = some e;
  jobs = [];
}
rotate_steps none (some e) stamp o w d = record { writer = w; disk = d; error = some e; jobs = [] }
rotate_steps none none stamp o w d =
    let name = rotated_name w stamp in
    reopened (compress_jobs w name)
      (open_file o w (renamed (content d w.filename) d w.filename name))

unfoldable pub rotate : Calls → FileWriter → Disk → Rotation
unfolding open_file
rotate c w d =
    rotate_steps (close_handle w.file c.close_error) c.rename_error c.stamp c.second
      (record w { file = after_close w.file }) d

-- The result of Write: the count and the error it returns, and the jobs it has started.
pub record Written : Type 0 where
  pub writer : FileWriter
  pub disk : Disk
  pub count : ℕ
  pub error : Option Error
  pub jobs : List Job

-- `File.Write` under `O_APPEND`, and the new size.
abbrev pub appended : FileWriter → Disk → List Job → Bytes → Option Error → Written
appended w d jobs p e = record {
  writer = record w { size = add64 w.size (length p) };
  disk = put d w.filename (or_empty (content d w.filename) ++ p);
  count = length p;
  error = e;
  jobs = jobs;
}

abbrev pub write_handle :
    Option Handle → Option (ℕ × Error) → FileWriter → Disk → List Job → Bytes → Written
write_handle none fault w d jobs p = record {
  writer = w;
  disk = d;
  count = 0;
  error = some invalid;
  jobs = jobs;
}
write_handle (some closed) fault w d jobs p = record {
  writer = w;
  disk = d;
  count = 0;
  error = some already_closed;
  jobs = jobs;
}
write_handle (some opened) none w d jobs p = appended w d jobs p none
write_handle (some opened) (some (n, e)) w d jobs p = appended w d jobs (take n p) (some e)

abbrev pub needs_rotation : FileWriter → Bytes → Bool
needs_rotation w p = lt64 0 w.max_size && lt64 w.max_size (add64 w.size (length p))

abbrev pub after_rotation : Calls → Bytes → Rotation → Written
after_rotation c p r = write_rotated r.error
  where
    write_rotated : Option Error → Written
    write_rotated (some e) = record {
      writer = r.writer;
      disk = r.disk;
      count = 0;
      error = some e;
      jobs = r.jobs;
    }
    write_rotated none = write_handle r.writer.file c.fault r.writer r.disk r.jobs p

pub write_opened : Calls → Bytes → FileWriter × Disk × Option Error → Written
unfolding rotate
write_opened c p (w, d, some e) = record {
  writer = w;
  disk = d;
  count = 0;
  error = some e;
  jobs = [];
}
write_opened c p (w, d, none) =
    if needs_rotation w p
    then after_rotation c p (rotate c w d)
    else write_handle w.file c.fault w d [] p

pub opened_for_write : Option Handle → Calls → FileWriter → Disk → FileWriter × Disk × Option Error
unfolding open_file
opened_for_write none c w d = open_file c.first w d
opened_for_write (some h) c w d = (w, d, none)

unfoldable pub write_file : Calls → FileWriter → Disk → Bytes → Written
unfolding write_opened opened_for_write
write_file c w d p = write_opened c p (opened_for_write w.file c w d)

abbrev pub close_steps : Option Handle → Option Error → FileWriter → FileWriter × Option Error
close_steps none answer w = (w, none)
close_steps (some h) answer w = (record w { file = none }, close_handle (some h) answer)

unfoldable pub close_file : Option Error → FileWriter → FileWriter × Option Error
close_file answer w = close_steps w.file answer w
