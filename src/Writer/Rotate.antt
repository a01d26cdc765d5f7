-- ===== src/Writer/Rotate.antt =====
-- What `FileWriter.Write` does to the writer and the files, where no call fails.
use onelog.Prelude.{
  ◌+◌, ◌^◌, ◌<◌, ◌≡◌, refl, sym, ap, ap₂, ◌∙◌, true, false, none, some, List, [], ◌∷◌, ◌++◌, Bytes,
  length, length-append, if◌then◌else◌, add64, lt64_exact, All, arith,
}
use onelog.Writer.Files.{
  Disk, content, put, content-put_self, content-put_ne, content-remove_self, remove, renamed,
  created, or_empty,
}
use onelog.Writer.{
  FileWriter, opened, Calls, Opening, write_file, rotated_name, needs_rotation, rotate, open_file,
  rotate_steps, close_handle, after_close, reopened, compress_jobs, clean_up, Job, closed,
  write_opened, opened_for_write, after_rotation, write_handle,
}
use onelog.Writer.Ledger.{Ledger, overflows}

abbrev pub IsQuiet : Opening → Type 0
IsQuiet o = (o.mkdir ≡ none) × (o.create ≡ none) × (o.stat ≡ none)

pub record IsFaultless (c : Calls) : Type 0 where
  pub closes : c.close_error ≡ none
  pub renames : c.rename_error ≡ none
  pub opens : IsQuiet c.second
  pub writes : c.fault ≡ none

-- The ledger that a writer and its files hold.
pub record Holds (w : FileWriter) (d : Disk) (l : Ledger) : Type 0 where
  pub ready : w.file ≡ some opened
  pub current : content d w.filename ≡ some l.current
  pub measured : w.size ≡ length l.current
  pub limited : w.max_size < 2 ^ 63
  pub kept : All (λ b. content d (rotated_name w b.0) ≡ some b.1) l.backups

abbrev pub IsFresh : Bytes → Ledger → Type 0
IsFresh stamp l = All (λ b. ¬ (b.0 ≡ stamp)) l.backups

pub rotated_name_ne : (w : FileWriter) (stamp : Bytes) → ¬ (rotated_name w stamp ≡ w.filename)
rotated_name_ne w stamp e = absurd (longer w.filename (ap length e))
  where
    longer : (f : Bytes) → ¬ (length (f ++ (b'.' ∷ stamp)) ≡ length f)
    longer f h = omega (arith, length-append f (b'.' ∷ stamp))

pub needs_rotation_lem :
    (w : FileWriter) (d : Disk) (l : Ledger) (p : Bytes)
    → Holds w d l
    → length l.current + length p < 2 ^ 63
    → needs_rotation w p ≡ overflows w.max_size l p
needs_rotation_lem w d l p h small =
    let total : add64 w.size (length p) ≡ length l.current + length p =
      rw (h.measured) (omega arith) in
    rw
      (
        total,
        lt64_exact 0 w.max_size (omega arith) h.limited,
        lt64_exact w.max_size (length l.current + length p) h.limited small,
      )
      refl

-- One write under the limit appends.
pub append_lem :
    (c : Calls) (w : FileWriter) (d : Disk) (l : Ledger) (p : Bytes)
    → Holds w d l
    → IsFaultless c
    → needs_rotation w p ≡ false
    → write_file c w d p ≡ record {
      writer = record w { size = add64 w.size (length p) };
      disk = put d w.filename (l.current ++ p);
      count = length p;
      error = none;
      jobs = [];
    }
unfolding write_file write_opened opened_for_write rotate open_file
append_lem c w d l p h q small = rw (h.ready, small, q.writes, h.current) refl

-- The files after a rotation: the old bytes under the new name, and an empty file.
abbrev pub shifted : FileWriter → Disk → Bytes → Bytes → Disk
shifted w d stamp c = put (put (remove d w.filename) (rotated_name w stamp) c) w.filename []

shifted_lem :
    (w : FileWriter) (d : Disk) (stamp c : Bytes)
    → content (put (remove d w.filename) (rotated_name w stamp) c) w.filename ≡ none
shifted_lem w d stamp c =
    content-put_ne (remove d w.filename) (rotated_name w stamp) c w.filename
      (λ e. rotated_name_ne w stamp (sym e))
    ∙ content-remove_self d w.filename

open_quiet :
    (o : Opening) (w : FileWriter) (d : Disk)
    → IsQuiet o
    → open_file o w d ≡ (
      record w { file = some opened; size = length (or_empty (content d w.filename)) },
      created (content d w.filename) d w.filename,
      none,
    )
unfolding open_file
open_quiet o w d (m, c, s) = rw (m, c, s) refl

rotate_quiet :
    (c : Calls) (w : FileWriter) (d : Disk) (l : Ledger)
    → Holds w d l
    → IsFaultless c
    → rotate c w d ≡ record {
      writer = record w { file = some opened; size = 0 };
      disk = shifted w d c.stamp l.current;
      error = none;
      jobs = compress_jobs w (rotated_name w c.stamp) ++ clean_up ∷ [];
    }
unfolding rotate
rotate_quiet c w d l h q =
    ap
      (λ f.
        rotate_steps (close_handle f c.close_error) c.rename_error c.stamp c.second
          (record w { file = after_close f }) d)
      h.ready
    ∙ ap₂ (λ e k. rotate_steps e k c.stamp c.second (record w { file = some closed }) d) q.closes
        q.renames
    ∙ ap
        (λ k.
          reopened jobs
            (open_file c.second (record w { file = some closed }) (renamed k d w.filename name)))
        h.current
    ∙ ap (reopened jobs) (open_quiet c.second (record w { file = some closed }) moved q.opens)
    ∙ ap
        (λ k. reopened jobs (
          record w { file = some opened; size = length (or_empty k) },
          created k moved w.filename,
          none,
        ))
        (shifted_lem w d c.stamp l.current)
  where
    name : Bytes
    name = rotated_name w c.stamp

    jobs : List Job
    jobs = compress_jobs w name

    moved : Disk
    moved = put (remove d w.filename) name l.current

pub rotate_lem :
    (c : Calls) (w : FileWriter) (d : Disk) (l : Ledger) (p : Bytes)
    → Holds w d l
    → IsFaultless c
    → needs_rotation w p ≡ true
    → write_file c w d p ≡ record {
      writer = record w { file = some opened; size = add64 0 (length p) };
      disk = put (shifted w d c.stamp l.current) w.filename p;
      count = length p;
      error = none;
      jobs = compress_jobs w (rotated_name w c.stamp) ++ clean_up ∷ [];
    }
unfolding write_file write_opened opened_for_write
rotate_lem c w d l p h q big =
    ap (λ f. write_opened c p (opened_for_write f c w d)) h.ready
    ∙ ap
        (λ b. if b then after_rotation c p (rotate c w d) else write_handle w.file c.fault w d [] p)
        big
    ∙ ap (after_rotation c p) (rotate_quiet c w d l h q)
    ∙ ap
        (λ f.
          write_handle (some opened) f (record w { file = some opened; size = 0 })
            (shifted w d c.stamp l.current) jobs p)
        q.writes
    ∙ ap
        (λ k. record {
          writer = record w { file = some opened; size = add64 0 (length p) };
          disk = put (shifted w d c.stamp l.current) w.filename (or_empty k ++ p);
          count = length p;
          error = none;
          jobs = jobs;
        })
        (content-put_self (put (remove d w.filename) (rotated_name w c.stamp) l.current) w.filename
          [])
  where
    jobs : List Job
    jobs = compress_jobs w (rotated_name w c.stamp) ++ clean_up ∷ []
