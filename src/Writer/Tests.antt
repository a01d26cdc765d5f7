-- ===== src/Writer/Tests.antt =====
-- Runs of the writers, and their theorems at concrete data.
use onelog.Prelude.{
  ℕ, ◌≡◌, refl, false, Option, none, some, List, [], ◌∷◌, ◌++◌, ◌⊎◌, ◌≤◌, Bytes, codes, length,
  arith, bytes_eq, bytes_eq_iff, true_ne, sym, get_or, if◌then◌else◌, ◌==◌,
}
use onelog.Errors.{foreign}
use onelog.Writer.Files.{Disk, content, or_empty}
use onelog.Writer.{
  FileWriter, opened, Calls, Opening, default_file_writer, with_max_size, with_compress,
  new_file_writer, write_file, write_opened, opened_for_write, rotate, open_file,
}
use onelog.Writer.Ledger.{Ledger, ledger_bytes, all_bytes}
use onelog.Writer.Rotate.{IsFaultless, Holds}
use onelog.Writer.Refine.{write_all, write_all_keeps, write_file_bounded}
use onelog.Writer.Fail.{IsRefused, write_file_fails}
use onelog.Writer.Sort.{FileInfo, sort_logs_by_time}
use onelog.Writer.Clean.{Cleaned, cleanup, cleanup_lem}
use onelog.Writer.Compress.{Answers, IsSafe, compress_file, compress_file_lem, gz_name}
use onelog.Writer.Multi.{
  LogWriter, MultiWriter, multi_write, multi_write_lem, IsAccepted, FailsAt, written,
}

abbrev quiet : Opening
quiet = record { mkdir = none; create = none; stat = none }

abbrev calls : Bytes → Calls
calls stamp = record {
  first = quiet;
  close_error = none;
  stamp = stamp;
  rename_error = none;
  second = quiet;
  fault = none;
}

calls-IsFaultless : (stamp : Bytes) → IsFaultless (calls stamp)
calls-IsFaultless stamp = record {
  closes = refl;
  renames = refl;
  opens = (refl, refl, refl);
  writes = refl;
}

abbrev disk : Disk
disk = (codes "log", codes "abc") ∷ []

abbrev small : FileWriter
small = record (default_file_writer (codes "log")) {
  file = some opened;
  max_size = 4;
  compress = false;
  size = 3;
}

abbrev start : Ledger
start = record { backups = []; current = codes "abc" }

start-Holds : Holds small disk start
start-Holds = record {
  ready = refl;
  current = refl;
  measured = refl;
  limited = omega arith;
  kept = tt;
}

opens_existing :
    let (w, d, e) =
      new_file_writer (codes "log") (with_max_size 4 ∷ with_compress false ∷ []) quiet disk in
    (w ≡ small) × (d ≡ disk) × (e ≡ none)
unfolding new_file_writer open_file with_max_size with_compress
opens_existing = (refl, refl, refl)

rotates :
    (write_file (calls (codes "1")) small disk (codes "xy")).disk
    ≡ (codes "log", codes "xy") ∷ (codes "log.1", codes "abc") ∷ []
unfolding write_file write_opened opened_for_write rotate open_file
rotates = refl

-- Two rotations with one stamp: the bytes of the first backup are gone.
rotates_twice :
    let r = write_file (calls (codes "1")) small disk (codes "xyz") in
    (write_file (calls (codes "1")) r.writer r.disk (codes "uv")).disk
    ≡ (codes "log", codes "uv") ∷ (codes "log.1", codes "xyz") ∷ []
unfolding write_file write_opened opened_for_write rotate open_file
rotates_twice = refl

abbrev history : List (Calls × Bytes)
history = (calls (codes "1"), codes "xy") ∷ (calls (codes "2"), codes "uvw") ∷ []

write_all_keeps_example :
    let (w', d') = write_all small disk history in
    (m : Ledger) × Holds w' d' m × (ledger_bytes m ≡ ledger_bytes start ++ all_bytes history)
write_all_keeps_example = write_all_keeps history small disk start start-Holds (
  calls-IsFaultless (codes "1"),
  tt,
  omega arith,
  (
    calls-IsFaultless (codes "2"),
    ((λ e. true_ne (sym ((bytes_eq_iff (codes "1") (codes "2")).1 e))), tt),
    omega arith,
    tt,
  ),
)

write_file_bounded_example :
    let r = write_file (calls (codes "1")) small disk (codes "xy") in
    let now = or_empty (content r.disk (codes "log")) in (length now ≤ 4) ⊎ (now ≡ codes "xy")
write_file_bounded_example =
    write_file_bounded (calls (codes "1")) small disk start (codes "xy") start-Holds
      (calls-IsFaultless (codes "1")) tt (omega arith) (omega arith)

abbrev no_rename : Calls
no_rename = record (calls (codes "1")) { rename_error = some (foreign (codes "denied")) }

write_file_fails_example :
    let r = write_file no_rename small disk (codes "xy") in
    (r.error ≡ some (foreign (codes "denied")))
    × (r.count ≡ 0)
    × ((ws : List (Calls × Bytes)) → write_all r.writer r.disk ws ≡ (r.writer, r.disk))
    × ((k : Calls) (q : Bytes) → IsRefused r.writer r.disk (write_file k r.writer r.disk q))
unfolding rotate
write_file_fails_example =
    write_file_fails no_rename small disk (codes "xy") (foreign (codes "denied")) refl refl refl

abbrev info : Bytes → ℕ → FileInfo
info name time = record { name = name; time = time; compressed = false }

abbrev logs : List FileInfo
logs = info (codes "log.3") 30 ∷ info (codes "log.1") 10 ∷ info (codes "log.2") 20 ∷ []

sorts :
    sort_logs_by_time logs
    ≡ info (codes "log.1") 10 ∷ info (codes "log.2") 20 ∷ info (codes "log.3") 30 ∷ []
unfolding sort_logs_by_time
sorts = refl

abbrev times : Bytes → Option ℕ
times name = if bytes_eq name (codes "else") then none else some (get_or name 4 0)

abbrev matches : List Bytes
matches = codes "log.3" ∷ codes "log.1" ∷ codes "log.2" ∷ codes "else" ∷ []

abbrev two : FileWriter
two = record small { max_backups = 2; max_age = 100 }

cleans : cleanup times two 60 (some matches) ≡ codes "log.1" ∷ []
unfolding cleanup sort_logs_by_time
cleans = refl

cleanup_lem_example : Cleaned times two 60 matches (cleanup times two 60 (some matches))
cleanup_lem_example =
    cleanup_lem times two 60 matches (omega arith) (omega arith) (omega arith) (omega arith)
      (omega arith)

abbrev no_errors : Answers
no_errors = record {
  open_error = none;
  create_error = none;
  copy_error = none;
  finish_error = none;
  remove_error = none;
}

abbrev zipped : Bytes → Bytes
zipped c = 31 ∷ c

abbrev cut : Bytes → Bytes
cut c = []

compress_file_lem_example :
    let r = compress_file zipped cut no_errors disk (codes "log") in
    IsSafe zipped cut disk (codes "log") (codes "abc") r
    × ((other : Bytes)
        → ¬ (other ≡ codes "log")
        → ¬ (other ≡ gz_name (codes "log"))
        → content r.0 other ≡ content disk other)
compress_file_lem_example =
    compress_file_lem zipped cut no_errors disk (codes "log") (codes "abc") refl

-- Writers over the list of what each was given; the second fails.
abbrev recorder : ℕ → LogWriter (List (ℕ × Bytes))
recorder n = record {
  write =
      λ p s. (s ++ (n, p) ∷ [], length p, if n == 2 then some (foreign (codes "full")) else none);
  close = λ s. (s, none);
}

abbrev three : MultiWriter
three = record { writers = 1 ∷ 2 ∷ 3 ∷ [] }

multi_write_lem_example :
    (IsAccepted recorder (1 ∷ 2 ∷ 3 ∷ []) (codes "x") []
      × (multi_write recorder three (codes "x") []
          ≡ (written recorder (1 ∷ 2 ∷ 3 ∷ []) (codes "x") [], 1, none)))
    ⊎ FailsAt recorder (1 ∷ 2 ∷ 3 ∷ []) (codes "x") [] (multi_write recorder three (codes "x") [])
multi_write_lem_example = multi_write_lem recorder three (codes "x") []
