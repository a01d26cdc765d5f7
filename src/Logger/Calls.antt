-- ===== src/Logger/Calls.antt =====
-- logger.go and entry.go: the log calls of a logger and of an entry.
use onelog.Prelude.{
  ℕ, Bool, true, false, Option, none, some, List, [], ◌∷◌, Bytes, set, if◌then◌else◌,
}
use onelog.Level.{enabled, fatal_level}
use onelog.Field.{Field, Entry}
use onelog.Entry.{new_entry, with_fields, with_context, release}
use onelog.Async.{close}
use onelog.Heap.{Ring, Heap, level_at, ring_at}
use onelog.Logger.{Logger}
use onelog.Logger.Pipeline.{Client, Circumstances, Outcome, returned, write_entry}

-- `Logger.With`
unfoldable pub with_entry : List Field → Circumstances → Entry
unfolding new_entry with_fields
with_entry fields x = with_fields fields (new_entry x.recycled x.now)

-- `Logger.WithContext`
unfoldable pub with_context_entry : ℕ → Circumstances → Entry
unfolding new_entry with_context
with_context_entry ctx x = with_context ctx (new_entry x.recycled x.now)

-- `Entry.Writer` and `Logger.Writer`: the entry is kept by the writer.
pub record EntryWriter : Type 0 where
  pub entry : Entry
  pub level : ℕ

abbrev pub entry_writer : ℕ → Entry → EntryWriter
entry_writer level e = record { entry = e; level = level }

unfoldable pub logger_writer : ℕ → Circumstances → EntryWriter
unfolding new_entry
logger_writer level x = entry_writer level (new_entry x.recycled x.now)

-- The entry of a log call with its fields.
unfoldable pub fresh_entry : List Field → Circumstances → Entry
unfolding new_entry with_entry
fresh_entry [] x = new_entry x.recycled x.now
fresh_entry (f ∷ fs) x = with_entry (f ∷ fs) x

-- Closing the ring of a logger runs its worker to the end, which writes by `write`. A channel that
-- is closed again panics: that is `none`.
module _ {W : Type 0} (write : Bytes → W → W × Bool) where
  abbrev pub close_stopped : Bool → ℕ → Ring → Heap → W → Option (Heap × W)
  close_stopped true a r h v = none
  close_stopped false a r h v =
      let (b, v') = close write r.buffer v in
      some (record h { rings = set h.rings a (record r { buffer = b; stopped = true }) }, v')

  unfoldable pub close_ring : Bool → Option ℕ → Heap → W → Option (Heap × W)
  unfolding ring_at
  close_ring true (some a) h v = close_stopped (ring_at h a).stopped a (ring_at h a) h v
  close_ring _ _ h v = some (h, v)

  unfoldable pub close_logger : Logger → Heap → W → Option (Heap × W)
  unfolding close_ring
  close_logger l h v = close_ring l.enable_async l.async_buffer h v

-- How a Fatal call ends: with `os.Exit(1)`, or as another call does.
pub data Ended {ℓ} (S : Type ℓ) : Type ℓ where
  exits : S → Heap → Ended S
  goes_on : Outcome S → Ended S

abbrev pub exit_after {ℓ} : {S : Type ℓ} → Outcome S → Ended S
exit_after (returned s h e) = exits s h
exit_after o = goes_on o

module _ {ℓ} {S : Type ℓ} (client : Client S) where
  -- `Entry.Trace` to `Entry.Error`
  unfoldable pub log_entry : ℕ → Bytes → Circumstances → Logger → Entry → S → Heap → Outcome S
  unfolding write_entry release
  log_entry level message x l e s h =
      if enabled (level_at h l.level) level
      then write_entry client x l (record e { level = level; message = message }) s h
      else returned s h (release e).0

  -- `Entry.Tracef` to `Entry.Errorf`, where `formatted` is what Sprintf makes.
  unfoldable pub log_entry_formatted :
      ℕ → Bytes → Circumstances → Logger → Entry → S → Heap → Outcome S
  unfolding log_entry
  log_entry_formatted level formatted x l e s h = log_entry level formatted x l e s h

  -- `Entry.Fatal`
  unfoldable pub fatal_entry : Bytes → Circumstances → Logger → Entry → S → Heap → Ended S
  unfolding write_entry release
  fatal_entry message x l e s h =
      if enabled (level_at h l.level) fatal_level
      then exit_after
          (write_entry client x l (record e { level = fatal_level; message = message }) s h)
      else goes_on (returned s h (release e).0)

  -- `Entry.Fatalf`
  unfoldable pub fatal_entry_formatted : Bytes → Circumstances → Logger → Entry → S → Heap → Ended S
  unfolding fatal_entry
  fatal_entry_formatted formatted x l e s h = fatal_entry formatted x l e s h

  -- `Logger.Trace` to `Logger.Error`; a level that is not enabled takes no entry.
  unfoldable pub log : ℕ → Bytes → List Field → Circumstances → Logger → S → Heap → Outcome S
  unfolding log_entry fresh_entry
  log level message fields x l s h =
      if enabled (level_at h l.level) level
      then log_entry level message x l (fresh_entry fields x) s h
      else returned s h x.recycled

  unfoldable pub fatal : Bytes → List Field → Circumstances → Logger → S → Heap → Ended S
  unfolding fatal_entry fresh_entry
  fatal message fields x l s h =
      if enabled (level_at h l.level) fatal_level
      then fatal_entry message x l (fresh_entry fields x) s h
      else goes_on (returned s h x.recycled)

  -- `Logger.Tracef` to `Logger.Errorf`
  unfoldable pub log_formatted : ℕ → Bytes → Circumstances → Logger → S → Heap → Outcome S
  unfolding log_entry_formatted new_entry
  log_formatted level formatted x l s h =
      if enabled (level_at h l.level) level
      then log_entry_formatted level formatted x l (new_entry x.recycled x.now) s h
      else returned s h x.recycled

  -- `entryWriter.Write` on the entry of the writer. It returns the length and no error.
  unfoldable pub writer_write : ℕ → Bytes → Circumstances → Logger → Entry → S → Heap → Outcome S
  unfolding write_entry
  writer_write level p x l e s h =
      write_entry client x l (record e { level = level; message = p }) s h

  -- `Logger.Fatalf`
  unfoldable pub fatal_formatted : Bytes → Circumstances → Logger → S → Heap → Ended S
  unfolding fatal_entry_formatted new_entry
  fatal_formatted formatted x l s h =
      if enabled (level_at h l.level) fatal_level
      then fatal_entry_formatted formatted x l (new_entry x.recycled x.now) s h
      else goes_on (returned s h x.recycled)
