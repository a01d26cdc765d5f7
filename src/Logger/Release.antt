-- ===== src/Logger/Release.antt =====
-- entry.go: what is left in an entry that a call has given back to the pool.
use onelog.Prelude.{
  ℕ, ◌≡◌, refl, ap, ap₂, ◌∙◌, Bool, true, false, Option, none, some, List, [], ◌∷◌, Bytes, if_elim,
  All, subst,
}
use onelog.Errors.{Error}
use onelog.Field.{Field, Entry, zero_field}
use onelog.Level.{enabled}
use onelog.Entry.{release, new_entry, entry_enabled, zeroed}
use onelog.Async.{Answer, done, waiting}
use onelog.Heap.{Heap, level_at}
use onelog.Logger.{Logger}
use onelog.Logger.Pipeline.{
  Client, Circumstances, Outcome, returned, running, panicked, sampled, write_sync, write_async,
  after_store, after_format, format_entry, after_sample, write_entry,
}
use onelog.Logger.Calls.{log_entry, log, writer_write, fresh_entry}

pub record IsClean (e : Entry) : Type 0 where
  pub no_message : e.message ≡ []
  pub no_fields : e.fields ≡ []
  pub no_ctx : e.ctx ≡ none
  pub no_caller : e.caller_info ≡ none

-- An entry in the pool has nothing of its use but the level and the time, and the array behind
-- its fields holds zero fields only.
pub release-IsClean :
    (e : Entry)
    → let (pooled, array) = release e in IsClean pooled × All (λ f. f ≡ zero_field) array
unfolding release
release-IsClean e = (
  record { no_message = refl; no_fields = refl; no_ctx = refl; no_caller = refl },
  all_zero e.fields,
)
  where
    all_zero : (fs : List Field) → All (λ f. f ≡ zero_field) (zeroed fs)
    all_zero [] = tt
    all_zero (f ∷ fs) = (refl, all_zero fs)

module _ {ℓ} {S : Type ℓ} (client : Client S) (x : Circumstances) (l : Logger) where
  abbrev pub LeavesClean : Outcome S → Type 0
  LeavesClean (returned s h e) = IsClean e
  LeavesClean (running s h) = Unit
  LeavesClean (panicked s h) = Unit

  write_sync-clean :
      (w handler : Option ℕ) (e : Entry) (p : Bytes) (s : S) (h : Heap)
      → LeavesClean (write_sync client w handler e p s h)
  unfolding write_sync
  write_sync-clean none handler e p s h = tt
  write_sync-clean (some w) handler e p s h = (release-IsClean e).0

  after_store-clean :
      (a : ℕ) (e : Entry) (s : S) (h : Heap) (answer : Answer)
      → LeavesClean (after_store client a l.error_handler e s h answer)
  unfolding after_store
  after_store-clean a e s h (done b error resizing) = (release-IsClean e).0
  after_store-clean a e s h (waiting b) = tt

  after_format-clean :
      (error : Option Error) (e : Entry) (p : Bytes) (s : S) (h : Heap)
      → LeavesClean (after_format client error x l e p s h)
  unfolding after_format write_async
  after_format-clean (some d) e p s h = (release-IsClean e).0
  after_format-clean none e p s h =
      if_elim LeavesClean l.enable_async _ _ (λ _. by_ring l.async_buffer)
        (λ _. write_sync-clean l.writer l.error_handler e p s h)
    where
      by_ring : (a : Option ℕ) → LeavesClean (write_async client a x l e p s h)
      by_ring none = write_sync-clean l.writer l.error_handler e p s h
      by_ring (some a) = after_store-clean a e s h _

  format_entry-clean :
      (f : Option ℕ) (e : Entry) (s : S) (h : Heap) → LeavesClean (format_entry client f x l e s h)
  unfolding format_entry
  format_entry-clean none e s h = tt
  format_entry-clean (some f) e s h = after_format-clean _ e _ _ h

  pub write_entry-clean :
      (e : Entry) (s : S) (h : Heap) → LeavesClean (write_entry client x l e s h)
  unfolding write_entry after_sample
  write_entry-clean e s h = by_kept (sampled client l.sampler e s).1
    where
      by_kept :
          (kept : Bool)
          → LeavesClean (after_sample client kept x l e (sampled client l.sampler e s).0 h)
      by_kept false = (release-IsClean e).0
      by_kept true = format_entry-clean l.formatter _ _ h

  -- If a log call returns, on whatever branch, the entry that it leaves in the pool has no
  -- message, no fields, no context and no caller, if the one it may take from the pool was so.
  pub log-clean :
      (level : ℕ) (message : Bytes) (fields : List Field) (s : S) (h : Heap)
      → IsClean x.recycled
      → LeavesClean (log client level message fields x l s h)
  unfolding log log_entry
  log-clean level message fields s h clean =
      if_elim LeavesClean (enabled (level_at h l.level) level) _ _
        (λ _.
          if_elim LeavesClean (enabled (level_at h l.level) level) _ _
            (λ _. write_entry-clean _ s h) (λ _. (release-IsClean (fresh_entry fields x)).0))
        (λ _. clean)

  -- A Write to the writer of an entry that comes after one that has returned logs no field: the
  -- entry it holds is the one that was given back to the pool, whatever its fields were. It is written whatever
  -- the level of the logger is.
  pub writer_write-twice :
      (level : ℕ) (p q : Bytes) (y : Circumstances) (e e' : Entry) (s s' : S) (h h' : Heap)
      → writer_write client level p x l e s h ≡ returned s' h' e'
      → writer_write client level q y l e' s' h'
        ≡ write_entry client y l
            (record {
              level = level;
              time = e'.time;
              message = q;
              fields = [];
              ctx = none;
              caller_info = none;
            })
            s'
            h'
  unfolding writer_write
  writer_write-twice level p q y e e' s s' h h' first =
      ap (λ f. write_entry client y l (with_rest f) s' h') (clean.no_fields)
      ∙ ap₂
          (λ c i. write_entry client y l (record (with_rest []) { ctx = c; caller_info = i }) s' h')
          clean.no_ctx clean.no_caller
    where
      clean : IsClean e'
      clean =
          subst LeavesClean first (write_entry-clean (record e { level = level; message = p }) s h)

      with_rest : List Field → Entry
      with_rest fs = record {
        level = level;
        time = e'.time;
        message = q;
        fields = fs;
        ctx = e'.ctx;
        caller_info = e'.caller_info;
      }

-- Of an entry from the pool, Enabled answers by the level of its last use, whatever that was.
pub entry_enabled-new_entry :
    (x : Circumstances) (h : Heap) (l : Logger)
    → entry_enabled (level_at h l.level) (new_entry x.recycled x.now)
      ≡ enabled (level_at h l.level) x.recycled.level
unfolding entry_enabled new_entry enabled
entry_enabled-new_entry x h l = refl
