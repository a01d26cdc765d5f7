-- ===== src/Logger/Tests.antt =====
-- Runs of log calls, and the theorems about loggers at concrete ones.
use onelog.Prelude.{
  ℕ, ◌≡◌, ◌≢◌, refl, Bool, true, false, none, some, List, [], ◌∷◌, ◌++◌, Bytes, codes, arith,
}
use onelog.Errors.{foreign}
use onelog.Field.{Entry, str_field}
use onelog.Level.{enabled}
use onelog.Entry.{pooled_entry, release, new_entry}
use onelog.Async.{drop_mode, new_async_buffer}
use onelog.Async.Valid.{IsValid, contents}
use onelog.Async.Resize.{new_async_buffer-IsValid}
use onelog.Heap.{Ring, Heap, ring_at, hooks_in}
use onelog.Config.{Config}
use onelog.Logger.{Logger, new, with_hook, with_writer}
use onelog.Logger.Pipeline.{
  Circumstances, returned, write_entry, after_sample, format_entry, after_format, write_sync,
  located,
}
use onelog.Logger.Calls.{
  log, log_entry, fresh_entry, writer_write, fatal_entry, exits, close_logger,
}
use onelog.Logger.Trace.{
  Event, Answers, recording, formatted_by, written_to, handled_by, IsFaithful,
}
use onelog.Logger.Faithful.{OnReturn, log-IsFaithful}
use onelog.Logger.Release.{IsClean, LeavesClean, log-clean, writer_write-twice}
use onelog.Logger.Queueing.{Reaches, write_entry_queues, fatal_entry_queues}
use onelog.Logger.Share.{with_hook_overwrites}
use onelog.Logger.Closing.{close_logger-twice}
use onelog.Logger.Settings.{IsTwin}
use onelog.Logger.Rings.{HasRing, new_ring_lem, with_writer_lem}

-- A client whose formatter writes the message and whose writer fails.
abbrev answers : Answers
answers = record {
  sample = λ tr k e. true;
  hook = λ tr k e. (e, none);
  format = λ tr k e. (e.message, none);
  write_to = λ tr k p. (0, some (foreign (codes "full")));
}

abbrev now : Circumstances
now = record { recycled = pooled_entry; now = 7; frame = none; lost = false; turns = [] }

abbrev logger : Logger
logger = record {
  level = 0;
  formatter = some 1;
  writer = some 2;
  error_handler = some 3;
  enable_async = false;
  async_buffer = none;
  sampler = none;
  enable_caller = false;
  caller_skip = 0;
  hooks = some (record { array = 0; len = 1; cap = 4 });
}

-- A ring with four slots.
abbrev ring : Ring
ring = record { buffer = new_async_buffer 4 4; out = some 2; stopped = false }

abbrev heap : Heap
heap = record {
  levels = record { level = 2 } ∷ [];
  rings = ring ∷ [];
  arrays = (9 ∷ 0 ∷ 0 ∷ 0 ∷ []) ∷ [];
}

abbrev message : Bytes
message = codes "hello"

abbrev said : Entry
said = record pooled_entry { level = 4; time = 7; message = message }

abbrev plain_logger : Logger
plain_logger = record logger { hooks = none }

logs :
    log (recording answers) 4 message [] now plain_logger [] heap
    ≡ returned
        (formatted_by 1 said message none
          ∷ written_to 2 message (some (foreign (codes "full")))
          ∷ handled_by 3 (foreign (codes "full"))
          ∷ [])
        heap
        (record said { message = [] })
unfolding log log_entry write_entry after_sample format_entry after_format write_sync fresh_entry
    new_entry release enabled new_async_buffer
logs = refl

log-IsFaithful_example :
    OnReturn IsFaithful (log (recording answers) 4 message [] now logger [] heap)
log-IsFaithful_example =
    log-IsFaithful answers 3 now logger heap 4 message [] [] refl refl (refl, refl)

pooled_entry-IsClean : IsClean pooled_entry
pooled_entry-IsClean = record {
  no_message = refl;
  no_fields = refl;
  no_ctx = refl;
  no_caller = refl;
}

log-clean_example :
    LeavesClean (recording answers) now logger (
      log (recording answers) 4 message (str_field (codes "k") (codes "v") ∷ []) now logger [] heap)
log-clean_example =
    log-clean (recording answers) now logger 4 message (str_field (codes "k") (codes "v") ∷ []) []
      heap pooled_entry-IsClean

abbrev queueing : Logger
queueing = record plain_logger { enable_async = true; async_buffer = some 0 }

ring-IsValid : IsValid (ring_at heap 0).buffer
unfolding ring_at
ring-IsValid = (new_async_buffer-IsValid 2 4 (omega arith)).0

abbrev formatted : List Event
formatted = formatted_by 1 said message none ∷ []

said-Reaches : Reaches (recording answers) now queueing said [] heap 0 said message formatted
unfolding located
said-Reaches = record {
  asynchronous = refl;
  ring = refl;
  placed = omega arith;
  formatter = 1;
  has_formatter = refl;
  kept_state = [];
  kept = refl;
  hooked_state = [];
  hooked = refl;
  formatted = refl;
}

write_entry_queues_example :
    (h' : Heap) × (write_entry (recording answers) now queueing said [] heap
      ≡ returned formatted h' (release said).0)
    × (contents (ring_at h' 0).buffer ≡ contents (ring_at heap 0).buffer ++ some message ∷ [])
    × IsValid (ring_at h' 0).buffer
    × ((b : ℕ) → b ≢ 0 → ring_at h' b ≡ ring_at heap b)
unfolding ring_at new_async_buffer
write_entry_queues_example =
    write_entry_queues (recording answers) now queueing said-Reaches refl ring-IsValid (omega arith)
      (omega arith)

abbrev dying : Entry
dying = record said { level = 5 }

abbrev dead : List Event
dead = formatted_by 1 dying message none ∷ []

fatal_entry_queues_example :
    (h' : Heap) × (fatal_entry (recording answers) message now queueing said [] heap
      ≡ exits dead h')
    × (contents (ring_at h' 0).buffer ≡ contents (ring_at heap 0).buffer ++ some message ∷ [])
unfolding ring_at new_async_buffer enabled located
fatal_entry_queues_example =
    fatal_entry_queues (recording answers) now queueing said refl
      (record {
        asynchronous = refl;
        ring = refl;
        placed = omega arith;
        formatter = 1;
        has_formatter = refl;
        kept_state = [];
        kept = refl;
        hooked_state = [];
        hooked = refl;
        formatted = refl;
      })
      refl ring-IsValid (omega arith) (omega arith)

with_hook_overwrites_example :
    let (m, after) = with_hook (λ n. n) 11 logger heap in
    let (_, later) = with_hook (λ n. n) 12 logger after in
    (hooks_in after m.hooks ≡ 9 ∷ 11 ∷ []) × (hooks_in later m.hooks ≡ 9 ∷ 12 ∷ [])
with_hook_overwrites_example =
    with_hook_overwrites (λ n. n) 11 12 logger heap (record { array = 0; len = 1; cap = 4 }) refl
      (omega arith, refl, omega arith) (omega arith)

-- Asynchronous, without a formatter and with the dynamic resizing off.
abbrev config : Config
config = record {
  level = 2;
  formatter = none;
  writer = none;
  error_handler = none;
  enable_caller = false;
  caller_skip = 0;
  enable_async = true;
  async_buffer_size = 1024;
  backpressure_mode = drop_mode;
  enable_sampling = false;
  sampler = none;
  hooks = none;
  redact_sensitive_fields = true;
  additional_sensitive_keys = none;
  enable_dynamic_buffer_resizing = false;
  buffer_resize_threshold = 75;
  flush_interval = 0;
}

new_ring_lem_example :
    let (l, after) = new 4 0 1 config heap in
    (l.formatter ≢ none) × (l.writer ≢ none) × HasRing 10 config l.async_buffer after
new_ring_lem_example = new_ring_lem 4 0 1 10 config heap (omega arith) refl refl (omega arith)

with_writer_lem_example :
    let (m, after) = with_writer 4 (some 8) queueing heap in
    (m.writer ≡ some 8)
    × (ring_at after 0 ≡ ring_at heap 0)
    × ((c : ℕ) × (m.async_buffer ≡ some c)
        × ((ring_at after c).out ≡ some 8)
        × IsTwin (ring_at heap 0).buffer (ring_at after c).buffer)
with_writer_lem_example =
    with_writer_lem 4 (some 8) queueing heap 0 refl refl (omega arith) ring-IsValid

writer_write-twice_example :
    writer_write
      (recording answers)
      4
      (codes "again")
      now
      plain_logger
      (record said { message = [] })
      (formatted_by 1 said message none
        ∷ written_to 2 message (some (foreign (codes "full")))
        ∷ handled_by 3 (foreign (codes "full"))
        ∷ [])
      heap
    ≡ write_entry
        (recording answers)
        now
        plain_logger
        (record {
          level = 4;
          time = 7;
          message = codes "again";
          fields = [];
          ctx = none;
          caller_info = none;
        })
        (formatted_by 1 said message none
          ∷ written_to 2 message (some (foreign (codes "full")))
          ∷ handled_by 3 (foreign (codes "full"))
          ∷ [])
        heap
unfolding writer_write write_entry after_sample format_entry after_format write_sync release
writer_write-twice_example =
    writer_write-twice (recording answers) now plain_logger 4 message (codes "again") now said
      (record said { message = [] }) [] _ heap heap refl

-- A writer that keeps what it is given.
abbrev keep : Bytes → List Bytes → List Bytes × Bool
keep e w = (w ++ e ∷ [], false)

close_logger-twice_example :
    (h' : Heap) × (v' : List Bytes) × (close_logger keep queueing heap [] ≡ some (h', v'))
    × (close_logger keep queueing h' v' ≡ none)
unfolding ring_at
close_logger-twice_example =
    close_logger-twice keep queueing queueing heap [] 0 refl refl refl refl (omega arith) refl
