-- ===== src/Logger/Delivery/Tests.antt =====
-- A run of two log calls with a tick between them, closed.
use onelog.Prelude.{
  ◌≡◌, ◌<◌, refl, Bool, true, false, none, some, [], ◌∷◌, ◌++◌, map, Bytes, codes, arith, length,
}
use onelog.Field.{Entry}
use onelog.Entry.{pooled_entry}
use onelog.Async.{new_async_buffer}
use onelog.Async.Valid.{IsValid, contents}
use onelog.Async.Resize.{new_async_buffer-IsValid}
use onelog.Async.Loops.{deliver}
use onelog.Heap.{Heap, ring_at}
use onelog.Logger.{Logger}
use onelog.Logger.Pipeline.{Client, Circumstances, located, write_entry}
use onelog.Logger.Calls.{close_logger}
use onelog.Logger.Queueing.{Reaches}
use onelog.Logger.Delivery.{
  Run, stays, logs, ticks, Run_lem, close_logger-Run, heap_after, flush_ring,
}

-- A client without a state of its own, whose formatter writes the message.
abbrev client : Client {0} Unit
client = record {
  sample = λ k e s. (s, true);
  hook = λ k e s. (s, e, none);
  format = λ k e s. (s, e.message, none);
  write_to = λ k p s. (s, length p, none);
  handle = λ k e s. s;
}

abbrev logger : Logger
logger = record {
  level = 0;
  formatter = some 1;
  writer = some 2;
  error_handler = none;
  enable_async = true;
  async_buffer = some 0;
  sampler = none;
  enable_caller = false;
  caller_skip = 0;
  hooks = none;
}

abbrev heap : Heap
heap = record {
  levels = [];
  rings = record { buffer = new_async_buffer 4 4; out = some 2; stopped = false } ∷ [];
  arrays = [];
}

abbrev now : Circumstances
now = record { recycled = pooled_entry; now = 7; frame = none; lost = false; turns = [] }

abbrev said : Bytes → Entry
said message = record pooled_entry { level = 2; message = message }

abbrev write_out : Bytes → Bytes → Bytes × Bool
write_out e w = (w ++ e, false)

reaches :
    (h : Heap) (message : Bytes)
    → 0 < length h.rings
    → Reaches client now logger (said message) tt h 0 (said message) message tt
unfolding located
reaches h message placed = record {
  asynchronous = refl;
  ring = refl;
  placed = placed;
  formatter = 1;
  has_formatter = refl;
  kept_state = tt;
  kept = refl;
  hooked_state = tt;
  hooked = refl;
  formatted = refl;
}

abbrev first : Heap
first = heap_after (write_entry client now logger (said (codes "a")) tt heap)

abbrev flushed : Heap
flushed = (flush_ring write_out 0 first []).0

abbrev second : Heap
second = heap_after (write_entry client now logger (said (codes "b")) tt flushed)

run : Run client logger write_out 0 tt heap [] (codes "a" ∷ codes "b" ∷ []) tt second (codes "a")
unfolding write_entry flush_ring ring_at new_async_buffer
run = logs now (reaches heap (codes "a") (omega arith)) refl (omega arith) (omega arith) (
    ticks (omega arith)
      (logs now (reaches flushed (codes "b") (omega arith)) refl (omega arith) (omega arith) stays))

heap-IsValid : IsValid (ring_at heap 0).buffer
unfolding ring_at
heap-IsValid = (new_async_buffer-IsValid 2 4 (omega arith)).0

Run_lem_example :
    (deliver write_out (contents (ring_at second 0).buffer) (codes "a")
      ≡ deliver write_out
          (contents (ring_at heap 0).buffer ++ map some (codes "a" ∷ codes "b" ∷ []))
          [])
    × IsValid (ring_at second 0).buffer
Run_lem_example = Run_lem client logger write_out 0 (λ e w. refl) heap-IsValid run

close_logger-Run_example :
    (last : Heap) × (close_logger write_out logger second (codes "a")
      ≡ some (
        last,
        deliver write_out
            (contents (ring_at heap 0).buffer ++ map some (codes "a" ∷ codes "b" ∷ []))
            [],
      ))
unfolding write_entry flush_ring ring_at new_async_buffer
close_logger-Run_example =
    close_logger-Run client logger write_out 0 (λ e w. refl) refl refl heap-IsValid run refl
      (omega arith)
