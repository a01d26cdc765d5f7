-- ===== src/Async/Tests.antt =====
-- Runs of the ring of async.go, and the theorems about it at concrete rings.
use onelog.Prelude.{
  Option, ◌≡◌, refl, Bool, true, false, none, some, List, [], ◌∷◌, ◌++◌, Bytes, codes, arith,
  replicate,
}
use onelog.Async.{
  Buffer, drop_mode, block_mode, round_up_power_of_two, Turn, done, write, write_with_retry,
  maybe_resize, flush, worker, tick, stop, claim, fill, store,
}
use onelog.Async.Loops.{deliver}
use onelog.Async.Valid.{IsValid, contents}
use onelog.Async.Flush.{flush_refines, worker_stops}
use onelog.Async.Resize.{maybe_resize_refines, grows}
use onelog.Async.Write.{write_refines, write_with_retry_total, IsDone}
use onelog.Async.Laid.{idle, copied}
use onelog.Async.Lost.{race_loses_entry}
use onelog.Async.Race.{Claim, Shared}

-- Two entries in a ring of four; index 6 is at slot 2.
abbrev two_entries : Buffer
two_entries = record {
  size = 4;
  mask = 3;
  read_index = 6;
  write_index = 8;
  buffer = none ∷ none ∷ some (codes "a") ∷ some (codes "b") ∷ [];
  mode = drop_mode;
  utilization = 80;
  drop_count = 0;
  dynamic_resize = true;
  resize_threshold = 75;
  flush_interval = 100_000_000;
  shard_count = 4;
}

two_entries-IsValid : IsValid two_entries
two_entries-IsValid = record {
  exponent = 2;
  size_eq = refl;
  mask_eq = refl;
  small = omega arith;
  slots = refl;
  in_order = omega arith;
  fits = omega arith;
  index_small = omega arith;
  percent_small = omega arith;
  threshold_small = omega arith;
}

-- A writer that keeps what it is given.
abbrev keep : Bytes → List Bytes → List Bytes × Bool
keep e w = (w ++ e ∷ [], false)

rounded :
    (round_up_power_of_two 100 ≡ 128)
    × (round_up_power_of_two 128 ≡ 128)
    × (round_up_power_of_two 0 ≡ 0)
unfolding round_up_power_of_two
rounded = (refl, refl, refl)

flushed : (flush keep two_entries []).1 ≡ codes "a" ∷ codes "b" ∷ []
unfolding flush
flushed = refl

resized : contents (maybe_resize two_entries) ≡ some (codes "a") ∷ some (codes "b") ∷ []
unfolding maybe_resize
resized = refl

flush_refines_example :
    let (b', w') = flush keep two_entries [] in
    (w' ≡ deliver keep (some (codes "a") ∷ some (codes "b") ∷ []) [])
    × (contents b' ≡ [])
    × IsValid b'
    × (b'.size ≡ 4)
    × (b'.write_index ≡ 8)
    × (b'.drop_count ≡ 0)
    × (b'.mode ≡ drop_mode)
flush_refines_example = flush_refines keep [] two_entries-IsValid

worker_stops_example :
    let (b', w') = worker keep (replicate 1 tick ++ stop ∷ tick ∷ []) two_entries [] in
    (w' ≡ deliver keep (some (codes "a") ∷ some (codes "b") ∷ []) [])
    × (contents b' ≡ [])
    × IsValid b'
worker_stops_example = worker_stops keep 1 (tick ∷ []) [] (λ e w. refl) two_entries-IsValid

maybe_resize_refines_example :
    IsValid (maybe_resize two_entries)
    × (contents (maybe_resize two_entries) ≡ contents two_entries)
    × ((maybe_resize two_entries).size ≡ 8)
    × (grows two_entries ≡ false → maybe_resize two_entries ≡ two_entries)
    × ((maybe_resize two_entries).write_index ≡ 8)
maybe_resize_refines_example = maybe_resize_refines two_entries-IsValid

write_refines_example :
    (b' : Buffer) × (spawn : Bool) × (write two_entries (codes "c") false [] ≡ done b' none spawn)
    × (contents b' ≡ contents two_entries ++ some (codes "c") ∷ [])
    × IsValid b'
    × (b'.size ≡ 4)
    × (b'.drop_count ≡ 0)
write_refines_example = write_refines (codes "c") [] two_entries-IsValid (omega arith) (omega arith)

-- The same ring with all four slots taken.
abbrev full_ring : Buffer
full_ring = record two_entries {
  write_index = 10;
  buffer = some (codes "c") ∷ some (codes "d") ∷ some (codes "a") ∷ some (codes "b") ∷ [];
}

full_ring-IsValid : IsValid full_ring
full_ring-IsValid = record {
  exponent = 2;
  size_eq = refl;
  mask_eq = refl;
  small = omega arith;
  slots = refl;
  in_order = omega arith;
  fits = omega arith;
  index_small = omega arith;
  percent_small = omega arith;
  threshold_small = omega arith;
}

-- Nobody else runs, and the CAS is kept.
abbrev quiet : Turn
quiet = record { others = λ b. b; lost = false; late = false }

write_with_retry_total_example :
    IsDone (
      write_with_retry (replicate 101 quiet) 0 (record full_ring { mode = block_mode }) (codes "e"))
write_with_retry_total_example =
    write_with_retry_total (replicate 101 quiet) 0 (record full_ring { mode = block_mode })
      (codes "e") (omega arith) (omega arith)

-- A resize that meets a log call: the call claims index 8 and fills its slot between the copy of
-- the entries and the assignment of the new array.
abbrev started : Shared keep
started = record { ring = two_entries; claims = []; progress = idle; out = [] }

abbrev mine : Claim
mine = record { index = 8; entry = codes "c"; usage = 3; size = 4 }

abbrev twice : List (Option Bytes)
twice = none ∷ none ∷ none ∷ none ∷ none ∷ none ∷ some (codes "a") ∷ some (codes "b") ∷ []

abbrev claimed : Shared keep
claimed = record { ring = claim two_entries; claims = mine ∷ []; progress = copied twice; out = [] }

abbrev after_resize : Shared keep
after_resize = record {
  ring = record (claim two_entries) { size = 8; mask = 7; buffer = twice; utilization = 75 };
  claims = [];
  progress = idle;
  out = [];
}

-- The entry of that call went into the old array.
drops_call : contents after_resize.ring ≡ some (codes "a") ∷ some (codes "b") ∷ none ∷ []
drops_call = refl

race_loses_entry_example :
    let (b', w') = flush keep (claim two_entries) [] in
    (w' ≡ deliver keep (contents two_entries) [])
    × (contents (fill 8 (codes "c") 75 b') ≡ [])
    × (flush keep (fill 8 (codes "c") 75 b') w' ≡ (fill 8 (codes "c") 75 b', w'))
race_loses_entry_example =
    race_loses_entry keep (codes "c") [] (λ e w. refl) two_entries-IsValid (omega arith)
      (omega arith) refl

-- Where three more entries come, and the slot is claimed again and not filled in time, the writer
-- gets the stale entry.
late_entry :
    (flush keep
      (claim (
        store
          (store
            (store (fill 8 (codes "c") 75 (flush keep (claim two_entries) []).0) (codes "d"))
            (codes "e"))
          (codes "f")))
      []).1
    ≡ codes "d" ∷ codes "e" ∷ codes "f" ∷ codes "c" ∷ []
unfolding store flush
late_entry = refl
