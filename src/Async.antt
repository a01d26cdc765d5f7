-- ===== src/Async.antt =====
-- async.go, `asyncBuffer`: a ring of log entries between the goroutines that log and the worker
-- that writes. The functions here run alone, with no other goroutine between their steps, but
-- where they take what the others do as an argument; Async/Race.antt splits them into steps.
-- Shard locks only keep two stores to a slot apart, and are left out.
mod Window
pub mod Valid
mod Tests
pub mod Laid
pub mod Kept
pub mod Race
pub mod Lost
pub mod Write
pub mod Resize
pub mod Flush
pub mod Loops
use onelog.Prelude.{
  ℕ, zero, suc, ◌+◌, ◌-◌, ◌*◌, ◌/◌, ◌^◌, Bool, true, false, ◌||◌, not, Option, none, some, ◌&&◌,
  List, [], ◌∷◌, Bytes, get_or, set, replicate, bit_and, bit_or, ltb, ◌==◌, if◌then◌else◌, add64,
  sub64, mul64, div64, is_neg, le64, lt64,
}
use onelog.Errors.{Error, sentinel, buffer_full}

pub data BackpressureMode : Type 0 where
  drop_mode block_mode : BackpressureMode

abbrev pub is_drop_mode : BackpressureMode → Bool
is_drop_mode drop_mode = true
is_drop_mode block_mode = false

-- An `int` or `int64` is its pattern; a nil slot is `none`.
pub record Buffer : Type 0 where
  pub size : ℕ
  pub mask : ℕ
  pub read_index : ℕ
  pub write_index : ℕ
  pub buffer : List (Option Bytes)
  pub mode : BackpressureMode
  pub utilization : ℕ
  pub drop_count : ℕ
  pub dynamic_resize : Bool
  pub resize_threshold : ℕ
  pub flush_interval : ℕ
  pub shard_count : ℕ

-- `>>` on an int: it copies the sign.
abbrev pub shr64 : ℕ → ℕ → ℕ
shr64 a k = if is_neg a then 2 ^ 64 - 1 - (2 ^ 64 - 1 - a) / 2 ^ k else a / 2 ^ k

abbrev smear : ℕ → ℕ → ℕ
smear k n = bit_or n (shr64 n k)

unfoldable pub round_up_power_of_two : ℕ → ℕ
round_up_power_of_two n = add64 (smear 16 (smear 8 (smear 4 (smear 2 (smear 1 (sub64 n 1)))))) 1

abbrev ring_size : ℕ → ℕ
ring_size size =
    if le64 size 0 || not (bit_and size (sub64 size 1) == 0)
    then round_up_power_of_two size
    else size

-- `num_cpu` is `runtime.NumCPU()`.
abbrev shards : ℕ → ℕ
shards num_cpu =
    let capped = if ltb 32 num_cpu then 32 else num_cpu in if ltb capped 4 then 4 else capped

-- The goroutine that it starts is `worker` below.
unfoldable pub new_async_buffer : ℕ → ℕ → Buffer
unfolding round_up_power_of_two
new_async_buffer size num_cpu = record {
  size = ring_size size;
  mask = sub64 (ring_size size) 1;
  read_index = 0;
  write_index = 0;
  buffer = replicate (ring_size size) none;
  mode = drop_mode;
  utilization = 0;
  drop_count = 0;
  dynamic_resize = true;
  resize_threshold = 75;
  flush_interval = 100_000_000;
  shard_count = shards num_cpu;
}

-- How many slots are taken once one more is, from the indices that were loaded.
abbrev pub usage_from : ℕ → ℕ → ℕ
usage_from write_index read_index = sub64 (add64 write_index 1) read_index

-- The test of the fast path, and that of `writeWithRetry`.
abbrev pub has_room : ℕ → ℕ → ℕ → Bool
has_room write_index read_index size = le64 (usage_from write_index read_index) size

abbrev pub is_full : ℕ → ℕ → ℕ → Bool
is_full write_index read_index size = lt64 size (usage_from write_index read_index)

abbrev pub percent_of : ℕ → ℕ → ℕ
percent_of usage size = div64 (mul64 usage 100) size

abbrev pub usage : Buffer → ℕ
usage b = usage_from b.write_index b.read_index

abbrev pub percent : Buffer → ℕ
percent b = percent_of (usage b) b.size

-- A goroutine whose CAS passes has claimed the slot at the old write index.
abbrev pub claim : Buffer → Buffer
claim b = record b { write_index = add64 b.write_index 1 }

-- It then fills the slot, and sets the metric to what it computed before the CAS.
abbrev pub fill : ℕ → Bytes → ℕ → Buffer → Buffer
fill index p metric b = record b {
  buffer = set b.buffer (bit_and index b.mask) (some p);
  utilization = metric;
}

unfoldable pub store : Buffer → Bytes → Buffer
store b p = fill b.write_index p (percent b) (claim b)

unfoldable pub reject : Buffer → Buffer
reject b = record b { drop_count = add64 b.drop_count 1 }

-- One round of the loop of `writeWithRetry`, as it sees the other goroutines: what they do before
-- it loads the indices, whether its CAS is lost, and whether five seconds have passed.
pub record Turn : Type 0 where
  pub others : Buffer → Buffer
  pub lost : Bool
  pub late : Bool

pub data Answer : Type 0 where
  -- the new buffer, the error, and whether `maybeResize` was started
  done : Buffer → Option Error → Bool → Answer
  -- the loop is still running after the rounds given
  waiting : Buffer → Answer

-- `retries` counts the rounds that met a full buffer. The sleep between two rounds is the next
-- turn's `others`.
unfoldable pub write_with_retry : List Turn → ℕ → Buffer → Bytes → Answer
unfolding store reject
write_with_retry [] retries b p = waiting b
write_with_retry (t ∷ ts) retries b p =
    let c = t.others b in
    let full = write_with_retry ts (retries + 1) c p in
    let again = write_with_retry ts retries c p in
    if is_full c.write_index c.read_index c.size
    then if is_drop_mode c.mode
      then done (reject c) (some (sentinel buffer_full)) false
      else if ltb 100 (retries + 1) || t.late
      then done (reject c) (some (sentinel buffer_full)) false
      else full
    else if t.lost
    then again
    else done (store c p) none false

-- `lost` says whether the CAS of the fast path is lost.
unfoldable pub write : Buffer → Bytes → Bool → List Turn → Answer
unfolding write_with_retry
write b p lost turns =
    if has_room b.write_index b.read_index b.size
    then if lost
      then write_with_retry turns 0 b p
      else done (store b p) none (b.dynamic_resize && lt64 b.resize_threshold (percent b))
    else if is_drop_mode b.mode
    then done (reject b) (some (sentinel buffer_full)) false
    else write_with_retry turns 0 b p

-- `for i := readIndex; i < writeIndex; i++ { newBuffer[i&newMask] = b.buffer[i&b.mask] }`, with
-- the rounds left.
unfoldable pub copy_entries :
    ℕ → ℕ → ℕ → ℕ → List (Option Bytes) → List (Option Bytes) → List (Option Bytes)
copy_entries zero i mask new_mask old new = new
copy_entries (suc n) i mask new_mask old new =
    copy_entries n (add64 i 1) mask new_mask old
      (set new (bit_and i new_mask) (get_or old (bit_and i mask) none))

-- The rounds of `for i := from; i < to; i++`.
abbrev pub rounds : ℕ → ℕ → ℕ
rounds from to = if lt64 from to then sub64 to from else 0

-- The ring once `n` rounds of that loop have filled the new buffer.
unfoldable pub grown_to : ℕ → ℕ → ℕ → Buffer → Buffer
unfolding copy_entries
grown_to new_size new_mask n b = record b {
  size = new_size;
  mask = new_mask;
  buffer = copy_entries n b.read_index b.mask new_mask b.buffer (replicate new_size none);
}

-- Whether `maybeResize` returns without growing the ring.
abbrev pub stays_at_size : Buffer → Bool
stays_at_size b = le64 b.utilization b.resize_threshold || lt64 (1024 * 1024) (mul64 b.size 2)

-- The two tests of the utilization, before and under the lock, are one where nothing runs between
-- them.
unfoldable pub maybe_resize : Buffer → Buffer
unfolding grown_to
maybe_resize b =
    let new_size = mul64 b.size 2 in
    if stays_at_size b
    then b
    else grown_to new_size (sub64 new_size 1) (rounds b.read_index b.write_index) b

-- `endIndex` of `flush`: a batch is at most a hundred slots.
abbrev pub flush_end : Buffer → ℕ
flush_end b =
    let pending = sub64 b.write_index b.read_index in
    let batch = if lt64 100 pending then 100 else pending in
    let end_index = add64 b.read_index batch in
    if lt64 b.write_index end_index then b.write_index else end_index

-- What the worker's `select` sees.
pub data Signal : Type 0 where
  tick stop : Signal

-- `writer.Write(entry)` on the writer's state; the Boolean says whether it returned an error.
module _ {W : Type 0} (write_out : Bytes → W → W × Bool) where
  -- The loop of `flush`, with the rounds left.
  unfoldable pub drain : ℕ → ℕ → ℕ → List (Option Bytes) → W → List (Option Bytes) × W
  drain zero i mask buf w = (buf, w)
  drain (suc n) i mask buf w =
      let skip = drain n (add64 i 1) mask buf w in
      let clear = λ (w' : W). drain n (add64 i 1) mask (set buf (bit_and i mask) none) w' in
      elim (get_or buf (bit_and i mask) none) [
        | none ↦ skip
        | some entry ↦
            let (w', failed) = write_out entry w in if failed then (buf, w') else clear w'
      ]

  unfoldable pub flush : Buffer → W → Buffer × W
  unfolding drain
  flush b w =
      let n = rounds b.read_index (flush_end b) in
      let (buf, w') = drain n b.read_index b.mask b.buffer w in
      if le64 b.write_index b.read_index
      then (b, w)
      else (record b { buffer = buf; read_index = flush_end b }, w')

  unfoldable pub worker : List Signal → Buffer → W → Buffer × W
  unfolding flush
  worker [] b w = (b, w)
  worker (tick ∷ ss) b w = let (b', w') = flush b w in worker ss b' w'
  worker (stop ∷ ss) b w = flush b w

  -- `close`: the stop channel is closed and the worker is waited for.
  unfoldable pub close : Buffer → W → Buffer × W
  unfolding worker
  close b w = worker (stop ∷ []) b w

unfoldable pub set_backpressure_mode : BackpressureMode → Buffer → Buffer
set_backpressure_mode m b = record b { mode = m }

unfoldable pub set_dynamic_resize : Bool → Buffer → Buffer
set_dynamic_resize enabled b = record b { dynamic_resize = enabled }

unfoldable pub set_resize_threshold : ℕ → Buffer → Buffer
set_resize_threshold threshold b =
    let low = if lt64 threshold 0 then 0 else threshold in
    record b { resize_threshold = if lt64 100 low then 100 else low }

unfoldable pub set_flush_interval : ℕ → Buffer → Buffer
set_flush_interval interval b = record b { flush_interval = interval }

unfoldable pub get_utilization : Buffer → ℕ
get_utilization b = b.utilization

unfoldable pub get_drop_count : Buffer → ℕ
get_drop_count b = b.drop_count
