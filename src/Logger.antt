-- ===== src/Logger.antt =====
-- logger.go: the logger, its construction, and the loggers derived from it. Logger/Pipeline.antt
-- has the log calls.
pub mod Pipeline
pub mod Calls
pub mod Trace
pub mod Faithful
pub mod Release
pub mod Share
pub mod Queueing
pub mod Delivery
pub mod Settings
pub mod Rings
pub mod Closing
mod Tests
use onelog.Prelude.{
  ℕ, zero, suc, ◌+◌, ◌*◌, Bool, true, false, ◌&&◌, Option, none, some, List, [], ◌∷◌, ◌++◌, Bytes,
  codes, length, take, get_or, set, replicate, if◌then◌else◌, ltb, lt64, le64,
}
use onelog.Level.{AtomicLevel, new_atomic_level, set_level, get_level, info_level}
use onelog.Async.{
  Buffer, BackpressureMode, drop_mode, block_mode, new_async_buffer, set_backpressure_mode,
  set_dynamic_resize, set_resize_threshold, set_flush_interval,
}
use onelog.Heap.{
  Slice, Ring, Heap, level_at, ring_at, array_at, alloc_level, alloc_ring, append_to, made,
}
use onelog.Config.{Config}

pub record Logger : Type 0 where
  pub level : ℕ
  pub formatter : Option ℕ
  pub writer : Option ℕ
  pub error_handler : Option ℕ
  pub enable_async : Bool
  pub async_buffer : Option ℕ
  pub sampler : Option ℕ
  pub enable_caller : Bool
  pub caller_skip : ℕ
  pub hooks : Option Slice

-- `default_formatter` is a new TextFormatter, `stdout` is os.Stdout.
abbrev pub or_default : ℕ → Option ℕ → Option ℕ
or_default d none = some d
or_default d (some x) = some x

abbrev pub is_block : BackpressureMode → Bool
is_block drop_mode = false
is_block block_mode = true

abbrev pub when : {A : Type 0} → Bool → (A → A) → A → A
when b f a = if b then f a else a

unfoldable pub with_level : ℕ → Logger → Heap → Logger × Heap
with_level v l h = (record l { level = length h.levels }, alloc_level v h)

unfoldable pub with_formatter : Option ℕ → Logger → Logger
with_formatter f l = record l { formatter = f }

unfoldable pub with_error_handler : Option ℕ → Logger → Logger
with_error_handler handler l = record l { error_handler = handler }

unfoldable pub with_sampler : Option ℕ → Logger → Logger
with_sampler s l = record l { sampler = s }

unfoldable pub with_caller : Bool → Logger → Logger
with_caller enabled l = record l { enable_caller = enabled }

-- `cpus` is `runtime.NumCPU()`.
module _ (cpus : ℕ) where
  -- The ring that New makes, with the settings of the configuration.
  unfoldable pub configured_ring : Config → Buffer
  unfolding new_async_buffer set_backpressure_mode set_dynamic_resize set_resize_threshold
      set_flush_interval
  configured_ring c = when (lt64 0 c.flush_interval) (set_flush_interval c.flush_interval) (
      when c.enable_dynamic_buffer_resizing
        (λ b.
          when (lt64 0 c.buffer_resize_threshold) (set_resize_threshold c.buffer_resize_threshold)
            (set_dynamic_resize true b))
        (when (is_block c.backpressure_mode) (set_backpressure_mode block_mode) (
          new_async_buffer (if le64 c.async_buffer_size 0 then 8192 else c.async_buffer_size)
            cpus)))

  unfoldable pub new : ℕ → ℕ → Config → Heap → Logger × Heap
  unfolding configured_ring
  new default_formatter stdout c h = (logger, after)
    where
      logger : Logger
      logger = record {
        level = length h.levels;
        formatter = or_default default_formatter c.formatter;
        writer = or_default stdout c.writer;
        error_handler = c.error_handler;
        enable_async = c.enable_async;
        async_buffer = if c.enable_async then some (length h.rings) else none;
        sampler = c.sampler;
        enable_caller = c.enable_caller;
        caller_skip = c.caller_skip;
        hooks = c.hooks;
      }

      ring : Ring
      ring = record {
        buffer = configured_ring c;
        out = or_default stdout c.writer;
        stopped = false;
      }

      after : Heap
      after = when c.enable_async (alloc_ring ring) (alloc_level c.level h)

  -- A new ring of the same size for another writer, with the settings copied.
  unfoldable pub copied_ring : Buffer → Buffer
  unfolding new_async_buffer set_backpressure_mode set_dynamic_resize set_resize_threshold
      set_flush_interval
  copied_ring b = set_flush_interval b.flush_interval (
      set_resize_threshold b.resize_threshold (
        set_dynamic_resize b.dynamic_resize
          (set_backpressure_mode b.mode (new_async_buffer b.size cpus))))

  unfoldable pub rewired : Bool → Option ℕ → Option ℕ → Logger → Heap → Logger × Heap
  unfolding copied_ring ring_at
  rewired true (some a) w l h = (
    record l { async_buffer = some (length h.rings) },
    alloc_ring (record { buffer = copied_ring (ring_at h a).buffer; out = w; stopped = false }) h,
  )
  rewired _ _ w l h = (l, h)

  unfoldable pub with_writer : Option ℕ → Logger → Heap → Logger × Heap
  unfolding rewired
  with_writer w l h = rewired l.enable_async l.async_buffer w (record l { writer = w }) h

  unfoldable pub with_ring : Bool → Option ℕ → Logger → Heap → Logger × Heap
  unfolding new_async_buffer
  with_ring true none l h = (
    record l { async_buffer = some (length h.rings) },
    alloc_ring (record { buffer = new_async_buffer 8192 cpus; out = l.writer; stopped = false }) h,
  )
  with_ring _ _ l h = (l, h)

  unfoldable pub with_async : Bool → Logger → Heap → Logger × Heap
  unfolding with_ring
  with_async enabled l h = with_ring enabled l.async_buffer (record l { enable_async = enabled }) h

unfoldable pub with_hook : (ℕ → ℕ) → ℕ → Logger → Heap → Logger × Heap
with_hook spare hook l h = (record l { hooks = some appended.0 }, appended.1)
  where
    start : Slice × Heap
    start = made l.hooks h

    appended : Slice × Heap
    appended = append_to spare start.0 hook start.1

unfoldable pub set_logger_level : ℕ → Logger → Heap → Heap
unfolding set_level
set_logger_level v l h = record h {
  levels = set h.levels l.level (set_level v (level_at h l.level));
}

unfoldable pub get_logger_level : Logger → Heap → ℕ
unfolding get_level
get_logger_level l h = get_level (level_at h l.level)
