-- ===== src/Config.antt =====
-- config.go: the configuration of a logger, its options and its checks.
use onelog.Prelude.{
  ℕ, zero, suc, ◌+◌, ◌*◌, Bool, true, false, ◌&&◌, Option, none, some, List, [], ◌∷◌, ◌++◌, Bytes,
  codes, length, take, get_or, set, replicate, if◌then◌else◌, ltb, lt64, le64,
}
use onelog.Level.{AtomicLevel, new_atomic_level, set_level, get_level, info_level}
use onelog.Async.{
  Buffer, BackpressureMode, drop_mode, block_mode, new_async_buffer, set_backpressure_mode,
  set_dynamic_resize, set_resize_threshold, set_flush_interval,
}
use onelog.Errors.{Error, sentinel, invalid_formatter, invalid_writer}
use onelog.Heap.{Slice, Heap, array_at, alloc_array, hooks_in}
pub mod Laws
mod Tests

pub record Config : Type 0 where
  pub level : ℕ
  pub formatter : Option ℕ
  pub writer : Option ℕ
  pub error_handler : Option ℕ
  pub enable_caller : Bool
  pub caller_skip : ℕ
  pub enable_async : Bool
  pub async_buffer_size : ℕ
  pub backpressure_mode : BackpressureMode
  pub enable_sampling : Bool
  pub sampler : Option ℕ
  pub hooks : Option Slice
  pub redact_sensitive_fields : Bool
  pub additional_sensitive_keys : Option (List Bytes)
  pub enable_dynamic_buffer_resizing : Bool
  pub buffer_resize_threshold : ℕ
  pub flush_interval : ℕ

abbrev pub ConfigOption : Type 0
ConfigOption = Config → Config

unfoldable pub level_option : ℕ → ConfigOption
level_option v c = record c { level = v }

unfoldable pub formatter_option : Option ℕ → ConfigOption
formatter_option f c = record c { formatter = f }

unfoldable pub writer_option : Option ℕ → ConfigOption
writer_option w c = record c { writer = w }

unfoldable pub error_handler_option : Option ℕ → ConfigOption
error_handler_option handler c = record c { error_handler = handler }

unfoldable pub caller_option : Bool → ConfigOption
caller_option enabled c = record c { enable_caller = enabled }

unfoldable pub caller_skip_option : ℕ → ConfigOption
caller_skip_option skip c = record c { caller_skip = skip }

unfoldable pub async_option : Bool → ConfigOption
async_option enabled c = record c { enable_async = enabled }

unfoldable pub async_buffer_size_option : ℕ → ConfigOption
async_buffer_size_option size c = record c { async_buffer_size = size }

unfoldable pub backpressure_mode_option : BackpressureMode → ConfigOption
backpressure_mode_option mode c = record c { backpressure_mode = mode }

unfoldable pub sampling_option : Bool → ConfigOption
sampling_option enabled c = record c { enable_sampling = enabled }

unfoldable pub sampler_option : Option ℕ → ConfigOption
sampler_option s c = record c { sampler = s }

unfoldable pub hooks_option : Option Slice → ConfigOption
hooks_option hooks c = record c { hooks = hooks }

unfoldable pub redact_sensitive_fields_option : Bool → ConfigOption
redact_sensitive_fields_option enabled c = record c { redact_sensitive_fields = enabled }

unfoldable pub additional_sensitive_keys_option : Option (List Bytes) → ConfigOption
additional_sensitive_keys_option keys c = record c { additional_sensitive_keys = keys }

unfoldable pub dynamic_buffer_resizing_option : Bool → ConfigOption
dynamic_buffer_resizing_option enabled c = record c { enable_dynamic_buffer_resizing = enabled }

unfoldable pub buffer_resize_threshold_option : ℕ → ConfigOption
buffer_resize_threshold_option threshold c = record c { buffer_resize_threshold = threshold }

unfoldable pub flush_interval_option : ℕ → ConfigOption
flush_interval_option interval c = record c { flush_interval = interval }

-- `text_formatter` is a new TextFormatter, `stdout` is os.Stdout.
unfoldable pub default_config : ℕ → ℕ → Config
default_config text_formatter stdout = record {
  level = info_level;
  formatter = some text_formatter;
  writer = some stdout;
  error_handler = none;
  enable_caller = false;
  caller_skip = 0;
  enable_async = false;
  async_buffer_size = 8192;
  backpressure_mode = drop_mode;
  enable_sampling = false;
  sampler = none;
  hooks = none;
  redact_sensitive_fields = true;
  additional_sensitive_keys = none;
  enable_dynamic_buffer_resizing = true;
  buffer_resize_threshold = 75;
  flush_interval = 100 * 1_000_000;
}

unfoldable pub apply_options : List ConfigOption → Config → Config
apply_options [] c = c
apply_options (o ∷ os) c = apply_options os (o c)

unfoldable pub new_config : ℕ → ℕ → List ConfigOption → Config
unfolding apply_options default_config
new_config text_formatter stdout options =
    apply_options options (default_config text_formatter stdout)

abbrev pub check : Option ℕ → Option ℕ → Option Error
check none w = some (sentinel invalid_formatter)
check (some f) none = some (sentinel invalid_writer)
check (some f) (some w) = none

unfoldable pub validate : Config → Option Error
validate c = check c.formatter c.writer

-- `make` and `copy`: a new array that the slice fills.
abbrev pub copied_slice : Option Slice → Heap → Option Slice × Heap
copied_slice none h = (none, h)
copied_slice (some s) h = (
  some (record { array = length h.arrays; len = s.len; cap = s.len }),
  alloc_array (hooks_in h (some s)) h,
)

-- The keys are values here: nothing writes to the array of either slice.
unfoldable pub clone : Config → Heap → Config × Heap
clone c h = (record c { hooks = copied.0 }, copied.1)
  where
    copied : Option Slice × Heap
    copied = copied_slice c.hooks h
