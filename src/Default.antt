-- ===== src/Default.antt =====
-- default.go: the default logger and its setters, and the loggers that are configured for a use.
-- The default logger is a logger in a heap, as the other functions take it.
pub mod Presets
pub mod Global
use onelog.Prelude.{ℕ, Bool, true, false, Option, none, some, List, [], ◌∷◌, Bytes, length}
use onelog.Errors.{Error}
use onelog.Level.{trace_level, debug_level, info_level, error_level}
use onelog.Async.{drop_mode, new_async_buffer}
use onelog.Heap.{Ring, Heap, alloc_ring}
use onelog.Config.{
  Config, ConfigOption, new_config, level_option, formatter_option, writer_option,
  error_handler_option, caller_option, async_option, async_buffer_size_option,
  backpressure_mode_option, sampling_option, sampler_option, redact_sensitive_fields_option,
  dynamic_buffer_resizing_option, buffer_resize_threshold_option, flush_interval_option,
}
use onelog.Logger.{Logger, new}
use onelog.Writer.{
  FileWriter, FileWriterOption, Opening, new_file_writer, with_max_size, with_max_age,
  with_max_backups, with_compress,
}
use onelog.Writer.Files.{Disk}

unfoldable pub set_formatter : Option ℕ → Logger → Logger
set_formatter f l = record l { formatter = f }

unfoldable pub set_writer : Option ℕ → Logger → Logger
set_writer w l = record l { writer = w }

unfoldable pub set_error_handler : Option ℕ → Logger → Logger
set_error_handler handler l = record l { error_handler = handler }

unfoldable pub set_caller : Bool → Logger → Logger
set_caller enabled l = record l { enable_caller = enabled }

unfoldable pub set_caller_skip : ℕ → Logger → Logger
set_caller_skip skip l = record l { caller_skip = skip }

unfoldable pub set_sampler : Option ℕ → Logger → Logger
set_sampler s l = record l { sampler = s }

-- `cpus` is `runtime.NumCPU()`.
unfoldable pub async_ring : ℕ → Bool → Option ℕ → Logger → Heap → Logger × Heap
unfolding new_async_buffer
async_ring cpus true none l h = (
  record l { async_buffer = some (length h.rings) },
  alloc_ring (record { buffer = new_async_buffer 8192 cpus; out = l.writer; stopped = false }) h,
)
async_ring cpus _ _ l h = (l, h)

unfoldable pub set_async : ℕ → Bool → Logger → Heap → Logger × Heap
unfolding async_ring
set_async cpus enabled l h =
    async_ring cpus enabled l.async_buffer (record l { enable_async = enabled }) h

-- What the constructors of the loggers make anew: formatters, samplers and the handler that prints
-- to stderr, by number, and the number of processors.
pub record Parts : Type 0 where
  pub cpus : ℕ
  pub text : ℕ
  pub json : ℕ
  pub bare_json : ℕ
  pub stdout : ℕ
  pub stderr : ℕ
  pub print_error : ℕ
  pub rate_sampler : ℕ
  pub adaptive_sampler : ℕ

unfoldable pub configured : Parts → List ConfigOption → Config
unfolding new_config
configured x options = new_config x.text x.stdout options

unfoldable pub build : Parts → List ConfigOption → Heap → Logger × Heap
unfolding new configured
build x options h = new x.cpus x.text x.stdout (configured x options) h

unfoldable pub development_options : Parts → List ConfigOption
unfolding level_option formatter_option writer_option caller_option error_handler_option
development_options x =
    level_option debug_level
    ∷ formatter_option (some x.text)
    ∷ writer_option (some x.stdout)
    ∷ caller_option true
    ∷ error_handler_option (some x.print_error)
    ∷ []

unfoldable pub production_options : Parts → List ConfigOption
unfolding level_option formatter_option writer_option async_option async_buffer_size_option
    backpressure_mode_option sampling_option sampler_option redact_sensitive_fields_option
    error_handler_option
production_options x =
    level_option info_level
    ∷ formatter_option (some x.json)
    ∷ writer_option (some x.stdout)
    ∷ async_option true
    ∷ async_buffer_size_option 32_768
    ∷ backpressure_mode_option drop_mode
    ∷ sampling_option true
    ∷ sampler_option (some x.rate_sampler)
    ∷ redact_sensitive_fields_option true
    ∷ error_handler_option (some x.print_error)
    ∷ []

unfoldable pub high_performance_options : Parts → List ConfigOption
unfolding level_option formatter_option writer_option async_option async_buffer_size_option
    backpressure_mode_option sampling_option sampler_option caller_option
    dynamic_buffer_resizing_option buffer_resize_threshold_option flush_interval_option
    redact_sensitive_fields_option error_handler_option
high_performance_options x =
    level_option info_level
    ∷ formatter_option (some x.bare_json)
    ∷ writer_option (some x.stdout)
    ∷ async_option true
    ∷ async_buffer_size_option 65_536
    ∷ backpressure_mode_option drop_mode
    ∷ sampling_option true
    ∷ sampler_option (some x.adaptive_sampler)
    ∷ caller_option false
    ∷ dynamic_buffer_resizing_option true
    ∷ buffer_resize_threshold_option 75
    ∷ flush_interval_option 100_000_000
    ∷ redact_sensitive_fields_option true
    ∷ error_handler_option (some x.print_error)
    ∷ []

unfoldable pub quiet_options : Parts → List ConfigOption
unfolding level_option formatter_option writer_option
quiet_options x =
    level_option error_level ∷ formatter_option (some x.text) ∷ writer_option (some x.stderr) ∷ []

unfoldable pub verbose_options : Parts → List ConfigOption
unfolding level_option formatter_option writer_option caller_option
verbose_options x =
    level_option trace_level
    ∷ formatter_option (some x.text)
    ∷ writer_option (some x.stdout)
    ∷ caller_option true
    ∷ []

-- `out` is the writer that the logger is made for.
unfoldable pub file_options : Parts → ℕ → List ConfigOption
unfolding level_option formatter_option writer_option async_option
file_options x out =
    level_option info_level
    ∷ formatter_option (some x.json)
    ∷ writer_option (some out)
    ∷ async_option true
    ∷ []

unfoldable pub new_development_logger : Parts → Heap → Logger × Heap
unfolding build development_options
new_development_logger x h = build x (development_options x) h

unfoldable pub new_production_logger : Parts → Heap → Logger × Heap
unfolding build production_options
new_production_logger x h = build x (production_options x) h

unfoldable pub new_high_performance_logger : Parts → Heap → Logger × Heap
unfolding build high_performance_options
new_high_performance_logger x h = build x (high_performance_options x) h

unfoldable pub new_quiet_logger : Parts → Heap → Logger × Heap
unfolding build quiet_options
new_quiet_logger x h = build x (quiet_options x) h

unfoldable pub new_verbose_logger : Parts → Heap → Logger × Heap
unfolding build verbose_options
new_verbose_logger x h = build x (verbose_options x) h

-- A logger on a file, the file's writer and the files; with an error there is no logger.
pub data FileLogger : Type 0 where
  made : Logger → FileWriter → Heap → Disk → FileLogger
  failed : Error → Heap → Disk → FileLogger

unfoldable pub on_file : Parts → ℕ → Heap → FileWriter × Disk × Option Error → FileLogger
unfolding build file_options
on_file x out h (w, d, some e) = failed e h d
on_file x out h (w, d, none) = let (l, h') = build x (file_options x out) h in made l w h' d

-- `out` is the number of the new file writer, or of the multi writer over it.
unfoldable pub new_file_logger : Parts → ℕ → Bytes → Opening → Heap → Disk → FileLogger
unfolding on_file new_file_writer
new_file_logger x out filename o h d = on_file x out h (new_file_writer filename [] o d)

unfoldable pub new_rotating_file_logger :
    Parts → ℕ → Bytes → ℕ → ℕ → ℕ → Opening → Heap → Disk → FileLogger
unfolding on_file new_file_writer with_max_size with_max_age with_max_backups with_compress
new_rotating_file_logger x out filename max_size max_age max_backups o h d = on_file x out h (
    new_file_writer filename
      (with_max_size max_size
        ∷ with_max_age max_age
        ∷ with_max_backups max_backups
        ∷ with_compress true
        ∷ [])
      o d)

unfoldable pub new_console_and_file_logger : Parts → ℕ → Bytes → Opening → Heap → Disk → FileLogger
unfolding on_file new_file_writer
new_console_and_file_logger x out filename o h d = on_file x out h (new_file_writer filename [] o d)
