-- ===== src/Default/Global.antt =====
-- default.go: the functions of the package, which call the methods of the default logger `l`.
use onelog.Prelude.{ℕ, Bool, Option, List, Bytes}
use onelog.Field.{Field, Entry}
use onelog.Heap.{Heap}
use onelog.Config.{default_config}
use onelog.Logger.{Logger, new, set_logger_level, get_logger_level}
use onelog.Logger.Pipeline.{Client, Circumstances, Outcome}
use onelog.Logger.Calls.{
  Ended, log, fatal, log_formatted, fatal_formatted, with_entry, with_context_entry, close_logger,
}

-- `defaultLogger` at the start of the program.
unfoldable pub first_default : ℕ → ℕ → ℕ → Heap → Logger × Heap
unfolding new
first_default cpus text_formatter stdout h =
    new cpus text_formatter stdout (default_config text_formatter stdout) h

abbrev pub default_logger : Logger → Logger
default_logger l = l

abbrev pub set_default_logger : Logger → Logger → Logger
set_default_logger logger l = logger

unfoldable pub set_default_level : ℕ → Logger → Heap → Heap
unfolding set_logger_level
set_default_level level l h = set_logger_level level l h

unfoldable pub get_default_level : Logger → Heap → ℕ
unfolding get_logger_level
get_default_level l h = get_logger_level l h

-- The entries that `With` and `WithContext` give.
unfoldable pub default_with : List Field → Circumstances → Entry
unfolding with_entry
default_with fields x = with_entry fields x

unfoldable pub default_with_context : ℕ → Circumstances → Entry
unfolding with_context_entry
default_with_context ctx x = with_context_entry ctx x

unfoldable pub default_close :
    {W : Type 0} → (Bytes → W → W × Bool) → Logger → Heap → W → Option (Heap × W)
unfolding close_logger
default_close write l h v = close_logger write l h v

-- The package's logging functions, on the default logger `l`.
module _ {ℓ} {S : Type ℓ} (client : Client S) where
  unfoldable pub default_log :
      ℕ → Bytes → List Field → Circumstances → Logger → S → Heap → Outcome S
  unfolding log
  default_log level message fields x l s h = log client level message fields x l s h

  unfoldable pub default_fatal : Bytes → List Field → Circumstances → Logger → S → Heap → Ended S
  unfolding fatal
  default_fatal message fields x l s h = fatal client message fields x l s h

  unfoldable pub default_log_formatted : ℕ → Bytes → Circumstances → Logger → S → Heap → Outcome S
  unfolding log_formatted
  default_log_formatted level formatted x l s h = log_formatted client level formatted x l s h

  unfoldable pub default_fatal_formatted : Bytes → Circumstances → Logger → S → Heap → Ended S
  unfolding fatal_formatted
  default_fatal_formatted formatted x l s h = fatal_formatted client formatted x l s h
