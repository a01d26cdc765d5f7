-- ===== src/Config/Laws.antt =====
-- config.go: what a list of options makes of the defaults.
use onelog.Prelude.{ℕ, Bool, ◌≡◌, refl, Option, none, some, List, [], ◌∷◌, map, Bytes}
use onelog.Async.{BackpressureMode}
use onelog.Heap.{Slice}
use onelog.Config.{
  Config, ConfigOption, level_option, formatter_option, writer_option, error_handler_option,
  caller_option, caller_skip_option, async_option, async_buffer_size_option,
  backpressure_mode_option, sampling_option, sampler_option, hooks_option,
  redact_sensitive_fields_option, additional_sensitive_keys_option, dynamic_buffer_resizing_option,
  buffer_resize_threshold_option, flush_interval_option, default_config, apply_options, new_config,
}

-- The calls that make options.
pub data Setting : Type 0 where
  sets_level sets_caller_skip sets_async_buffer_size : ℕ → Setting
  sets_buffer_resize_threshold sets_flush_interval : ℕ → Setting
  sets_formatter sets_writer sets_error_handler sets_sampler : Option ℕ → Setting
  sets_caller sets_async sets_sampling sets_redact sets_dynamic : Bool → Setting
  sets_backpressure_mode : BackpressureMode → Setting
  sets_hooks : Option Slice → Setting
  sets_keys : Option (List Bytes) → Setting

pub option_of : Setting → ConfigOption
unfolding level_option formatter_option writer_option error_handler_option caller_option
    caller_skip_option async_option async_buffer_size_option backpressure_mode_option
    sampling_option sampler_option hooks_option redact_sensitive_fields_option
    additional_sensitive_keys_option dynamic_buffer_resizing_option buffer_resize_threshold_option
    flush_interval_option
option_of (sets_level v) = level_option v
option_of (sets_formatter v) = formatter_option v
option_of (sets_writer v) = writer_option v
option_of (sets_error_handler v) = error_handler_option v
option_of (sets_caller v) = caller_option v
option_of (sets_caller_skip v) = caller_skip_option v
option_of (sets_async v) = async_option v
option_of (sets_async_buffer_size v) = async_buffer_size_option v
option_of (sets_backpressure_mode v) = backpressure_mode_option v
option_of (sets_sampling v) = sampling_option v
option_of (sets_sampler v) = sampler_option v
option_of (sets_hooks v) = hooks_option v
option_of (sets_redact v) = redact_sensitive_fields_option v
option_of (sets_keys v) = additional_sensitive_keys_option v
option_of (sets_dynamic v) = dynamic_buffer_resizing_option v
option_of (sets_buffer_resize_threshold v) = buffer_resize_threshold_option v
option_of (sets_flush_interval v) = flush_interval_option v

-- The last value that settings give by `pick`, or the default.
abbrev pub override {ℓ} : {A : Type ℓ} → Option A → A → A
override none d = d
override (some v) d = v

abbrev pub last_of {ℓ} : {A : Type ℓ} → (Setting → Option A) → List Setting → A → A
last_of pick [] d = d
last_of pick (s ∷ ss) d = last_of pick ss (override (pick s) d)

abbrev pub level_of : Setting → Option ℕ
level_of (sets_level v) = some v
level_of _ = none

abbrev pub formatter_of : Setting → Option (Option ℕ)
formatter_of (sets_formatter v) = some v
formatter_of _ = none

abbrev pub writer_of : Setting → Option (Option ℕ)
writer_of (sets_writer v) = some v
writer_of _ = none

abbrev pub error_handler_of : Setting → Option (Option ℕ)
error_handler_of (sets_error_handler v) = some v
error_handler_of _ = none

abbrev pub enable_caller_of : Setting → Option Bool
enable_caller_of (sets_caller v) = some v
enable_caller_of _ = none

abbrev pub caller_skip_of : Setting → Option ℕ
caller_skip_of (sets_caller_skip v) = some v
caller_skip_of _ = none

abbrev pub enable_async_of : Setting → Option Bool
enable_async_of (sets_async v) = some v
enable_async_of _ = none

abbrev pub async_buffer_size_of : Setting → Option ℕ
async_buffer_size_of (sets_async_buffer_size v) = some v
async_buffer_size_of _ = none

abbrev pub backpressure_mode_of : Setting → Option BackpressureMode
backpressure_mode_of (sets_backpressure_mode v) = some v
backpressure_mode_of _ = none

abbrev pub enable_sampling_of : Setting → Option Bool
enable_sampling_of (sets_sampling v) = some v
enable_sampling_of _ = none

abbrev pub sampler_of : Setting → Option (Option ℕ)
sampler_of (sets_sampler v) = some v
sampler_of _ = none

abbrev pub hooks_of : Setting → Option (Option Slice)
hooks_of (sets_hooks v) = some v
hooks_of _ = none

abbrev pub redact_sensitive_fields_of : Setting → Option Bool
redact_sensitive_fields_of (sets_redact v) = some v
redact_sensitive_fields_of _ = none

abbrev pub additional_sensitive_keys_of : Setting → Option (Option (List Bytes))
additional_sensitive_keys_of (sets_keys v) = some v
additional_sensitive_keys_of _ = none

abbrev pub enable_dynamic_buffer_resizing_of : Setting → Option Bool
enable_dynamic_buffer_resizing_of (sets_dynamic v) = some v
enable_dynamic_buffer_resizing_of _ = none

abbrev pub buffer_resize_threshold_of : Setting → Option ℕ
buffer_resize_threshold_of (sets_buffer_resize_threshold v) = some v
buffer_resize_threshold_of _ = none

abbrev pub flush_interval_of : Setting → Option ℕ
flush_interval_of (sets_flush_interval v) = some v
flush_interval_of _ = none

-- The configuration whose every field is the last that was set, or that of `c`.
abbrev pub last_values : List Setting → Config → Config
last_values ss c = record {
  level = last_of level_of ss c.level;
  formatter = last_of formatter_of ss c.formatter;
  writer = last_of writer_of ss c.writer;
  error_handler = last_of error_handler_of ss c.error_handler;
  enable_caller = last_of enable_caller_of ss c.enable_caller;
  caller_skip = last_of caller_skip_of ss c.caller_skip;
  enable_async = last_of enable_async_of ss c.enable_async;
  async_buffer_size = last_of async_buffer_size_of ss c.async_buffer_size;
  backpressure_mode = last_of backpressure_mode_of ss c.backpressure_mode;
  enable_sampling = last_of enable_sampling_of ss c.enable_sampling;
  sampler = last_of sampler_of ss c.sampler;
  hooks = last_of hooks_of ss c.hooks;
  redact_sensitive_fields = last_of redact_sensitive_fields_of ss c.redact_sensitive_fields;
  additional_sensitive_keys = last_of additional_sensitive_keys_of ss c.additional_sensitive_keys;
  enable_dynamic_buffer_resizing =
      last_of enable_dynamic_buffer_resizing_of ss c.enable_dynamic_buffer_resizing;
  buffer_resize_threshold = last_of buffer_resize_threshold_of ss c.buffer_resize_threshold;
  flush_interval = last_of flush_interval_of ss c.flush_interval;
}

apply_options-last_values :
    (ss : List Setting) (c : Config) → apply_options (map option_of ss) c ≡ last_values ss c
unfolding apply_options option_of
apply_options-last_values [] c = refl
apply_options-last_values (sets_level v ∷ ss) c =
    apply_options-last_values ss (record c { level = v })
apply_options-last_values (sets_formatter v ∷ ss) c =
    apply_options-last_values ss (record c { formatter = v })
apply_options-last_values (sets_writer v ∷ ss) c =
    apply_options-last_values ss (record c { writer = v })
apply_options-last_values (sets_error_handler v ∷ ss) c =
    apply_options-last_values ss (record c { error_handler = v })
apply_options-last_values (sets_caller v ∷ ss) c =
    apply_options-last_values ss (record c { enable_caller = v })
apply_options-last_values (sets_caller_skip v ∷ ss) c =
    apply_options-last_values ss (record c { caller_skip = v })
apply_options-last_values (sets_async v ∷ ss) c =
    apply_options-last_values ss (record c { enable_async = v })
apply_options-last_values (sets_async_buffer_size v ∷ ss) c =
    apply_options-last_values ss (record c { async_buffer_size = v })
apply_options-last_values (sets_backpressure_mode v ∷ ss) c =
    apply_options-last_values ss (record c { backpressure_mode = v })
apply_options-last_values (sets_sampling v ∷ ss) c =
    apply_options-last_values ss (record c { enable_sampling = v })
apply_options-last_values (sets_sampler v ∷ ss) c =
    apply_options-last_values ss (record c { sampler = v })
apply_options-last_values (sets_hooks v ∷ ss) c =
    apply_options-last_values ss (record c { hooks = v })
apply_options-last_values (sets_redact v ∷ ss) c =
    apply_options-last_values ss (record c { redact_sensitive_fields = v })
apply_options-last_values (sets_keys v ∷ ss) c =
    apply_options-last_values ss (record c { additional_sensitive_keys = v })
apply_options-last_values (sets_dynamic v ∷ ss) c =
    apply_options-last_values ss (record c { enable_dynamic_buffer_resizing = v })
apply_options-last_values (sets_buffer_resize_threshold v ∷ ss) c =
    apply_options-last_values ss (record c { buffer_resize_threshold = v })
apply_options-last_values (sets_flush_interval v ∷ ss) c =
    apply_options-last_values ss (record c { flush_interval = v })

-- NewConfig gives every field the value of the last option that sets it, and that of the default
-- configuration if no option does, whatever the order of the options for different fields.
pub new_config_lem :
    (text_formatter stdout : ℕ) (ss : List Setting)
    → new_config text_formatter stdout (map option_of ss)
      ≡ last_values ss (default_config text_formatter stdout)
unfolding new_config
new_config_lem text_formatter stdout ss =
    apply_options-last_values ss (default_config text_formatter stdout)
