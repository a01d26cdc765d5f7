-- ===== src/Formatter/Logfmt.antt =====
-- formatter_logfmt.go: the logfmt formatter. Its cache of printed times is that of the JSON
-- formatter, whose `getCachedTimeString` has the same body.
pub mod Escape
pub mod Append
pub mod Members
pub mod Structure
pub mod Redaction
mod Tests
use onelog.Prelude.{
  ℕ, Bool, true, false, ◌||◌, Option, none, some, List, [], ◌∷◌, ◌++◌, Bytes, codes, if◌then◌else◌,
  ◌==◌, ltb, length, take,
}
use onelog.Field.{
  FieldType, unknown_type, bool_type, int_type, int64_type, uint_type, uint64_type, float32_type,
  float64_type, string_type, time_type, duration_type, error_type, object_type, array_type,
  binary_type, Payload, time_value, duration_value, Field, Entry, CallerInfo,
}
use onelog.Level.{level_string}
use onelog.Utils.Escape.{escape_loop, finish}
use onelog.Formatter.{
  Printers, FormatterOptions, default_formatter_options, stringify_value, is_long,
}
use onelog.Formatter.Json.{TimeCache, get_cached_time_string}

-- The tests of the loop, and what follows the backslash.
abbrev pub logfmt_must : ℕ → Bool
logfmt_must c = (c == b'\\' || c == b'"' || c == b' ' || c == b'=') || c == 10 || c == 13 || c == 9

abbrev pub logfmt_code : ℕ → Bytes
logfmt_code c =
    if c == b'\\' || c == b'"' || c == b' ' || c == b'='
    then c ∷ []
    else if c == 10
    then codes "n"
    else if c == 13
    then codes "r"
    else codes "t"

unfoldable pub write_escaped_logfmt_string : Bytes → Bytes → Bytes
unfolding escape_loop
write_escaped_logfmt_string buf s = finish s (escape_loop logfmt_must logfmt_code s s 0 0 buf)

pub record LogfmtFormatter : Type 0 where
  pub options : FormatterOptions
  pub disable_quoting : Bool
  pub disable_sorting : Bool
  pub time_cache : Option TimeCache

abbrev pub new_logfmt_formatter : LogfmtFormatter
new_logfmt_formatter = record {
  options = default_formatter_options;
  disable_quoting = false;
  disable_sorting = false;
  time_cache = some [];
}

-- The quote that is written unless quoting is disabled.
abbrev pub quote_mark : LogfmtFormatter → Bytes
quote_mark l = if l.disable_quoting then [] else b'"' ∷ []

abbrev pub blank_before : Bytes → Bytes
blank_before buf = if 0 == length buf then buf else buf ++ b' ' ∷ []

-- `sort_by_key` is `sort.Slice` by the key, which leaves the order of equal keys open.
module _ (p : Printers) (sort_by_key : List Field → List Field) where
  abbrev pub marked : LogfmtFormatter → Bytes → Bytes → Bytes
  marked l buf text = buf ++ quote_mark l ++ text ++ quote_mark l

  abbrev pub escaped_value : LogfmtFormatter → Bytes → Bytes → Bytes
  escaped_value l buf s = write_escaped_logfmt_string (buf ++ quote_mark l) s ++ quote_mark l

  abbrev pub time_value_text : LogfmtFormatter → Bytes → Payload → Bytes
  time_value_text l buf (time_value t) = marked l buf (p.format_time l.options.time_format t)
  time_value_text l buf v = buf ++ codes "null"

  abbrev pub duration_value_text : LogfmtFormatter → Bytes → Payload → Bytes
  duration_value_text l buf (duration_value d) = marked l buf (p.duration_string d)
  duration_value_text l buf v = buf ++ codes "null"

  abbrev pub logfmt_typed : LogfmtFormatter → Bytes → FieldType → Field → Bytes
  logfmt_typed l buf bool_type f = buf ++ (if f.integer == 1 then codes "true" else codes "false")
  logfmt_typed l buf int_type f = buf ++ p.append_int f.integer
  logfmt_typed l buf int64_type f = buf ++ p.append_int f.integer
  logfmt_typed l buf uint_type f = buf ++ p.append_uint f.integer
  logfmt_typed l buf uint64_type f = buf ++ p.append_uint f.integer
  logfmt_typed l buf float32_type f = buf ++ p.append_float f.float
  logfmt_typed l buf float64_type f = buf ++ p.append_float f.float
  logfmt_typed l buf string_type f =
      if is_long l.options f.string
      then write_escaped_logfmt_string (buf ++ quote_mark l)
          (take l.options.truncate_strings f.string)
        ++ codes "..."
        ++ quote_mark l
      else escaped_value l buf f.string
  logfmt_typed l buf time_type f = time_value_text l buf f.interface
  logfmt_typed l buf duration_type f = duration_value_text l buf f.interface
  logfmt_typed l buf error_type f = escaped_value l buf f.string
  logfmt_typed l buf object_type f = escaped_value l buf (stringify_value p f.interface)
  logfmt_typed l buf array_type f = escaped_value l buf (stringify_value p f.interface)
  logfmt_typed l buf binary_type f = escaped_value l buf (stringify_value p f.interface)
  logfmt_typed l buf unknown_type f = buf ++ codes "null"

  unfoldable pub format_field_value : LogfmtFormatter → Bytes → Field → Bytes
  format_field_value l buf f =
      if f.is_sensitive then marked l buf l.options.redacted_value else logfmt_typed l buf f.type f

  -- Loading from a nil cache panics.
  abbrev pub logfmt_cached :
      LogfmtFormatter → Option TimeCache → ℕ → Bytes → Option (LogfmtFormatter × Bytes)
  logfmt_cached l none time buf = none
  logfmt_cached l (some c) time buf =
      let (c', text) = get_cached_time_string p c time l.options.time_format in
      some
        (record l { time_cache = some c' }, marked l (buf ++ l.options.time_key ++ b'=' ∷ []) text)

  abbrev pub logfmt_timestamp : LogfmtFormatter → ℕ → Bytes → Option (LogfmtFormatter × Bytes)
  logfmt_timestamp l time buf =
      if l.options.no_timestamp then some (l, buf) else logfmt_cached l l.time_cache time buf

  abbrev pub logfmt_level : LogfmtFormatter → ℕ → Bytes → Bytes
  logfmt_level l level buf =
      if l.options.no_level
      then buf
      else marked l (blank_before buf ++ l.options.level_key ++ b'=' ∷ [])
          (level_string p.append_uint level)

  abbrev pub logfmt_message : LogfmtFormatter → Bytes → Bytes → Bytes
  logfmt_message l message buf =
      if 0 == length message
      then buf
      else escaped_value l (blank_before buf ++ l.options.message_key ++ b'=' ∷ []) message

  abbrev pub logfmt_caller : LogfmtFormatter → Option CallerInfo → Bytes → Bytes
  logfmt_caller l none buf = buf
  logfmt_caller l (some c) buf =
      write_escaped_logfmt_string
        (blank_before buf ++ l.options.caller_key ++ b'=' ∷ [] ++ quote_mark l) c.file
      ++ b':' ∷ p.append_int c.line
      ++ quote_mark l

  unfoldable pub logfmt_fields : LogfmtFormatter → (Bytes → Bytes) → List Field → Bytes → Bytes
  unfolding format_field_value
  logfmt_fields l convert [] buf = buf
  logfmt_fields l convert (f ∷ fs) buf = logfmt_fields l convert fs (
      format_field_value l
        (write_escaped_logfmt_string (blank_before buf) (convert f.key) ++ b'=' ∷ []) f)

  -- Calling a nil converter panics.
  abbrev pub logfmt_all_fields :
      LogfmtFormatter → Option (Bytes → Bytes) → List Field → Bytes → Option Bytes
  logfmt_all_fields l convert [] buf = some buf
  logfmt_all_fields l none (f ∷ fs) buf = none
  logfmt_all_fields l (some convert) (f ∷ fs) buf = some (logfmt_fields l convert (f ∷ fs) buf)

  -- The sort is in place: the entry has the sorted fields afterwards.
  abbrev pub field_order : LogfmtFormatter → List Field → List Field
  field_order l fs =
      if l.disable_sorting then fs else if ltb 1 (length fs) then sort_by_key fs else fs

  abbrev pub logfmt_end :
      LogfmtFormatter → Entry → Option Bytes → Option (LogfmtFormatter × Entry × Bytes)
  logfmt_end l e none = none
  logfmt_end l e (some buf) = some (l, e, if l.options.disable_newline then buf else buf ++ 10 ∷ [])

  abbrev pub logfmt_body :
      Entry → Option (LogfmtFormatter × Bytes) → Option (LogfmtFormatter × Entry × Bytes)
  logfmt_body e none = none
  logfmt_body e (some (l, buf)) =
      let sorted = field_order l e.fields in
      logfmt_end l (record e { fields = sorted })
        (logfmt_all_fields l l.options.field_name_converter sorted
          (logfmt_caller l e.caller_info (logfmt_message l e.message (logfmt_level l e.level buf))))

  -- What is passed to the writer, whose error is returned; `none` is a panic.
  unfoldable pub format_logfmt : LogfmtFormatter → Entry → Option (LogfmtFormatter × Entry × Bytes)
  unfolding logfmt_fields
  format_logfmt l e = logfmt_body e (logfmt_timestamp l e.time [])
