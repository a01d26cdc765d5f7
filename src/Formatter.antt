-- ===== src/Formatter.antt =====
-- formatter.go and formatter_json.go: the options, the text of a field, and the JSON formatter.
-- A buffer is the bytes written to it. What strconv, fmt and time print is a parameter.
pub mod Json
pub mod Logfmt
pub mod Text
pub mod Clf
mod Tests
use onelog.Prelude.{
  ℕ, ◌-◌, ◌%◌, ◌<◌, Bool, true, false, ◌&&◌, Option, none, some, List, [], ◌∷◌, ◌++◌, Bytes, codes,
  if◌then◌else◌, ◌==◌, ltb, lt64, length, take,
}
use onelog.Field.{
  FieldType, unknown_type, bool_type, int_type, int64_type, uint_type, uint64_type, float32_type,
  float64_type, string_type, time_type, duration_type, error_type, object_type, array_type,
  binary_type, Payload, nil_value, time_value, duration_value, bytes_value, Field, Entry,
  CallerInfo,
}
use onelog.Level.{level_string, disabled}
use onelog.Utils.Escape.{write_escaped_string_optimized}
use onelog.Utils.Base64.{encode_base64}

-- strconv.AppendInt and AppendUint to base 10, strconv.AppendFloat, time.Time.Format (the layout
-- first), time.Duration.String, and fmt.Sprintf "%v"; the last two are the type assertions of
-- `FormatField` on a value's methods, with what the method returns.
pub record Printers : Type 0 where
  pub append_int : ℕ → Bytes
  pub append_uint : ℕ → Bytes
  pub append_float : ℕ → Bytes
  pub format_time : Bytes → ℕ → Bytes
  pub duration_string : ℕ → Bytes
  pub sprint : Payload → Bytes
  pub as_formatter : Payload → Option (Bytes → Bytes)
  pub as_stringer : Payload → Option Bytes

-- `none` for a nil function.
pub record FormatterOptions : Type 0 where
  pub no_timestamp : Bool
  pub no_level : Bool
  pub no_colors : Bool
  pub time_format : Bytes
  pub disable_quote : Bool
  pub disable_escape : Bool
  pub pretty_print : Bool
  pub truncate_strings : ℕ
  pub redacted_value : Bytes
  pub disable_newline : Bool
  pub field_name_converter : Option (Bytes → Bytes)
  pub omit_empty : Bool
  pub time_key : Bytes
  pub level_key : Bytes
  pub message_key : Bytes
  pub caller_key : Bytes

abbrev pub default_formatter_options : FormatterOptions
default_formatter_options = record {
  no_timestamp = false;
  no_level = false;
  no_colors = false;
  time_format = codes "2006-01-02T15:04:05.000Z07:00";
  disable_quote = false;
  disable_escape = false;
  pretty_print = false;
  truncate_strings = 0;
  redacted_value = codes "[REDACTED]";
  disable_newline = false;
  field_name_converter = some (λ s. s);
  omit_empty = false;
  time_key = codes "time";
  level_key = codes "level";
  message_key = codes "message";
  caller_key = codes "caller";
}

abbrev pub write_quote : Bytes → Bytes
write_quote buf = buf ++ b'"' ∷ []

-- The limit is an int.
abbrev pub is_long : FormatterOptions → Bytes → Bool
is_long o s = lt64 0 o.truncate_strings && ltb o.truncate_strings (length s)

abbrev formatted_with : Option (Bytes → Bytes) → Bytes → Option Bytes
formatted_with none layout = none
formatted_with (some format) layout = some (format layout)

module _ (p : Printers) where
  unfoldable pub stringify_value : Payload → Bytes
  stringify_value nil_value = codes "null"
  stringify_value v = p.sprint v

  abbrev quote : FormatterOptions → Bytes → Bytes
  quote o buf = if o.disable_quote then buf else write_quote buf

  abbrev escape : FormatterOptions → Bytes → Bytes → Bytes
  escape o buf s = if o.disable_escape then buf ++ s else write_escaped_string_optimized buf s

  abbrev quote_text : FormatterOptions → Bytes → Option Bytes → Bytes
  quote_text o buf none = buf ++ codes "null"
  quote_text o buf (some s) = quote o (quote o buf ++ s)

  -- The switch of `FormatField`.
  abbrev format_typed : Bytes → FieldType → Field → FormatterOptions → Bytes
  format_typed buf bool_type f o = buf ++ (if f.integer == 1 then codes "true" else codes "false")
  format_typed buf int_type f o = buf ++ p.append_int f.integer
  format_typed buf int64_type f o = buf ++ p.append_int f.integer
  format_typed buf uint_type f o = buf ++ p.append_uint f.integer
  format_typed buf uint64_type f o = buf ++ p.append_uint f.integer
  format_typed buf float32_type f o = buf ++ p.append_float f.float
  format_typed buf float64_type f o = buf ++ p.append_float f.float
  format_typed buf string_type f o =
      if is_long o f.string
      then quote o (escape o (quote o buf) (take o.truncate_strings f.string) ++ codes "...")
      else quote o (escape o (quote o buf) f.string)
  format_typed buf error_type f o = quote o (escape o (quote o buf) f.string)
  format_typed buf time_type f o =
      quote_text o buf (formatted_with (p.as_formatter f.interface) o.time_format)
  format_typed buf duration_type f o = quote_text o buf (p.as_stringer f.interface)
  format_typed buf object_type f o = quote_text o buf (some (stringify_value f.interface))
  format_typed buf array_type f o = quote_text o buf (some (stringify_value f.interface))
  format_typed buf binary_type f o = quote_text o buf (some (stringify_value f.interface))
  format_typed buf unknown_type f o = buf ++ codes "null"

  unfoldable pub format_field : Bytes → Field → FormatterOptions → Bytes
  format_field buf f o =
      if f.is_sensitive then buf ++ o.redacted_value else format_typed buf f.type f o
