-- ===== src/Formatter/Text.antt =====
-- formatter_text.go: the text formatter. Its cache of printed times is that of the JSON formatter,
-- whose `getCachedTimeString` has the same body; the colors are the palette of colors.go.
pub mod Tints
pub mod Colored
pub mod Redaction
mod Tests
use onelog.Prelude.{
  ℕ, Bool, true, false, Option, none, some, List, [], ◌∷◌, ◌++◌, Bytes, codes, if◌then◌else◌, ◌==◌,
  ltb, length, take,
}
use onelog.Field.{
  FieldType, unknown_type, bool_type, int_type, int64_type, uint_type, uint64_type, float32_type,
  float64_type, string_type, time_type, duration_type, error_type, object_type, array_type,
  binary_type, Payload, time_value, duration_value, Field, Entry,
}
use onelog.Level.{level_string}
use onelog.Colors.{Palette, get_color_for_level}
use onelog.Formatter.{
  Printers, FormatterOptions, default_formatter_options, stringify_value, is_long,
}
use onelog.Formatter.Json.{TimeCache, get_cached_time_string}

pub record TextFormatter : Type 0 where
  pub options : FormatterOptions
  pub field_separator : Bytes
  pub enable_colors : Bool
  pub disable_sorting : Bool
  pub enable_field_names : Bool
  pub force_quote : Bool
  pub time_cache : Option TimeCache

abbrev pub new_text_formatter : TextFormatter
new_text_formatter = record {
  options = default_formatter_options;
  field_separator = codes " ";
  enable_colors = false;
  disable_sorting = false;
  enable_field_names = true;
  force_quote = false;
  time_cache = some [];
}

-- The color that is written if colors are enabled.
abbrev pub colored : TextFormatter → Bytes → Bytes → Bytes
colored t color buf = if t.enable_colors then buf ++ color else buf

-- The quote that is written if quoting is forced.
abbrev pub text_quote : TextFormatter → Bytes → Bytes
text_quote t buf = if t.force_quote then buf ++ b'"' ∷ [] else buf

abbrev pub in_text_quotes : TextFormatter → Bytes → Bytes → Bytes
in_text_quotes t s buf = text_quote t (text_quote t buf ++ s)

module _ (p : Printers) (sort_by_key : List Field → List Field) (c : Palette) where
  abbrev pub text_time : TextFormatter → Payload → Bytes → Bytes
  text_time t (time_value v) buf = in_text_quotes t (p.format_time t.options.time_format v) buf
  text_time t v buf = buf ++ codes "null"

  abbrev pub text_duration : TextFormatter → Payload → Bytes → Bytes
  text_duration t (duration_value d) buf = in_text_quotes t (p.duration_string d) buf
  text_duration t v buf = buf ++ codes "null"

  abbrev pub text_string : TextFormatter → Bytes → Bytes → Bytes
  text_string t s buf = text_quote t (
      if is_long t.options s
      then (text_quote t buf ++ take t.options.truncate_strings s) ++ codes "..."
      else text_quote t buf ++ s)

  -- The switch, up to the reset of the color.
  abbrev pub text_typed : TextFormatter → FieldType → Field → Bytes → Bytes
  text_typed t bool_type f buf =
      colored t c.bool_color buf ++ (if f.integer == 1 then codes "true" else codes "false")
  text_typed t int_type f buf = colored t c.number_color buf ++ p.append_int f.integer
  text_typed t int64_type f buf = colored t c.number_color buf ++ p.append_int f.integer
  text_typed t uint_type f buf = colored t c.number_color buf ++ p.append_uint f.integer
  text_typed t uint64_type f buf = colored t c.number_color buf ++ p.append_uint f.integer
  text_typed t float32_type f buf = colored t c.number_color buf ++ p.append_float f.float
  text_typed t float64_type f buf = colored t c.number_color buf ++ p.append_float f.float
  text_typed t string_type f buf = text_string t f.string (colored t c.string_color buf)
  text_typed t time_type f buf = text_time t f.interface (colored t c.time_color buf)
  text_typed t duration_type f buf = text_duration t f.interface (colored t c.time_color buf)
  text_typed t error_type f buf = in_text_quotes t f.string (colored t c.error_str_color buf)
  text_typed t object_type f buf =
      in_text_quotes t (stringify_value p f.interface) (colored t c.default_color buf)
  text_typed t array_type f buf =
      in_text_quotes t (stringify_value p f.interface) (colored t c.default_color buf)
  text_typed t binary_type f buf =
      in_text_quotes t (stringify_value p f.interface) (colored t c.default_color buf)
  text_typed t unknown_type f buf = buf ++ codes "null"

  unfoldable pub format_text_value : TextFormatter → Field → Bytes → Bytes
  format_text_value t f buf =
      if f.is_sensitive
      then in_text_quotes t t.options.redacted_value buf
      else colored t c.reset_color (text_typed t f.type f buf)

  -- Loading from a nil cache panics.
  abbrev pub text_cached : TextFormatter → Option TimeCache → ℕ → Option (TextFormatter × Bytes)
  text_cached t none time = none
  text_cached t (some k) time =
      let (k', text) = get_cached_time_string p k time t.options.time_format in
      some (record t { time_cache = some k' }, text ++ t.field_separator)

  abbrev pub text_timestamp : TextFormatter → ℕ → Option (TextFormatter × Bytes)
  text_timestamp t time =
      if t.options.no_timestamp then some (t, []) else text_cached t t.time_cache time

  abbrev pub text_level : TextFormatter → ℕ → Bytes → Bytes
  text_level t level buf =
      if t.options.no_level
      then buf
      else colored t c.reset_color
          (colored t (get_color_for_level c level) buf ++ level_string p.append_uint level)
        ++ t.field_separator

  abbrev pub text_name : TextFormatter → Bytes → Bytes → Bytes
  text_name t name buf =
      if t.enable_field_names
      then colored t c.reset_color ((colored t c.key_color buf ++ name) ++ b'=' ∷ [])
      else buf

  unfoldable pub text_fields : TextFormatter → (Bytes → Bytes) → List Field → Bytes → Bytes
  unfolding format_text_value
  text_fields t convert [] buf = buf
  text_fields t convert (f ∷ fs) buf =
      text_fields t convert fs
        (format_text_value t f (text_name t (convert f.key) (buf ++ t.field_separator)))

  -- Calling a nil converter panics, where it is called.
  abbrev pub text_converter : Bool → Option (Bytes → Bytes) → Option (Bytes → Bytes)
  text_converter named (some convert) = some convert
  text_converter true none = none
  text_converter false none = some (λ s. s)

  abbrev pub text_all_fields :
      TextFormatter → Option (Bytes → Bytes) → List Field → Bytes → Option Bytes
  text_all_fields t convert [] buf = some buf
  text_all_fields t none (f ∷ fs) buf = none
  text_all_fields t (some convert) (f ∷ fs) buf = some (text_fields t convert (f ∷ fs) buf)

  -- The sort is in place: the entry has the sorted fields afterwards.
  abbrev pub text_order : TextFormatter → List Field → List Field
  text_order t fs =
      if t.disable_sorting then fs else if ltb 1 (length fs) then sort_by_key fs else fs

  abbrev pub text_end :
      TextFormatter → Entry → Option Bytes → Option (TextFormatter × Entry × Bytes)
  text_end t e none = none
  text_end t e (some buf) = some (t, e, if t.options.disable_newline then buf else buf ++ 10 ∷ [])

  abbrev pub text_body :
      Entry → Option (TextFormatter × Bytes) → Option (TextFormatter × Entry × Bytes)
  text_body e none = none
  text_body e (some (t, buf)) =
      let sorted = text_order t e.fields in
      text_end t (record e { fields = sorted })
        (text_all_fields t (text_converter t.enable_field_names t.options.field_name_converter)
          sorted (text_level t e.level buf ++ e.message))

  -- What is passed to the writer, whose error is returned; `none` is a panic.
  unfoldable pub format_text : TextFormatter → Entry → Option (TextFormatter × Entry × Bytes)
  unfolding text_fields
  format_text t e = text_body e (text_timestamp t e.time)
