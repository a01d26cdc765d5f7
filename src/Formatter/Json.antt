-- ===== src/Formatter/Json.antt =====
-- formatter_json.go: the JSON formatter with its cache of printed times.
pub mod Append
pub mod Members
pub mod Structure
pub mod Values
pub mod Redaction
use onelog.Prelude.{
  ℕ, ◌-◌, ◌%◌, ◌<◌, Bool, true, false, Option, none, some, List, [], ◌∷◌, ◌++◌, Bytes, codes,
  if◌then◌else◌, ◌==◌, ltb, length, take,
}
use onelog.Field.{
  FieldType, unknown_type, bool_type, int_type, int64_type, uint_type, uint64_type, float32_type,
  float64_type, string_type, time_type, duration_type, error_type, object_type, array_type,
  binary_type, Payload, nil_value, time_value, duration_value, bytes_value, Field, Entry,
  CallerInfo,
}
use onelog.Level.{level_string, disabled}
use onelog.Utils.Escape.{write_escaped_string_optimized}
use onelog.Utils.Base64.{encode_base64}
use onelog.Formatter.{
  Printers, FormatterOptions, default_formatter_options, stringify_value, is_long,
}

-- `timeCache`, from the times truncated to milliseconds.
abbrev pub TimeCache : Type 0
TimeCache = List (ℕ × Bytes)

-- `none` for a nil cache.
pub record JsonFormatter : Type 0 where
  pub options : FormatterOptions
  pub time_cache : Option TimeCache

abbrev pub new_json_formatter : JsonFormatter
new_json_formatter = record { options = default_formatter_options; time_cache = some [] }

abbrev pub load_time : ℕ → TimeCache → Bytes
load_time k [] = []
load_time k ((j, text) ∷ c) = let rest = load_time k c in if k == j then text else rest

-- `t.Truncate(time.Millisecond)`.
abbrev pub truncate_time : ℕ → ℕ
truncate_time t = t - t % 1_000_000

-- The buffer and `needComma`.
abbrev comma : Bytes × Bool → Bytes
comma (buf, need_comma) = if need_comma then buf ++ b',' ∷ [] else buf

module _ (p : Printers) where
  -- An empty text stands for no entry.
  unfoldable pub get_cached_time_string : TimeCache → ℕ → Bytes → TimeCache × Bytes
  get_cached_time_string c t format =
      let k = truncate_time t in
      let formatted = p.format_time format t in
      if 0 == length (load_time k c) then ((k, formatted) ∷ c, formatted) else (c, load_time k c)

  abbrev quoted : Bytes → Bytes → Bytes
  quoted buf text = buf ++ b'"' ∷ text ++ b'"' ∷ []

  abbrev escaped_text : Bytes → Bytes → Bytes
  escaped_text buf s = write_escaped_string_optimized (buf ++ b'"' ∷ []) s ++ b'"' ∷ []

  -- The type assertions to a time, a duration and a byte slice, with what is written then.
  abbrev time_text : FormatterOptions → Bytes → Payload → Bytes
  time_text o buf (time_value t) = quoted buf (p.format_time o.time_format t)
  time_text o buf v = buf ++ codes "null"

  abbrev duration_text : Bytes → Payload → Bytes
  duration_text buf (duration_value d) = quoted buf (p.duration_string d)
  duration_text buf v = buf ++ codes "null"

  abbrev binary_text : Bytes → Payload → Bytes
  binary_text buf (bytes_value (some src)) = encode_base64 (buf ++ b'"' ∷ []) src ++ b'"' ∷ []
  binary_text buf v = buf ++ codes "null"

  abbrev json_typed : Bytes → FieldType → Field → FormatterOptions → Bytes
  json_typed buf bool_type f o = buf ++ (if f.integer == 1 then codes "true" else codes "false")
  json_typed buf int_type f o = buf ++ p.append_int f.integer
  json_typed buf int64_type f o = buf ++ p.append_int f.integer
  json_typed buf uint_type f o = buf ++ p.append_uint f.integer
  json_typed buf uint64_type f o = buf ++ p.append_uint f.integer
  json_typed buf float32_type f o = buf ++ p.append_float f.float
  json_typed buf float64_type f o = buf ++ p.append_float f.float
  json_typed buf string_type f o =
      if is_long o f.string
      then write_escaped_string_optimized (buf ++ b'"' ∷ []) (take o.truncate_strings f.string)
        ++ codes "..."
        ++ b'"' ∷ []
      else escaped_text buf f.string
  json_typed buf time_type f o = time_text o buf f.interface
  json_typed buf duration_type f o = duration_text buf f.interface
  json_typed buf error_type f o = escaped_text buf f.string
  json_typed buf object_type f o = escaped_text buf (stringify_value p f.interface)
  json_typed buf array_type f o = escaped_text buf (stringify_value p f.interface)
  json_typed buf binary_type f o = binary_text buf f.interface
  json_typed buf unknown_type f o = buf ++ codes "null"

  unfoldable pub format_json_field_value : Bytes → Field → FormatterOptions → Bytes
  format_json_field_value buf f o =
      if f.is_sensitive
      then buf ++ b'"' ∷ o.redacted_value ++ b'"' ∷ []
      else json_typed buf f.type f o

  -- Loading from a nil cache panics.
  abbrev cached_timestamp :
      JsonFormatter → Option TimeCache → ℕ → Bytes × Bool → Option (JsonFormatter × (Bytes × Bool))
  cached_timestamp j none time out = none
  cached_timestamp j (some c) time (buf, need_comma) =
      let (c', text) = get_cached_time_string c time j.options.time_format in
      some (
        record j { time_cache = some c' },
        (buf ++ codes "\"" ++ j.options.time_key ++ codes "\":\"" ++ text ++ codes "\"", true),
      )

  abbrev json_timestamp : JsonFormatter → ℕ → Bytes × Bool → Option (JsonFormatter × (Bytes × Bool))
  json_timestamp j time out =
      if j.options.no_timestamp then some (j, out) else cached_timestamp j j.time_cache time out

  abbrev json_level : FormatterOptions → Entry → Bytes × Bool → Bytes × Bool
  json_level o e out =
      if o.no_level
      then out
      else if ltb e.level disabled
      then (
        comma out
            ++ codes "\""
            ++ o.level_key
            ++ codes "\":\""
            ++ level_string p.append_uint e.level
            ++ codes "\"",
        true,
      )
      else out

  abbrev json_message : FormatterOptions → Entry → Bytes × Bool → Bytes × Bool
  json_message o e out = if 0 == length e.message then out else (
    write_escaped_string_optimized (comma out ++ codes "\"" ++ o.message_key ++ codes "\":\"")
          e.message
        ++ codes "\"",
    true,
  )

  abbrev json_caller : FormatterOptions → Option CallerInfo → Bytes × Bool → Bytes × Bool
  json_caller o none out = out
  json_caller o (some caller) out =
      let file =
        write_escaped_string_optimized
          (comma out ++ codes "\"" ++ o.caller_key ++ codes "\":{\"file\":\"") caller.file in
      let line =
        file ++ codes "\",\"line\":" ++ p.append_int caller.line ++ codes ",\"function\":\"" in
      (write_escaped_string_optimized line caller.function ++ codes "\"}", true)

  abbrev json_key : (Bytes → Bytes) → Bytes → Bytes × Bool → Bytes
  json_key convert k out =
      write_escaped_string_optimized (comma out ++ codes "\"") (convert k) ++ codes "\":"

  -- The loop over the fields, under a converter that is not nil.
  unfoldable pub json_fields :
      FormatterOptions → (Bytes → Bytes) → List Field → Bytes × Bool → Bytes × Bool
  unfolding format_json_field_value
  json_fields o convert [] out = out
  json_fields o convert (f ∷ fs) out =
      json_fields o convert fs (format_json_field_value (json_key convert f.key out) f o, true)

  -- Calling a nil converter panics.
  abbrev with_converter :
      FormatterOptions → Option (Bytes → Bytes) → List Field → Bytes × Bool → Option (Bytes × Bool)
  with_converter o convert [] out = some out
  with_converter o none (f ∷ fs) out = none
  with_converter o (some convert) (f ∷ fs) out = some (json_fields o convert (f ∷ fs) out)

  abbrev json_end :
      FormatterOptions → JsonFormatter → Option (Bytes × Bool) → Option (JsonFormatter × Bytes)
  json_end o j none = none
  json_end o j (some (buf, need_comma)) =
      let object = buf ++ b'}' ∷ [] in
      some (j, if o.disable_newline then object else object ++ 10 ∷ [])

  abbrev json_head : FormatterOptions → Entry → Bytes × Bool → Bytes × Bool
  json_head o e out = json_caller o e.caller_info (json_message o e (json_level o e out))

  abbrev json_body :
      FormatterOptions
      → Entry
      → Option (JsonFormatter × (Bytes × Bool))
      → Option (JsonFormatter × Bytes)
  json_body o e none = none
  json_body o e (some (j, out)) =
      json_end o j (with_converter o o.field_name_converter e.fields (json_head o e out))

  -- What is passed to the writer, whose error is returned; `none` is a panic.
  unfoldable pub format_json : JsonFormatter → Entry → Option (JsonFormatter × Bytes)
  unfolding json_fields
  format_json j e = json_body j.options e (json_timestamp j e.time (b'{' ∷ [], false))
