-- ===== src/Formatter/Logfmt/Append.antt =====
-- formatter_logfmt.go: a field's value is written behind what is in the buffer.
use onelog.Prelude.{◌≡◌, refl, List, [], ◌++◌, append_assoc, Bytes}
use onelog.Field.{
  FieldType, unknown_type, bool_type, int_type, int64_type, uint_type, uint64_type, float32_type,
  float64_type, string_type, time_type, duration_type, error_type, object_type, array_type,
  binary_type, Payload, nil_value, time_value, duration_value, error_value, bytes_value,
  other_value, Field,
}
use onelog.Utils.Escape.Loop.{escaped, loop_lem}
use onelog.Formatter.{Printers, stringify_value, is_long}
use onelog.Formatter.Json.Append.{if-append}
use onelog.Formatter.Logfmt.{
  LogfmtFormatter, logfmt_must, logfmt_code, write_escaped_logfmt_string, marked, escaped_value,
  time_value_text, duration_value_text, logfmt_typed, format_field_value,
}

pub write_escaped_logfmt_string_lem :
    (buf s : Bytes) → write_escaped_logfmt_string buf s ≡ buf ++ escaped logfmt_must logfmt_code s
unfolding write_escaped_logfmt_string
write_escaped_logfmt_string_lem buf s = loop_lem logfmt_must logfmt_code s buf

module _ (p : Printers) (sort_by_key : List Field → List Field) (l : LogfmtFormatter) where
  pub marked-append :
      (buf s : Bytes) → marked p sort_by_key l buf s ≡ buf ++ marked p sort_by_key l [] s
  marked-append buf s = simp append_assoc

  pub escaped_value-append :
      (buf s : Bytes)
      → escaped_value p sort_by_key l buf s ≡ buf ++ escaped_value p sort_by_key l [] s
  escaped_value-append buf s = simp (write_escaped_logfmt_string_lem, append_assoc)

  time_value_text-append :
      (buf : Bytes) (v : Payload)
      → time_value_text p sort_by_key l buf v ≡ buf ++ time_value_text p sort_by_key l [] v
  time_value_text-append buf nil_value = refl
  time_value_text-append buf (time_value t) = marked-append buf _
  time_value_text-append buf (duration_value d) = refl
  time_value_text-append buf (error_value e) = refl
  time_value_text-append buf (bytes_value b) = refl
  time_value_text-append buf (other_value n) = refl

  duration_value_text-append :
      (buf : Bytes) (v : Payload)
      → duration_value_text p sort_by_key l buf v ≡ buf ++ duration_value_text p sort_by_key l [] v
  duration_value_text-append buf nil_value = refl
  duration_value_text-append buf (time_value t) = refl
  duration_value_text-append buf (duration_value d) = marked-append buf _
  duration_value_text-append buf (error_value e) = refl
  duration_value_text-append buf (bytes_value b) = refl
  duration_value_text-append buf (other_value n) = refl

  logfmt_typed-append :
      (buf : Bytes) (t : FieldType) (f : Field)
      → logfmt_typed p sort_by_key l buf t f ≡ buf ++ logfmt_typed p sort_by_key l [] t f
  logfmt_typed-append buf unknown_type f = refl
  logfmt_typed-append buf bool_type f = refl
  logfmt_typed-append buf int_type f = refl
  logfmt_typed-append buf int64_type f = refl
  logfmt_typed-append buf uint_type f = refl
  logfmt_typed-append buf uint64_type f = refl
  logfmt_typed-append buf float32_type f = refl
  logfmt_typed-append buf float64_type f = refl
  logfmt_typed-append buf string_type f =
      if-append buf (is_long l.options f.string) _ _ _ _
        (simp (write_escaped_logfmt_string_lem, append_assoc)) (escaped_value-append buf f.string)
  logfmt_typed-append buf time_type f = time_value_text-append buf f.interface
  logfmt_typed-append buf duration_type f = duration_value_text-append buf f.interface
  logfmt_typed-append buf error_type f = escaped_value-append buf f.string
  logfmt_typed-append buf object_type f = escaped_value-append buf (stringify_value p f.interface)
  logfmt_typed-append buf array_type f = escaped_value-append buf (stringify_value p f.interface)
  logfmt_typed-append buf binary_type f = escaped_value-append buf (stringify_value p f.interface)

  pub format_field_value-append :
      (buf : Bytes) (f : Field)
      → format_field_value p sort_by_key l buf f ≡ buf ++ format_field_value p sort_by_key l [] f
  unfolding format_field_value
  format_field_value-append buf f =
      if-append buf f.is_sensitive _ _ _ _ (marked-append buf l.options.redacted_value)
        (logfmt_typed-append buf f.type f)
