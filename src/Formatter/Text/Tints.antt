-- ===== src/Formatter/Text/Tints.antt =====
-- formatter_text.go: what the colors add to each part of a line.
use onelog.Prelude.{
  ℕ, Bool, true, false, List, [], ◌∷◌, ◌++◌, append-nil, Bytes, codes, if◌then◌else◌, subst, ◌==◌,
  take,
}
use onelog.Field.{
  FieldType, unknown_type, bool_type, int_type, int64_type, uint_type, uint64_type, float32_type,
  float64_type, string_type, time_type, duration_type, error_type, object_type, array_type,
  binary_type, Payload, nil_value, time_value, duration_value, error_value, bytes_value,
  other_value, Field,
}
use onelog.Level.{level_string}
use onelog.Colors.{Palette, get_color_for_level}
use onelog.Formatter.{Printers, stringify_value, is_long}
use onelog.Formatter.Text.{
  TextFormatter, text_quote, in_text_quotes, text_time, text_duration, text_string, text_typed,
  format_text_value, text_level, text_name, text_fields,
}

-- The codes that a formatter writes under a palette at a level.
pub data IsCode (c : Palette) (level : ℕ) : Bytes → Type 0 where
  level_code : IsCode c level (get_color_for_level c level)
  reset_code : IsCode c level c.reset_color
  key_code : IsCode c level c.key_color
  string_code : IsCode c level c.string_color
  number_code : IsCode c level c.number_color
  bool_code : IsCode c level c.bool_color
  time_code : IsCode c level c.time_color
  error_code : IsCode c level c.error_str_color
  default_code : IsCode c level c.default_color

-- `Tints plain tinted`: some codes are written between the bytes of `plain`.
pub data Tints (c : Palette) (level : ℕ) : Bytes → Bytes → Type 0 where
  same : (s : Bytes) → Tints c level s s
  code : {k : Bytes} → IsCode c level k → Tints c level [] k
  join :
      {a a' b b' : Bytes}
      → Tints c level a a'
      → Tints c level b b'
      → Tints c level (a ++ b) (a' ++ b')

-- The same formatter without colors.
abbrev pub plain : TextFormatter → TextFormatter
plain t = record t { enable_colors = false }

abbrev pub bright : TextFormatter → TextFormatter
bright t = record t { enable_colors = true }

module _ (p : Printers) (sort_by_key : List Field → List Field) (c : Palette) (level : ℕ)
    (t : TextFormatter) where
  then_code : {a a' k : Bytes} → IsCode c level k → Tints c level a a' → Tints c level a (a' ++ k)
  then_code {a} {a'} {k} h w =
      subst (λ x. Tints c level x (a' ++ k)) (append-nil a) (join w (code h))

  then_text : {a a' : Bytes} (s : Bytes) → Tints c level a a' → Tints c level (a ++ s) (a' ++ s)
  then_text s w = join w (same s)

  quote-Tints :
      {a a' : Bytes} → Tints c level a a' → Tints c level (text_quote t a) (text_quote t a')
  quote-Tints {a} {a'} w = by_flag t.force_quote
    where
      by_flag :
          (b : Bool)
          → Tints c level (if b then a ++ b'"' ∷ [] else a) (if b then a' ++ b'"' ∷ [] else a')
      by_flag true = then_text (b'"' ∷ []) w
      by_flag false = w

  quotes-Tints :
      {a a' : Bytes} (s : Bytes)
      → Tints c level a a'
      → Tints c level (in_text_quotes t s a) (in_text_quotes t s a')
  quotes-Tints s w = quote-Tints (then_text s (quote-Tints w))

  string-Tints :
      {a a' : Bytes} (s : Bytes)
      → Tints c level a a'
      → Tints c level (text_string p sort_by_key c t s a) (text_string p sort_by_key c t s a')
  string-Tints {a} {a'} s w = quote-Tints (by_flag (is_long t.options s))
    where
      by_flag :
          (b : Bool)
          → Tints c level
              (if b
                then (text_quote t a ++ take t.options.truncate_strings s) ++ codes "..."
                else text_quote t a ++ s)
              (if b
                then (text_quote t a' ++ take t.options.truncate_strings s) ++ codes "..."
                else text_quote t a' ++ s)
      by_flag true =
          then_text (codes "...") (then_text (take t.options.truncate_strings s) (quote-Tints w))
      by_flag false = then_text s (quote-Tints w)

  time-Tints :
      {a a' : Bytes} (v : Payload)
      → Tints c level a a'
      → Tints c level (text_time p sort_by_key c t v a) (text_time p sort_by_key c t v a')
  time-Tints (time_value n) w = quotes-Tints (p.format_time t.options.time_format n) w
  time-Tints nil_value w = then_text (codes "null") w
  time-Tints (duration_value d) w = then_text (codes "null") w
  time-Tints (error_value e) w = then_text (codes "null") w
  time-Tints (bytes_value b) w = then_text (codes "null") w
  time-Tints (other_value n) w = then_text (codes "null") w

  duration-Tints :
      {a a' : Bytes} (v : Payload)
      → Tints c level a a'
      → Tints c level (text_duration p sort_by_key c t v a) (text_duration p sort_by_key c t v a')
  duration-Tints (duration_value d) w = quotes-Tints (p.duration_string d) w
  duration-Tints nil_value w = then_text (codes "null") w
  duration-Tints (time_value d) w = then_text (codes "null") w
  duration-Tints (error_value e) w = then_text (codes "null") w
  duration-Tints (bytes_value b) w = then_text (codes "null") w
  duration-Tints (other_value n) w = then_text (codes "null") w

  typed-Tints :
      {a a' : Bytes} (ty : FieldType) (f : Field)
      → Tints c level a a'
      → Tints c level
          (text_typed p sort_by_key c (plain t) ty f a)
          (text_typed p sort_by_key c (bright t) ty f a')
  typed-Tints bool_type f w =
      then_text (if f.integer == 1 then codes "true" else codes "false") (then_code bool_code w)
  typed-Tints int_type f w = then_text (p.append_int f.integer) (then_code number_code w)
  typed-Tints int64_type f w = then_text (p.append_int f.integer) (then_code number_code w)
  typed-Tints uint_type f w = then_text (p.append_uint f.integer) (then_code number_code w)
  typed-Tints uint64_type f w = then_text (p.append_uint f.integer) (then_code number_code w)
  typed-Tints float32_type f w = then_text (p.append_float f.float) (then_code number_code w)
  typed-Tints float64_type f w = then_text (p.append_float f.float) (then_code number_code w)
  typed-Tints string_type f w = string-Tints f.string (then_code string_code w)
  typed-Tints time_type f w = time-Tints f.interface (then_code time_code w)
  typed-Tints duration_type f w = duration-Tints f.interface (then_code time_code w)
  typed-Tints error_type f w = quotes-Tints f.string (then_code error_code w)
  typed-Tints object_type f w =
      quotes-Tints (stringify_value p f.interface) (then_code default_code w)
  typed-Tints array_type f w =
      quotes-Tints (stringify_value p f.interface) (then_code default_code w)
  typed-Tints binary_type f w =
      quotes-Tints (stringify_value p f.interface) (then_code default_code w)
  typed-Tints unknown_type f w = then_text (codes "null") w

  value-Tints :
      {a a' : Bytes} (f : Field)
      → Tints c level a a'
      → Tints c level
          (format_text_value p sort_by_key c (plain t) f a)
          (format_text_value p sort_by_key c (bright t) f a')
  unfolding format_text_value
  value-Tints {a} {a'} f w = by_flag f.is_sensitive
    where
      by_flag :
          (b : Bool)
          → Tints c level
              (if b
                then in_text_quotes t t.options.redacted_value a
                else text_typed p sort_by_key c (plain t) f.type f a)
              (if b
                then in_text_quotes t t.options.redacted_value a'
                else text_typed p sort_by_key c (bright t) f.type f a' ++ c.reset_color)
      by_flag true = quotes-Tints t.options.redacted_value w
      by_flag false = then_code reset_code (typed-Tints f.type f w)

  name-Tints :
      {a a' : Bytes} (name : Bytes)
      → Tints c level a a'
      → Tints c level
          (text_name p sort_by_key c (plain t) name a)
          (text_name p sort_by_key c (bright t) name a')
  name-Tints {a} {a'} name w = by_flag t.enable_field_names
    where
      by_flag :
          (b : Bool)
          → Tints c level
              (if b then (a ++ name) ++ b'=' ∷ [] else a)
              (if b then (((a' ++ c.key_color) ++ name) ++ b'=' ∷ []) ++ c.reset_color else a')
      by_flag true =
          then_code reset_code (then_text (b'=' ∷ []) (then_text name (then_code key_code w)))
      by_flag false = w

  pub fields-Tints :
      (convert : Bytes → Bytes) (fs : List Field) (a a' : Bytes)
      → Tints c level a a'
      → Tints c level
          (text_fields p sort_by_key c (plain t) convert fs a)
          (text_fields p sort_by_key c (bright t) convert fs a')
  unfolding text_fields
  fields-Tints convert [] a a' w = w
  fields-Tints convert (f ∷ fs) a a' w =
      fields-Tints convert fs _ _
        (value-Tints f (name-Tints (convert f.key) (then_text t.field_separator w)))

  pub level-Tints :
      {a a' : Bytes}
      → Tints c level a a'
      → Tints c level
          (text_level p sort_by_key c (plain t) level a)
          (text_level p sort_by_key c (bright t) level a')
  level-Tints {a} {a'} w = by_flag t.options.no_level
    where
      name : Bytes
      name = level_string p.append_uint level

      by_flag :
          (b : Bool)
          → Tints c level (if b then a else (a ++ name) ++ t.field_separator) (
              if b
              then a'
              else (((a' ++ get_color_for_level c level) ++ name) ++ c.reset_color)
                ++ t.field_separator)
      by_flag true = w
      by_flag false =
          then_text t.field_separator
            (then_code reset_code (then_text name (then_code level_code w)))
