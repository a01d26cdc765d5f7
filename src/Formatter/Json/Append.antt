-- ===== src/Formatter/Json/Append.antt =====
-- formatter_json.go: a field's value is written behind what is in the buffer.
use onelog.Prelude.{
  ◌≡◌, refl, sym, ap, ◌∙◌, Bool, true, false, none, some, [], ◌∷◌, ◌++◌, append_assoc, Bytes,
  if◌then◌else◌,
}
use onelog.Field.{
  FieldType, unknown_type, bool_type, int_type, int64_type, uint_type, uint64_type, float32_type,
  float64_type, string_type, time_type, duration_type, error_type, object_type, array_type,
  binary_type, Payload, nil_value, time_value, duration_value, error_value, bytes_value,
  other_value, Field,
}
use onelog.Utils.Escape.Loop.{write_escaped_string_optimized_lem}
use onelog.Utils.Base64.{encode_base64}
use onelog.Utils.Base64.Encode.{encode_base64-append}
use onelog.Formatter.{Printers, FormatterOptions, stringify_value, is_long}
use onelog.Formatter.Json.{
  format_json_field_value, json_typed, escaped_text, time_text, duration_text, binary_text,
}

pub if-append :
    (buf : Bytes) (t : Bool) (x y x' y' : Bytes)
    → x ≡ buf ++ x'
    → y ≡ buf ++ y'
    → (if t then x else y) ≡ buf ++ (if t then x' else y')
if-append buf true x y x' y' h k = h
if-append buf false x y x' y' h k = k

module _ (p : Printers) (o : FormatterOptions) where
  escaped_text-append : (buf s : Bytes) → escaped_text p buf s ≡ buf ++ escaped_text p [] s
  escaped_text-append buf s = simp (write_escaped_string_optimized_lem, append_assoc)

  time_text-append : (buf : Bytes) (v : Payload) → time_text p o buf v ≡ buf ++ time_text p o [] v
  time_text-append buf nil_value = refl
  time_text-append buf (time_value t) = append_assoc buf _ _
  time_text-append buf (duration_value d) = refl
  time_text-append buf (error_value e) = refl
  time_text-append buf (bytes_value b) = refl
  time_text-append buf (other_value n) = refl

  duration_text-append :
      (buf : Bytes) (v : Payload) → duration_text p buf v ≡ buf ++ duration_text p [] v
  duration_text-append buf nil_value = refl
  duration_text-append buf (time_value t) = refl
  duration_text-append buf (duration_value d) = append_assoc buf _ _
  duration_text-append buf (error_value e) = refl
  duration_text-append buf (bytes_value b) = refl
  duration_text-append buf (other_value n) = refl

  binary_text-append : (buf : Bytes) (v : Payload) → binary_text p buf v ≡ buf ++ binary_text p [] v
  binary_text-append buf nil_value = refl
  binary_text-append buf (time_value t) = refl
  binary_text-append buf (duration_value d) = refl
  binary_text-append buf (error_value e) = refl
  binary_text-append buf (bytes_value none) = refl
  binary_text-append buf (bytes_value (some src)) =
      ap (λ (x : Bytes). x ++ b'"' ∷ []) (encode_base64-append src (buf ++ b'"' ∷ []))
      ∙ ap (λ (x : Bytes). x ++ b'"' ∷ []) (append_assoc buf (b'"' ∷ []) (encode_base64 [] src))
      ∙ append_assoc buf (b'"' ∷ encode_base64 [] src) (b'"' ∷ [])
      ∙ ap (λ (x : Bytes). buf ++ (x ++ b'"' ∷ [])) (sym (encode_base64-append src (b'"' ∷ [])))
  binary_text-append buf (other_value n) = refl

  json_typed-append :
      (buf : Bytes) (t : FieldType) (f : Field)
      → json_typed p buf t f o ≡ buf ++ json_typed p [] t f o
  json_typed-append buf unknown_type f = refl
  json_typed-append buf bool_type f = refl
  json_typed-append buf int_type f = refl
  json_typed-append buf int64_type f = refl
  json_typed-append buf uint_type f = refl
  json_typed-append buf uint64_type f = refl
  json_typed-append buf float32_type f = refl
  json_typed-append buf float64_type f = refl
  json_typed-append buf string_type f =
      if-append buf (is_long o f.string) _ _ _ _
        (simp (write_escaped_string_optimized_lem, append_assoc)) (escaped_text-append buf f.string)
  json_typed-append buf time_type f = time_text-append buf f.interface
  json_typed-append buf duration_type f = duration_text-append buf f.interface
  json_typed-append buf error_type f = escaped_text-append buf f.string
  json_typed-append buf object_type f = escaped_text-append buf (stringify_value p f.interface)
  json_typed-append buf array_type f = escaped_text-append buf (stringify_value p f.interface)
  json_typed-append buf binary_type f = binary_text-append buf f.interface

  pub format_json_field_value-append :
      (buf : Bytes) (f : Field)
      → format_json_field_value p buf f o ≡ buf ++ format_json_field_value p [] f o
  unfolding format_json_field_value
  format_json_field_value-append buf f =
      if-append buf f.is_sensitive _ _ _ _ (append_assoc buf _ _) (json_typed-append buf f.type f)
