-- ===== src/Formatter/Text/Redaction.antt =====
-- formatter_text.go: a sensitive field's value does not reach the output.
use onelog.Prelude.{
  ◌≡◌, refl, ap, ◌∙◌, Option, none, some, List, [], ◌∷◌, ◌++◌, Bytes, map, Bool-cases, inl, inr,
}
use onelog.Field.{Field, Entry}
use onelog.Colors.{Palette}
use onelog.Formatter.{Printers}
use onelog.Formatter.Json.Redaction.{mask, mask_entry, mask-key}
use onelog.Formatter.Logfmt.Redaction.{SortsByKey, ordered-mask}
use onelog.Formatter.Text.{
  TextFormatter, format_text_value, text_name, text_fields, text_converter, text_all_fields,
  text_order, text_end, text_body, text_timestamp, text_level, format_text,
}

-- The formatter's next state and the output, without the entry.
abbrev pub text_output : Option (TextFormatter × Entry × Bytes) → Option (TextFormatter × Bytes)
text_output none = none
text_output (some (t, e, out)) = some (t, out)

module _ (p : Printers) (sort_by_key : List Field → List Field) (c : Palette) where
  format_text_value-mask :
      (t : TextFormatter) (f : Field) (buf : Bytes)
      → format_text_value p sort_by_key c t (mask f) buf ≡ format_text_value p sort_by_key c t f buf
  unfolding format_text_value
  format_text_value-mask t f buf = elim (Bool-cases f.is_sensitive) [
    | inl yes_ ↦ rw yes_ refl
    | inr no_ ↦ ap (λ (g : Field). format_text_value p sort_by_key c t g buf) (rw no_ refl)
  ]

  text_fields-mask :
      (t : TextFormatter) (convert : Bytes → Bytes) (fs : List Field) (buf : Bytes)
      → text_fields p sort_by_key c t convert (map mask fs) buf
        ≡ text_fields p sort_by_key c t convert fs buf
  unfolding text_fields
  text_fields-mask t convert [] buf = refl
  text_fields-mask t convert (f ∷ fs) buf =
      text_fields-mask t convert fs _
      ∙ ap (λ (b : Bytes). text_fields p sort_by_key c t convert fs b)
          (ap
              (λ (k : Bytes).
                format_text_value p sort_by_key c t (mask f)
                  (text_name p sort_by_key c t (convert k) (buf ++ t.field_separator)))
              (mask-key p f)
            ∙ format_text_value-mask t f _)

  text_all_fields-mask :
      (t : TextFormatter) (convert : Option (Bytes → Bytes)) (fs : List Field) (buf : Bytes)
      → text_all_fields p sort_by_key c t convert (map mask fs) buf
        ≡ text_all_fields p sort_by_key c t convert fs buf
  text_all_fields-mask t convert [] buf = refl
  text_all_fields-mask t none (f ∷ fs) buf = refl
  text_all_fields-mask t (some convert) (f ∷ fs) buf =
      ap some (text_fields-mask t convert (f ∷ fs) buf)

  text_order-mask :
      (t : TextFormatter) (fs : List Field)
      → SortsByKey p sort_by_key
      → text_order p sort_by_key c t (map mask fs) ≡ map mask (text_order p sort_by_key c t fs)
  text_order-mask t fs by_key = ordered-mask p sort_by_key t.disable_sorting fs by_key

  text_output-end :
      (t : TextFormatter) (e e' : Entry) (written : Option Bytes)
      → text_output (text_end p sort_by_key c t e written)
        ≡ text_output (text_end p sort_by_key c t e' written)
  text_output-end t e e' none = refl
  text_output-end t e e' (some buf) = refl

  text_body-mask :
      (e : Entry) (start : Option (TextFormatter × Bytes))
      → SortsByKey p sort_by_key
      → text_output (text_body p sort_by_key c (mask_entry e) start)
        ≡ text_output (text_body p sort_by_key c e start)
  text_body-mask e none by_key = refl
  text_body-mask e (some (t, buf)) by_key =
      let before = text_level p sort_by_key c t e.level buf ++ e.message in
      let sorted = text_order p sort_by_key c t e.fields in
      let convert =
        text_converter p sort_by_key c t.enable_field_names t.options.field_name_converter in
      text_output-end t _ _ _
      ∙ ap
          (λ (fs : List Field). text_output (
            text_end p sort_by_key c t (record e { fields = sorted })
              (text_all_fields p sort_by_key c t convert fs before)))
          (text_order-mask t e.fields by_key)
      ∙ ap
          (λ (w : Option Bytes).
            text_output (text_end p sort_by_key c t (record e { fields = sorted }) w))
          (text_all_fields-mask t convert sorted before)

  -- Where the sort looks at the keys alone, the output, the formatter's next state and whether the
  -- call panics are the same for an entry and for the entry whose sensitive fields are reduced to
  -- their keys.
  pub format_text-mask_entry :
      (t : TextFormatter) (e : Entry)
      → SortsByKey p sort_by_key
      → text_output (format_text p sort_by_key c t (mask_entry e))
        ≡ text_output (format_text p sort_by_key c t e)
  unfolding format_text
  format_text-mask_entry t e by_key =
      text_body-mask e (text_timestamp p sort_by_key c t e.time) by_key
