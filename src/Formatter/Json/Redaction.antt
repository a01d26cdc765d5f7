-- ===== src/Formatter/Json/Redaction.antt =====
-- formatter_json.go: a sensitive field's value does not reach the output.
use onelog.Prelude.{
  ◌≡◌, refl, ap, ◌∙◌, Bool, true, false, Option, none, some, List, [], ◌∷◌, Bytes, if◌then◌else◌,
  map, Bool-cases, inl, inr, if_elim,
}
use onelog.Field.{Field, zero_field, Entry}
use onelog.Formatter.{Printers, FormatterOptions}
use onelog.Formatter.Json.{
  JsonFormatter, format_json_field_value, json_fields, with_converter, json_body, json_head,
  json_key, json_timestamp, json_end, format_json,
}

-- A sensitive field with nothing but its key, or any other field as it is.
abbrev pub mask : Field → Field
mask f = if f.is_sensitive then record zero_field { key = f.key; is_sensitive = true } else f

abbrev pub mask_entry : Entry → Entry
mask_entry e = record e { fields = map mask e.fields }

module _ (p : Printers) where
  pub mask-key : (f : Field) → (mask f).key ≡ f.key
  mask-key f = if_elim (λ (g : Field). g.key ≡ f.key) f.is_sensitive _ _ (λ _. refl) (λ _. refl)

  format_json_field_value-mask :
      (buf : Bytes) (f : Field) (o : FormatterOptions)
      → format_json_field_value p buf (mask f) o ≡ format_json_field_value p buf f o
  unfolding format_json_field_value
  format_json_field_value-mask buf f o = elim (Bool-cases f.is_sensitive) [
    | inl yes_ ↦ rw yes_ refl
    | inr no_ ↦ ap (λ (g : Field). format_json_field_value p buf g o) (rw no_ refl)
  ]

  json_fields-mask :
      (o : FormatterOptions) (convert : Bytes → Bytes) (fs : List Field) (out : Bytes × Bool)
      → json_fields p o convert (map mask fs) out ≡ json_fields p o convert fs out
  unfolding json_fields
  json_fields-mask o convert [] out = refl
  json_fields-mask o convert (f ∷ fs) out =
      json_fields-mask o convert fs _
      ∙ ap (λ (b : Bytes). json_fields p o convert fs (b, true))
          (ap (λ (k : Bytes). format_json_field_value p (json_key p convert k out) (mask f) o)
              (mask-key f)
            ∙ format_json_field_value-mask _ f o)

  with_converter-mask :
      (o : FormatterOptions) (convert : Option (Bytes → Bytes)) (fs : List Field)
      (out : Bytes × Bool)
      → with_converter p o convert (map mask fs) out ≡ with_converter p o convert fs out
  with_converter-mask o convert [] out = refl
  with_converter-mask o none (f ∷ fs) out = refl
  with_converter-mask o (some convert) (f ∷ fs) out =
      ap some (json_fields-mask o convert (f ∷ fs) out)

  json_body-mask :
      (o : FormatterOptions) (e : Entry) (start : Option (JsonFormatter × (Bytes × Bool)))
      → json_body p o (mask_entry e) start ≡ json_body p o e start
  json_body-mask o e none = refl
  json_body-mask o e (some (j, out)) =
      ap (json_end p o j)
        (with_converter-mask o o.field_name_converter e.fields (json_head p o e out))

  -- The output, the formatter's next state and whether the call panics are the same for an entry
  -- and for the entry whose sensitive fields are reduced to their keys: nothing of a sensitive
  -- field's value is written.
  pub format_json-mask_entry :
      (j : JsonFormatter) (e : Entry) → format_json p j (mask_entry e) ≡ format_json p j e
  unfolding format_json
  format_json-mask_entry j e =
      json_body-mask j.options e (json_timestamp p j e.time (b'{' ∷ [], false))
