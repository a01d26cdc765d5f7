-- ===== src/Formatter/Logfmt/Redaction.antt =====
-- formatter_logfmt.go: a sensitive field's value does not reach the output.
use onelog.Prelude.{
  ◌≡◌, refl, ap, ◌∙◌, Bool, true, false, Option, none, some, List, [], ◌∷◌, ◌++◌, Bytes,
  if◌then◌else◌, map, suc, Bool-cases, inl, inr, length, ltb,
}
use onelog.Field.{Field, Entry}
use onelog.Formatter.{Printers}
use onelog.Formatter.Json.Redaction.{mask, mask_entry, mask-key}
use onelog.Formatter.Logfmt.{
  LogfmtFormatter, format_field_value, logfmt_fields, logfmt_all_fields, field_order, logfmt_end,
  logfmt_body, format_logfmt, logfmt_level, logfmt_message, logfmt_caller, logfmt_timestamp,
  write_escaped_logfmt_string, blank_before,
}

-- The formatter's next state and the output, without the entry.
abbrev pub output : Option (LogfmtFormatter × Entry × Bytes) → Option (LogfmtFormatter × Bytes)
output none = none
output (some (l, e, out)) = some (l, out)

length-map : (fs : List Field) → length (map mask fs) ≡ length fs
length-map [] = refl
length-map (f ∷ fs) = ap suc (length-map fs)

module _ (p : Printers) (sort_by_key : List Field → List Field) where
  format_field_value-mask :
      (l : LogfmtFormatter) (buf : Bytes) (f : Field)
      → format_field_value p sort_by_key l buf (mask f) ≡ format_field_value p sort_by_key l buf f
  unfolding format_field_value
  format_field_value-mask l buf f = elim (Bool-cases f.is_sensitive) [
    | inl yes_ ↦ rw yes_ refl
    | inr no_ ↦ ap (λ (g : Field). format_field_value p sort_by_key l buf g) (rw no_ refl)
  ]

  logfmt_fields-mask :
      (l : LogfmtFormatter) (convert : Bytes → Bytes) (fs : List Field) (buf : Bytes)
      → logfmt_fields p sort_by_key l convert (map mask fs) buf
        ≡ logfmt_fields p sort_by_key l convert fs buf
  unfolding logfmt_fields
  logfmt_fields-mask l convert [] buf = refl
  logfmt_fields-mask l convert (f ∷ fs) buf =
      logfmt_fields-mask l convert fs _
      ∙ ap (λ (b : Bytes). logfmt_fields p sort_by_key l convert fs b)
          (ap
              (λ (k : Bytes).
                format_field_value p sort_by_key l
                  (write_escaped_logfmt_string (blank_before buf) (convert k) ++ b'=' ∷ [])
                  (mask f))
              (mask-key p f)
            ∙ format_field_value-mask l _ f)

  logfmt_all_fields-mask :
      (l : LogfmtFormatter) (convert : Option (Bytes → Bytes)) (fs : List Field) (buf : Bytes)
      → logfmt_all_fields p sort_by_key l convert (map mask fs) buf
        ≡ logfmt_all_fields p sort_by_key l convert fs buf
  logfmt_all_fields-mask l convert [] buf = refl
  logfmt_all_fields-mask l none (f ∷ fs) buf = refl
  logfmt_all_fields-mask l (some convert) (f ∷ fs) buf =
      ap some (logfmt_fields-mask l convert (f ∷ fs) buf)

  -- The sort looks at the keys alone.
  abbrev pub SortsByKey : Type 0
  SortsByKey = (fs : List Field) → sort_by_key (map mask fs) ≡ map mask (sort_by_key fs)

  -- The order in which a formatter writes the fields of an entry.
  pub ordered-mask :
      (off : Bool) (fs : List Field)
      → SortsByKey
      → (if off
          then map mask fs
          else if ltb 1 (length (map mask fs))
          then sort_by_key (map mask fs)
          else map mask fs)
        ≡ map mask (if off then fs else if ltb 1 (length fs) then sort_by_key fs else fs)
  ordered-mask off fs by_key =
      by_flags off (ltb 1 (length (map mask fs))) (ltb 1 (length fs)) (ap (ltb 1) (length-map fs))
    where
      by_flags :
          (off many many' : Bool)
          → many ≡ many'
          → (if off then map mask fs else if many then sort_by_key (map mask fs) else map mask fs)
            ≡ map mask (if off then fs else if many' then sort_by_key fs else fs)
      by_flags true many many' e = refl
      by_flags false true true e = by_key fs
      by_flags false false false e = refl
      by_flags false true false e = cc
      by_flags false false true e = cc

  field_order-mask :
      (l : LogfmtFormatter) (fs : List Field)
      → SortsByKey
      → field_order p sort_by_key l (map mask fs) ≡ map mask (field_order p sort_by_key l fs)
  field_order-mask l fs by_key = ordered-mask l.disable_sorting fs by_key

  output-end :
      (l : LogfmtFormatter) (e e' : Entry) (written : Option Bytes)
      → output (logfmt_end p sort_by_key l e written)
        ≡ output (logfmt_end p sort_by_key l e' written)
  output-end l e e' none = refl
  output-end l e e' (some buf) = refl

  body-mask :
      (e : Entry) (start : Option (LogfmtFormatter × Bytes))
      → SortsByKey
      → output (logfmt_body p sort_by_key (mask_entry e) start)
        ≡ output (logfmt_body p sort_by_key e start)
  body-mask e none by_key = refl
  body-mask e (some (l, buf)) by_key =
      let before =
        logfmt_caller p sort_by_key l e.caller_info
          (logfmt_message p sort_by_key l e.message (logfmt_level p sort_by_key l e.level buf)) in
      let sorted = field_order p sort_by_key l e.fields in
      output-end l _ _ _
      ∙ ap
          (λ (fs : List Field). output (
            logfmt_end p sort_by_key l (record e { fields = sorted })
              (logfmt_all_fields p sort_by_key l l.options.field_name_converter fs before)))
          (field_order-mask l e.fields by_key)
      ∙ ap
          (λ (w : Option Bytes).
            output (logfmt_end p sort_by_key l (record e { fields = sorted }) w))
          (logfmt_all_fields-mask l l.options.field_name_converter sorted before)

  -- Where the sort looks at the keys alone, the output, the formatter's next state and whether the
  -- call panics are the same for an entry and for the entry whose sensitive fields are reduced to
  -- their keys.
  pub format_logfmt-mask_entry :
      (l : LogfmtFormatter) (e : Entry)
      → SortsByKey
      → output (format_logfmt p sort_by_key l (mask_entry e))
        ≡ output (format_logfmt p sort_by_key l e)
  unfolding format_logfmt
  format_logfmt-mask_entry l e by_key =
      body-mask e (logfmt_timestamp p sort_by_key l e.time []) by_key
