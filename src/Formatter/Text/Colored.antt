-- ===== src/Formatter/Text/Colored.antt =====
-- formatter_text.go: colors only add codes between the bytes of the plain output.
use onelog.Prelude.{
  ℕ, ◌≡◌, refl, Bool, true, false, Option, none, some, List, [], ◌∷◌, ◌++◌, Bytes, if◌then◌else◌,
}
use onelog.Field.{Field, Entry}
use onelog.Colors.{Palette}
use onelog.Formatter.{Printers}
use onelog.Formatter.Json.{TimeCache, get_cached_time_string}
use onelog.Formatter.Text.{
  TextFormatter, text_cached, text_level, text_converter, text_all_fields, text_order, text_end,
  text_body, format_text,
}
use onelog.Formatter.Text.Tints.{Tints, same, join, plain, bright, fields-Tints, level-Tints}

-- The same fate of two calls: both panic, or they leave the same cache and the same entry, and
-- the second output tints the first.
abbrev pub Matches :
    Palette
    → ℕ
    → Option (TextFormatter × Entry × Bytes)
    → Option (TextFormatter × Entry × Bytes)
    → Type 0
Matches c level none none = Unit
Matches c level (some (t, e, a)) (some (t', e', a')) =
    (t.time_cache ≡ t'.time_cache) × (e ≡ e') × Tints c level a a'
Matches c level _ _ = ⊥

module _ (p : Printers) (sort_by_key : List Field → List Field) (c : Palette) (t : TextFormatter)
    (e : Entry) where
  end-Matches :
      (u : TextFormatter) (a a' : Bytes)
      → Tints c e.level a a'
      → Matches c e.level
          (text_end p sort_by_key c
            (record (plain t) { time_cache = u.time_cache })
            (record e { fields = text_order p sort_by_key c t e.fields })
            (some a))
          (text_end p sort_by_key c
            (record (bright t) { time_cache = u.time_cache })
            (record e { fields = text_order p sort_by_key c t e.fields })
            (some a'))
  end-Matches u a a' w = (refl, refl, by_flag t.options.disable_newline)
    where
      by_flag :
          (b : Bool)
          → Tints c e.level (if b then a else a ++ 10 ∷ []) (if b then a' else a' ++ 10 ∷ [])
      by_flag true = w
      by_flag false = join w (same (10 ∷ []))

  body-Matches :
      (u : TextFormatter) (a : Bytes)
      → Matches c e.level
          (text_body p sort_by_key c e (some (record (plain t) { time_cache = u.time_cache }, a)))
          (text_body p sort_by_key c e (some (record (bright t) { time_cache = u.time_cache }, a)))
  body-Matches u a =
      by_fields (text_order p sort_by_key c t e.fields)
        (text_converter p sort_by_key c t.enable_field_names t.options.field_name_converter)
    where
      dark : TextFormatter
      dark = record (plain t) { time_cache = u.time_cache }

      light : TextFormatter
      light = record (bright t) { time_cache = u.time_cache }

      start :
          Tints c e.level
            (text_level p sort_by_key c dark e.level a ++ e.message)
            (text_level p sort_by_key c light e.level a ++ e.message)
      start =
          join
            (level-Tints p sort_by_key c e.level (record t { time_cache = u.time_cache }) (same a))
            (same e.message)

      finish :
          (x x' : Bytes)
          → Tints c e.level x x'
          → Matches c e.level
              (text_end p sort_by_key c dark
                (record e { fields = text_order p sort_by_key c t e.fields })
                (some x))
              (text_end p sort_by_key c light
                (record e { fields = text_order p sort_by_key c t e.fields })
                (some x'))
      finish x x' w = end-Matches u x x' w

      by_fields :
          (fs : List Field) (convert : Option (Bytes → Bytes))
          → Matches c e.level
              (text_end p sort_by_key c dark
                (record e { fields = text_order p sort_by_key c t e.fields })
                (text_all_fields p sort_by_key c dark convert fs
                  (text_level p sort_by_key c dark e.level a ++ e.message)))
              (text_end p sort_by_key c light
                (record e { fields = text_order p sort_by_key c t e.fields })
                (text_all_fields p sort_by_key c light convert fs
                  (text_level p sort_by_key c light e.level a ++ e.message)))
      by_fields [] convert = finish _ _ start
      by_fields (f ∷ fs) none = tt
      by_fields (f ∷ fs) (some convert) = finish _ _ (
          fields-Tints p sort_by_key c e.level (record t { time_cache = u.time_cache }) convert
            (f ∷ fs) _ _ start)

  -- Of one formatter with colors and without them, at one entry: either both calls panic, or both
  -- leave the same cache and the same entry, and the colored output is the plain output with
  -- codes of the palette between its bytes.
  pub format_text-Matches :
      Matches c e.level
        (format_text p sort_by_key c (plain t) e)
        (format_text p sort_by_key c (bright t) e)
  unfolding format_text
  format_text-Matches = by_flag t.options.no_timestamp
    where
      by_cache :
          (k : Option TimeCache)
          → Matches c e.level
              (text_body p sort_by_key c e (text_cached p sort_by_key c (plain t) k e.time))
              (text_body p sort_by_key c e (text_cached p sort_by_key c (bright t) k e.time))
      by_cache none = tt
      by_cache (some k) =
          let (k', text) = get_cached_time_string p k e.time t.options.time_format in
          body-Matches (record t { time_cache = some k' }) (text ++ t.field_separator)

      by_flag :
          (b : Bool)
          → Matches c e.level
              (text_body p sort_by_key c e (
                if b
                then some (plain t, [])
                else text_cached p sort_by_key c (plain t) t.time_cache e.time))
              (text_body p sort_by_key c e (
                if b
                then some (bright t, [])
                else text_cached p sort_by_key c (bright t) t.time_cache e.time))
      by_flag true = body-Matches t []
      by_flag false = by_cache t.time_cache
