-- ===== src/Formatter/Json/Values.antt =====
-- formatter_json.go: the texts of field values, and the cache of printed times.
use onelog.Prelude.{
  leb, ◌||◌, All-map, ◌↔◌, ◌≤◌, All-split, All-append, arith, true_ne, ℕ, ◌≡◌, refl, sym, ap, ◌∙◌,
  Bool, true, false, Option, none, some, [], ◌∷◌, ◌++◌, append_assoc, Bytes, codes, if◌then◌else◌,
  All, Bool-cases, inl, inr, if_elim, ◌==◌, ==_iff, ◌⊎◌, length, take,
}
use onelog.Field.{FieldType, string_type, error_type, object_type, array_type, Field}
use onelog.Utils.Escape.{in_table, table_code, write_escaped_string_optimized}
use onelog.Utils.Escape.Loop.{escaped, write_escaped_string_optimized_lem}
use onelog.Utils.Escape.Scan.{scan, plain, scan-table}
use onelog.Utils.Escape.Quote.{IsPrintable, escaped-IsPrintable_iff}
use onelog.Formatter.{Printers, FormatterOptions, stringify_value, is_long}
use onelog.Formatter.Json.{
  TimeCache, load_time, truncate_time, get_cached_time_string, format_json_field_value, json_typed,
  escaped_text,
}

some_injective : {s t : Bytes} → some s ≡ some t → s ≡ t
some_injective e = cc

escaped-append :
    (s t : Bytes)
    → escaped in_table table_code (s ++ t)
      ≡ escaped in_table table_code s ++ escaped in_table table_code t
escaped-append [] t = refl
escaped-append (c ∷ s) t =
    ap (λ (r : Bytes). (if in_table c then b'\\' ∷ table_code c else c ∷ []) ++ r)
      (escaped-append s t)
    ∙ sym (append_assoc _ (escaped in_table table_code s) (escaped in_table table_code t))

-- The bytes that a JSON string has, raw or with an escape of one letter.
abbrev pub is_short : ℕ → Bool
is_short c = leb 32 c || c == 8 || c == 9 || c == 10 || c == 12 || c == 13

escaped-IsPrintable_short :
    (s : Bytes) → IsPrintable (escaped in_table table_code s) ↔ All (λ (c : ℕ). is_short c ≡ true) s
escaped-IsPrintable_short s = (
  (λ h. All-map _ _ s to ((escaped-IsPrintable_iff s).0 h)),
  (λ h. (escaped-IsPrintable_iff s).1 (All-map _ _ s from h)),
)
  where
    to : (c : ℕ) → (32 ≤ c) ⊎ (in_table c ≡ true) → is_short c ≡ true
    to c (inl h) = ground arith
    to c (inr h) = ground arith

    from : (c : ℕ) → is_short c ≡ true → (32 ≤ c) ⊎ (in_table c ≡ true)
    from c h = elim (Bool-cases (leb 32 c)) [
      | inl e ↦ inl (ground arith)
      | inr e ↦ inr (ground arith)
    ]

module _ (p : Printers) (o : FormatterOptions) where
  -- The text that a field of a type written as an escaped string stands for.
  abbrev pub shown_text : FieldType → Field → Option Bytes
  shown_text string_type f =
      some
        (if is_long o f.string then take o.truncate_strings f.string ++ codes "..." else f.string)
  shown_text error_type f = some f.string
  shown_text object_type f = some (stringify_value p f.interface)
  shown_text array_type f = some (stringify_value p f.interface)
  shown_text _ f = none

  abbrev quoted_text : Bytes → Bytes
  quoted_text t = b'"' ∷ escaped in_table table_code t ++ b'"' ∷ []

  escaped_text-quoted : (s : Bytes) → escaped_text p [] s ≡ quoted_text s
  escaped_text-quoted s = simp (write_escaped_string_optimized_lem, append_assoc)

  json_typed-quoted :
      (k : FieldType) (f : Field) (t : Bytes)
      → shown_text k f ≡ some t
      → json_typed p [] k f o ≡ quoted_text t
  json_typed-quoted string_type f t e =
      by_length (is_long o f.string) ∙ ap quoted_text (some_injective e)
    where
      by_length :
          (b : Bool)
          → (if b
              then write_escaped_string_optimized (b'"' ∷ []) (take o.truncate_strings f.string)
                ++ codes "..."
                ++ b'"' ∷ []
              else escaped_text p [] f.string)
            ≡ quoted_text (if b then take o.truncate_strings f.string ++ codes "..." else f.string)
      by_length true = simp (write_escaped_string_optimized_lem, escaped-append, append_assoc)
      by_length false = escaped_text-quoted f.string
  json_typed-quoted error_type f t e =
      escaped_text-quoted f.string ∙ ap quoted_text (some_injective e)
  json_typed-quoted object_type f t e = escaped_text-quoted _ ∙ ap quoted_text (some_injective e)
  json_typed-quoted array_type f t e = escaped_text-quoted _ ∙ ap quoted_text (some_injective e)
  json_typed-quoted _ f t e = cc

  -- The value of a string, error, object or array field that is not sensitive is a text in quotes
  -- from which a reader of JSON that lets raw control characters pass gets the field's text,
  -- truncated as the options say, whatever quotes, backslashes and line breaks it has. It has no
  -- raw control character, as JSON wants it, exactly if the text has none but backspaces, tabs,
  -- line feeds, form feeds and carriage returns.
  pub format_json_field_value-scan :
      (f : Field) (t : Bytes)
      → f.is_sensitive ≡ false
      → shown_text f.type f ≡ some t
      → (body : Bytes) × (format_json_field_value p [] f o ≡ b'"' ∷ body)
        × ((next : Bytes) → scan plain (body ++ next) ≡ some (t, next))
        × (IsPrintable body ↔ All (λ (c : ℕ). is_short c ≡ true) t)
  unfolding format_json_field_value
  format_json_field_value-scan f t open_ e =
      let text = escaped in_table table_code t in
      (
        text ++ b'"' ∷ [],
        ap
              (λ (b : Bool).
                if b then b'"' ∷ o.redacted_value ++ b'"' ∷ [] else json_typed p [] f.type f o)
              open_
            ∙ json_typed-quoted f.type f t e,
        (λ next. ap (scan plain) (append_assoc text (b'"' ∷ []) next) ∙ scan-table t next),
        (
          (λ h.
              (escaped-IsPrintable_short t).0 (All-split (λ (c : ℕ). 32 ≤ c) text (b'"' ∷ []) h).0),
          (λ h.
              All-append (λ (c : ℕ). 32 ≤ c) text (b'"' ∷ []) ((escaped-IsPrintable_short t).1 h)
                (omega arith, tt)),
        ),
      )

-- Every text in the cache is that of its key.
abbrev pub IsFresh : (ℕ → Bytes) → TimeCache → Type 0
IsFresh show c = All (λ (e : ℕ × Bytes). e.1 ≡ show e.0) c

load_time-IsFresh :
    (show : ℕ → Bytes) (c : TimeCache) (k : ℕ)
    → IsFresh show c
    → (load_time k c ≡ []) ⊎ (load_time k c ≡ show k)
load_time-IsFresh show [] k h = inl refl
load_time-IsFresh show ((j, text) ∷ c) k (this, others) = elim (Bool-cases (k == j)) [
  | inl same ↦ rw same (inr (this ∙ ap show (sym ((==_iff k j).0 same))))
  | inr other ↦ rw other (load_time-IsFresh show c k others)
]

-- Where the layout prints no more than milliseconds and every text in the cache is that of its key,
-- the text from the cache is the one that printing the time would give, and the cache stays so.
pub get_cached_time_string_lem :
    (p : Printers) (c : TimeCache) (t : ℕ) (format : Bytes)
    → ((t : ℕ) → p.format_time format t ≡ p.format_time format (truncate_time t))
    → IsFresh (p.format_time format) c
    → let (c', text) = get_cached_time_string p c t format in
      IsFresh (p.format_time format) c' × (text ≡ p.format_time format t)
unfolding get_cached_time_string
get_cached_time_string_lem p c t format coarse fresh =
    let k = truncate_time t in
    if_elim
      (λ (r : TimeCache × Bytes).
        IsFresh (p.format_time format) r.0 × (r.1 ≡ p.format_time format t))
      (0 == length (load_time k c)) _ _ (λ missing. ((coarse t, fresh), refl))
      (λ found. (
        fresh,
        elim (load_time-IsFresh (p.format_time format) c k fresh) [
          | inl gone ↦ absurd (true_ne (sym (ap (λ (s : Bytes). 0 == length s) gone) ∙ found))
          | inr kept ↦ kept ∙ sym (coarse t)
        ],
      ))
