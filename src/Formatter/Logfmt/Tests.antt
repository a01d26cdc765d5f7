-- ===== src/Formatter/Logfmt/Tests.antt =====
-- The logfmt formatter at a concrete entry, and the theorems about it there.
use onelog.Prelude.{
  ℕ, ◌≡◌, refl, true, false, none, some, List, [], ◌∷◌, ◌++◌, Bytes, codes, replicate,
}
use onelog.Field.{Field, Entry, str_field, int_field, sensitive}
use onelog.Level.{level_string}
use onelog.Utils.Escape.{escape_loop}
use onelog.Formatter.{Printers, default_formatter_options}
use onelog.Formatter.Json.{get_cached_time_string}
use onelog.Formatter.Logfmt.{
  new_logfmt_formatter, write_escaped_logfmt_string, format_logfmt, logfmt_fields,
  format_field_value,
}
use onelog.Formatter.Logfmt.Escape.{read, is_end, write_escaped_logfmt_string-read}
use onelog.Formatter.Logfmt.Structure.{
  members, ended, sorted_entry, stamp_members, with_cache, format_logfmt_lem,
}
use onelog.Formatter.Logfmt.Redaction.{output}

-- Numbers in unary, and one text for all times.
abbrev unary : Printers
unary = record {
  append_int = λ n. replicate n b'1';
  append_uint = λ n. replicate n b'1';
  append_float = λ n. codes "0.5";
  format_time = λ layout t. codes "now";
  duration_string = λ d. codes "1s";
  sprint = λ v. codes "{}";
  as_formatter = λ v. none;
  as_stringer = λ v. none;
}

-- A sort for fields that stand in order.
abbrev in_order : List Field → List Field
in_order fs = fs

abbrev visit : Entry
visit = record {
  level = 3;
  time = 5_000_123;
  message = codes "a=b";
  fields = int_field (codes "n") 2 ∷ sensitive (str_field (codes "token") (codes "1234")) ∷ [];
  ctx = none;
  caller_info = none;
}

write_escaped_logfmt_string-read_example :
    (body : Bytes) × (write_escaped_logfmt_string (codes "k=") (codes "a b\n") ≡ codes "k=" ++ body)
    × ((c : ℕ) (next : Bytes)
        → is_end c ≡ true
        → read false (body ++ c ∷ next) ≡ some (codes "a b\n", c ∷ next))
write_escaped_logfmt_string-read_example =
    write_escaped_logfmt_string-read (codes "k=") (codes "a b\n")

format_logfmt_lem_example :
    let (c', text) =
      get_cached_time_string unary [] 5_000_123 default_formatter_options.time_format in
    let l' = with_cache unary in_order new_logfmt_formatter c' in
    format_logfmt unary in_order new_logfmt_formatter visit
    ≡ some (
      l',
      sorted_entry unary in_order l' visit,
      ended unary in_order l' (
          members unary in_order l'
            (λ s. s)
            visit
            (stamp_members unary in_order new_logfmt_formatter text)),
    )
format_logfmt_lem_example =
    format_logfmt_lem unary in_order new_logfmt_formatter visit [] (λ s. s) refl refl

line :
    output (format_logfmt unary in_order new_logfmt_formatter visit)
    ≡ some (
      record new_logfmt_formatter { time_cache = some ((5_000_000, codes "now") ∷ []) },
      codes "time=\"now\" level=\"WARN\" message=\"a\\=b\" n=11 token=\"[REDACTED]\"\n",
    )
unfolding format_logfmt get_cached_time_string logfmt_fields format_field_value
    write_escaped_logfmt_string escape_loop level_string str_field int_field sensitive
line = refl
