-- ===== src/Formatter/Tests.antt =====
-- The JSON formatter at a concrete entry, and the theorems about it there.
use onelog.Prelude.{
  ℕ, true, All, ◌↔◌, ◌≡◌, refl, false, none, some, [], ◌∷◌, ◌++◌, Bytes, codes, if◌then◌else◌,
  replicate,
}
use onelog.Field.{Field, Entry, str_field, int_field, sensitive}
use onelog.Level.{level_string}
use onelog.Utils.Escape.{write_escaped_string_optimized, escape_loop}
use onelog.Utils.Escape.Quote.{IsPrintable}
use onelog.Utils.Escape.Scan.{scan, plain}
use onelog.Formatter.{Printers, default_formatter_options, format_field}
use onelog.Formatter.Json.{
  new_json_formatter, get_cached_time_string, format_json, format_json_field_value, json_fields,
}
use onelog.Formatter.Json.Structure.{members, time_members, ended, format_json_lem}
use onelog.Formatter.Json.Redaction.{mask_entry, format_json-mask_entry}
use onelog.Formatter.Json.Values.{is_short, format_json_field_value-scan}

-- Numbers in unary, and one text for all times of a millisecond.
abbrev printers : Printers
printers = record {
  append_int = λ n. replicate n b'1';
  append_uint = λ n. replicate n b'1';
  append_float = λ n. codes "0.5";
  format_time = λ layout t. codes "now";
  duration_string = λ d. codes "1s";
  sprint = λ v. codes "{}";
  as_formatter = λ v. none;
  as_stringer = λ v. none;
}

abbrev hello : Bytes
hello = codes "say \"hi\""

-- A login with a password.
abbrev login : Entry
login = record {
  level = 2;
  time = 5_000_123;
  message = codes "login";
  fields =
      str_field (codes "user") hello
      ∷ sensitive (str_field (codes "password") (codes "1234"))
      ∷ int_field (codes "n") 3
      ∷ [];
  ctx = none;
  caller_info = none;
}

format_json_lem_example :
    let (c', text) =
      get_cached_time_string printers [] 5_000_123 default_formatter_options.time_format in
    format_json printers new_json_formatter login
    ≡ some (
      (if false then new_json_formatter else record new_json_formatter { time_cache = some c' }),
      ended printers default_formatter_options (
          members printers default_formatter_options
            (λ s. s)
            login
            (time_members printers default_formatter_options text)),
    )
format_json_lem_example = format_json_lem printers new_json_formatter login [] (λ s. s) refl refl

format_json-mask_entry_example :
    format_json printers new_json_formatter (mask_entry login)
    ≡ format_json printers new_json_formatter login
format_json-mask_entry_example = format_json-mask_entry printers new_json_formatter login

-- The user's name in the login.
abbrev user : Field
user = record {
  key = codes "user";
  type = onelog.Field.string_type;
  integer = 0;
  float = 0;
  string = hello;
  interface = onelog.Field.nil_value;
  is_sensitive = false;
}

format_json_field_value-scan_example :
    (body : Bytes) × (format_json_field_value printers [] user default_formatter_options
      ≡ b'"' ∷ body)
    × ((next : Bytes) → scan plain (body ++ next) ≡ some (hello, next))
    × (IsPrintable body ↔ All (λ (c : ℕ). is_short c ≡ true) hello)
format_json_field_value-scan_example =
    format_json_field_value-scan printers default_formatter_options user hello refl refl

written :
    (format_json printers new_json_formatter login
      ≡ some (
        record {
          options = default_formatter_options;
          time_cache = some ((5_000_000, codes "now") ∷ []);
        },
        codes
            "{\"time\":\"now\",\"level\":\"INFO\",\"message\":\"login\",\"user\":\"say \\\"hi\\\"\",\"password\":\"[REDACTED]\",\"n\":111}\n",
      ))
    × (format_field printers [] user default_formatter_options ≡ codes "\"say \\\"hi\\\"\"")
unfolding format_json get_cached_time_string json_fields format_json_field_value
    write_escaped_string_optimized escape_loop level_string str_field int_field sensitive
    format_field
written = (refl, refl)
