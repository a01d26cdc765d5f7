-- ===== src/Formatter/Text/Tests.antt =====
-- Runs of the text formatter, and its theorems at a concrete entry.
use onelog.Prelude.{◌≡◌, refl, Option, none, some, List, [], ◌∷◌, Bytes, codes}
use onelog.Field.{Field, Entry, str_field, sensitive}
use onelog.Level.{level_string}
use onelog.Colors.{default_palette}
use onelog.Formatter.{Printers}
use onelog.Formatter.Json.{get_cached_time_string}
use onelog.Formatter.Json.Redaction.{mask_entry}
use onelog.Formatter.Text.{
  TextFormatter, new_text_formatter, format_text, text_fields, format_text_value,
}
use onelog.Formatter.Text.Tints.{plain, bright}
use onelog.Formatter.Text.Colored.{Matches, format_text-Matches}
use onelog.Formatter.Text.Redaction.{text_output, format_text-mask_entry}

abbrev printers : Printers
printers = record {
  append_int = λ n. codes "1";
  append_uint = λ n. codes "1";
  append_float = λ n. codes "1.5";
  format_time = λ layout t. codes "now";
  duration_string = λ d. codes "1s";
  sprint = λ v. codes "x";
  as_formatter = λ v. none;
  as_stringer = λ v. none;
}

abbrev in_order : List Field → List Field
in_order fs = fs

abbrev login : Entry
login = record {
  level = 2;
  time = 5;
  message = codes "in";
  fields =
      str_field (codes "user") (codes "ann") ∷ sensitive (str_field (codes "pin") (codes "7")) ∷ [];
  ctx = none;
  caller_info = none;
}

abbrev printed : Option (TextFormatter × Entry × Bytes) → Bytes
printed none = []
printed (some (t, e, out)) = out

prints :
    printed (format_text printers in_order default_palette new_text_formatter login)
    ≡ codes "now INFO in user=ann pin=[REDACTED]\n"
unfolding format_text text_fields format_text_value get_cached_time_string level_string str_field
    sensitive
prints = refl

format_text-Matches_example :
    Matches default_palette 2
      (format_text printers in_order default_palette (plain new_text_formatter) login)
      (format_text printers in_order default_palette (bright new_text_formatter) login)
format_text-Matches_example =
    format_text-Matches printers in_order default_palette new_text_formatter login

format_text-mask_entry_example :
    text_output
      (format_text printers in_order default_palette new_text_formatter (mask_entry login))
    ≡ text_output (format_text printers in_order default_palette new_text_formatter login)
format_text-mask_entry_example =
    format_text-mask_entry printers in_order default_palette new_text_formatter login (λ fs. refl)
