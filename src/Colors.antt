-- ===== src/Colors.antt =====
-- colors.go: the ANSI codes, the palette that the text formatter writes, and its setters. The
-- package's variables are one record.
mod Codes
pub mod Laws
pub use Codes.*
use onelog.Prelude.{
  ℕ, Bool, true, false, ◌&&◌, ◌||◌, not, Option, none, some, List, [], ◌∷◌, ◌++◌, Bytes, codes,
  bytes_eq, if◌then◌else◌, ◌==◌, bit_and,
}
use onelog.Level.{trace_level, debug_level, info_level, warn_level, error_level, fatal_level}

pub record Palette : Type 0 where
  pub trace_color : Bytes
  pub debug_color : Bytes
  pub info_color : Bytes
  pub warn_color : Bytes
  pub error_color : Bytes
  pub fatal_color : Bytes
  pub reset_color : Bytes
  pub key_color : Bytes
  pub string_color : Bytes
  pub number_color : Bytes
  pub bool_color : Bytes
  pub time_color : Bytes
  pub error_str_color : Bytes
  pub default_color : Bytes
  pub colors_enabled : Bool

-- Before `init` has looked at the terminal.
abbrev pub default_palette : Palette
default_palette = record {
  trace_color = cyan;
  debug_color = blue;
  info_color = green;
  warn_color = yellow;
  error_color = red;
  fatal_color = bright_red;
  reset_color = reset;
  key_color = cyan;
  string_color = green;
  number_color = magenta;
  bool_color = yellow;
  time_color = blue;
  error_str_color = red;
  default_color = white;
  colors_enabled = false;
}

-- `os.LookupEnv`: whether the variable is there.
abbrev is_set : Option Bytes → Bool
is_set none = false
is_set (some v) = true

abbrev is_smart : Option Bytes → Bool
is_smart none = false
is_smart (some term) = not (bytes_eq term (codes "dumb"))

-- `mode` is that of stdout, or none for an error of Stat; `device` is the bit os.ModeCharDevice.
abbrev is_terminal : ℕ → Option ℕ → Bool
is_terminal device none = false
is_terminal device (some mode) = not (bit_and mode device == 0)

unfoldable pub check_colors_enabled : Bytes → (Bytes → Option Bytes) → ℕ → Option ℕ → Bool
check_colors_enabled goos env device mode =
    if bytes_eq goos (codes "windows")
    then is_set (env (codes "ANSICON"))
      || is_smart (env (codes "TERM"))
      || is_set (env (codes "CI"))
    else is_terminal device mode

-- `init`
unfoldable pub init_colors : Bytes → (Bytes → Option Bytes) → ℕ → Option ℕ → Palette → Palette
unfolding check_colors_enabled
init_colors goos env device mode c = record c {
  colors_enabled = check_colors_enabled goos env device mode;
}

unfoldable pub set_colors_enabled : Bool → Palette → Palette
set_colors_enabled enabled c = record c { colors_enabled = enabled }

unfoldable pub enable_colors : Palette → Palette
enable_colors c = record c { colors_enabled = true }

unfoldable pub disable_colors : Palette → Palette
disable_colors c = record c { colors_enabled = false }

abbrev color_by_level : Palette → ℕ → Bytes
color_by_level c level =
    if level == trace_level
    then c.trace_color
    else if level == debug_level
    then c.debug_color
    else if level == info_level
    then c.info_color
    else if level == warn_level
    then c.warn_color
    else if level == error_level
    then c.error_color
    else if level == fatal_level
    then c.fatal_color
    else c.default_color

unfoldable pub get_color_for_level : Palette → ℕ → Bytes
get_color_for_level c level = if c.colors_enabled then color_by_level c level else []

unfoldable pub set_level_color : ℕ → Bytes → Palette → Palette
set_level_color level color c =
    if level == trace_level
    then record c { trace_color = color }
    else if level == debug_level
    then record c { debug_color = color }
    else if level == info_level
    then record c { info_color = color }
    else if level == warn_level
    then record c { warn_color = color }
    else if level == error_level
    then record c { error_color = color }
    else if level == fatal_level
    then record c { fatal_color = color }
    else c

unfoldable pub set_key_color : Bytes → Palette → Palette
set_key_color color c = record c { key_color = color }

unfoldable pub set_string_color : Bytes → Palette → Palette
set_string_color color c = record c { string_color = color }

unfoldable pub set_number_color : Bytes → Palette → Palette
set_number_color color c = record c { number_color = color }

unfoldable pub set_bool_color : Bytes → Palette → Palette
set_bool_color color c = record c { bool_color = color }

unfoldable pub set_time_color : Bytes → Palette → Palette
set_time_color color c = record c { time_color = color }

unfoldable pub set_error_color : Bytes → Palette → Palette
set_error_color color c = record c { error_str_color = color }

unfoldable pub set_default_color : Bytes → Palette → Palette
set_default_color color c = record c { default_color = color }

-- `decimal` is `%d` of an int.
module _ (decimal : ℕ → Bytes) where
  unfoldable pub rgb : ℕ → ℕ → ℕ → Bytes
  rgb r g b = 27 ∷ codes "[38;2;" ++ decimal r ++ b';' ∷ decimal g ++ b';' ∷ decimal b ++ b'm' ∷ []

  unfoldable pub bg_rgb : ℕ → ℕ → ℕ → Bytes
  bg_rgb r g b =
      27 ∷ codes "[48;2;" ++ decimal r ++ b';' ∷ decimal g ++ b';' ∷ decimal b ++ b'm' ∷ []

  unfoldable pub xterm256 : ℕ → Bytes
  xterm256 code = 27 ∷ codes "[38;5;" ++ decimal code ++ b'm' ∷ []

  unfoldable pub bg_xterm256 : ℕ → Bytes
  bg_xterm256 code = 27 ∷ codes "[48;5;" ++ decimal code ++ b'm' ∷ []

unfoldable pub combine : List Bytes → Bytes
combine [] = []
combine (c ∷ cs) = c ++ combine cs
