-- ===== src/Level.antt =====
-- level.go: levels, their names, and the atomic level.
use onelog.Prelude.{
  ℕ, zero, suc, ◌+◌, ◌-◌, ◌≤◌, ◌<◌, Bool, true, false, Option, none, some, List, [], ◌∷◌, ◌++◌,
  Bytes, codes, bytes_eq, if◌then◌else◌, leb, ltb, ◌&&◌, map,
}
pub mod Parse
mod Tests

-- A level is a uint32; these are the named ones, in order.
abbrev pub trace_level : ℕ
trace_level = 0

abbrev pub debug_level : ℕ
debug_level = 1

abbrev pub info_level : ℕ
info_level = 2

abbrev pub warn_level : ℕ
warn_level = 3

abbrev pub error_level : ℕ
error_level = 4

abbrev pub fatal_level : ℕ
fatal_level = 5

abbrev pub disabled : ℕ
disabled = 6

abbrev pub level_names : List Bytes
level_names =
    codes "TRACE"
    ∷ codes "DEBUG"
    ∷ codes "INFO"
    ∷ codes "WARN"
    ∷ codes "ERROR"
    ∷ codes "FATAL"
    ∷ codes "DISABLED"
    ∷ []

abbrev pub level_map : List (Bytes × ℕ)
level_map =
    (codes "TRACE", trace_level)
    ∷ (codes "DEBUG", debug_level)
    ∷ (codes "INFO", info_level)
    ∷ (codes "WARN", warn_level)
    ∷ (codes "ERROR", error_level)
    ∷ (codes "FATAL", fatal_level)
    ∷ (codes "DISABLED", disabled)
    ∷ []

abbrev pub lookup : Bytes → List (Bytes × ℕ) → Option ℕ
lookup k [] = none
lookup k ((j, v) ∷ m) = let rest = lookup k m in if bytes_eq k j then some v else rest

abbrev pub name_at : List Bytes → ℕ → Bytes
name_at [] i = []
name_at (n ∷ ns) zero = n
name_at (n ∷ ns) (suc i) = name_at ns i

-- `%d` of a uint32 is a parameter, `decimal`.
unfoldable pub level_string : (ℕ → Bytes) → ℕ → Bytes
level_string decimal l =
    if leb 7 l then codes "Level(" ++ decimal l ++ codes ")" else name_at level_names l

-- `strings.ToUpper`: byte by byte on ASCII text. On other text it maps the code points, which is
-- left to the parameter `unicode_upper`.
abbrev pub upper_byte : ℕ → ℕ
upper_byte c = if leb b'a' c && leb c b'z' then c - 32 else c

abbrev pub is_ascii : Bytes → Bool
is_ascii [] = true
is_ascii (c ∷ s) = ltb c 128 && is_ascii s

pub data ParseResult : Type 0 where
  parsed : ℕ → ParseResult
  -- the level returned beside the error, and the text in its message
  unknown : ℕ → Bytes → ParseResult

abbrev pub of_lookup : Bytes → Option ℕ → ParseResult
of_lookup s none = unknown info_level s
of_lookup s (some l) = parsed l

-- The level of a result without an error.
abbrev pub accepted : ParseResult → Option ℕ
accepted (parsed l) = some l
accepted (unknown l t) = none

module _ (unicode_upper : Bytes → Bytes) where
  abbrev pub to_upper : Bytes → Bytes
  to_upper s = if is_ascii s then map upper_byte s else unicode_upper s

  unfoldable pub parse_level : Bytes → ParseResult
  parse_level s = of_lookup s (lookup (to_upper s) level_map)

  -- `none` is the panic.
  unfoldable pub must_parse_level : Bytes → Option ℕ
  unfolding parse_level
  must_parse_level s = accepted (parse_level s)

pub record AtomicLevel : Type 0 where
  pub level : ℕ

unfoldable pub new_atomic_level : ℕ → AtomicLevel
new_atomic_level l = record { level = l }

unfoldable pub get_level : AtomicLevel → ℕ
get_level a = a.level

unfoldable pub set_level : ℕ → AtomicLevel → AtomicLevel
set_level l a = record a { level = l }

unfoldable pub enabled : AtomicLevel → ℕ → Bool
enabled a l = leb a.level l

unfoldable pub atomic_level_string : (ℕ → Bytes) → AtomicLevel → Bytes
unfolding level_string get_level
atomic_level_string decimal a = level_string decimal (get_level a)
