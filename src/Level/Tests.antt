-- ===== src/Level/Tests.antt =====
-- Levels of level.go at concrete texts, and the theorems about them there.
use onelog.Prelude.{ℕ, ◌≤◌, ◌≡◌, ◌↔◌, refl, false, Bytes, codes}
use onelog.Level.{
  level_string, to_upper, parsed, unknown, parse_level, info_level, warn_level, new_atomic_level,
  set_level, enabled,
}
use onelog.Level.Parse.{parse_level_iff}

abbrev as_is : Bytes → Bytes
as_is s = s

abbrev tally : ℕ → Bytes
tally n = codes "#"

parse_level_iff_example :
    (parse_level as_is (codes "Warn") ≡ parsed 3)
    ↔ ((3 ≤ 6) × (to_upper as_is (codes "Warn") ≡ level_string tally 3))
parse_level_iff_example = parse_level_iff as_is tally (codes "Warn") 3

parsed_texts :
    (parse_level as_is (codes "wArn") ≡ parsed warn_level)
    × (parse_level as_is (codes "warning") ≡ unknown info_level (codes "warning"))
    × (enabled (set_level 3 (new_atomic_level 0)) 2 ≡ false)
    × (level_string tally 9 ≡ codes "Level(#)")
unfolding parse_level enabled set_level new_atomic_level level_string
parsed_texts = (refl, refl, refl, refl)
