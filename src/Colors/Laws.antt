-- ===== src/Colors/Laws.antt =====
-- colors.go: the color of a level is the one that was set last.
use onelog.Prelude.{ℕ, ◌≡◌, ◌≢◌, ◌<◌, ◌≤◌, true, Bytes, arith}
use onelog.Colors.{Palette, get_color_for_level, set_level_color}

-- Where colors are enabled, setting the color of a level gives that color to the level, if it is
-- one of the six from trace to fatal, and changes nothing for any other level. Setting that of a
-- level from 6 on changes nothing at all.
pub set_level_color_lem :
    (level : ℕ) (color : Bytes) (c : Palette)
    → c.colors_enabled ≡ true
    → (level < 6 → get_color_for_level (set_level_color level color c) level ≡ color)
      × ((other : ℕ)
          → other ≢ level
          → get_color_for_level (set_level_color level color c) other ≡ get_color_for_level c other)
      × (6 ≤ level → set_level_color level color c ≡ c)
unfolding get_color_for_level set_level_color
set_level_color_lem level color c on =
    ((λ h. ground arith), (λ other apart. ground arith), (λ h. ground arith))
