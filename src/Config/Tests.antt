-- ===== src/Config/Tests.antt =====
-- The theorem about options at concrete ones.
use onelog.Prelude.{◌≡◌, refl, true, none, List, [], ◌∷◌, map}
use onelog.Config.{new_config, default_config, validate}
use onelog.Config.Laws.{
  Setting, sets_level, sets_async, sets_writer, option_of, last_values, new_config_lem,
}

abbrev settings : List Setting
settings = sets_level 1 ∷ sets_async true ∷ sets_level 4 ∷ sets_writer none ∷ []

new_config_lem_example :
    new_config 0 1 (map option_of settings) ≡ last_values settings (default_config 0 1)
new_config_lem_example = new_config_lem 0 1 settings

default_is_valid : validate (default_config 0 1) ≡ none
unfolding validate default_config
default_is_valid = refl
