-- ===== src/Colors/Codes.antt =====
-- colors.go: the ANSI escape sequences.
use onelog.Prelude.{◌∷◌, Bytes, codes}

abbrev pub reset : Bytes
reset = 27 ∷ codes "[0m"

abbrev pub bold : Bytes
bold = 27 ∷ codes "[1m"

abbrev pub underline : Bytes
underline = 27 ∷ codes "[4m"

abbrev pub blink : Bytes
blink = 27 ∷ codes "[5m"

abbrev pub reverse : Bytes
reverse = 27 ∷ codes "[7m"

abbrev pub hidden : Bytes
hidden = 27 ∷ codes "[8m"

abbrev pub black : Bytes
black = 27 ∷ codes "[30m"

abbrev pub red : Bytes
red = 27 ∷ codes "[31m"

abbrev pub green : Bytes
green = 27 ∷ codes "[32m"

abbrev pub yellow : Bytes
yellow = 27 ∷ codes "[33m"

abbrev pub blue : Bytes
blue = 27 ∷ codes "[34m"

abbrev pub magenta : Bytes
magenta = 27 ∷ codes "[35m"

abbrev pub cyan : Bytes
cyan = 27 ∷ codes "[36m"

abbrev pub white : Bytes
white = 27 ∷ codes "[37m"

abbrev pub bright_black : Bytes
bright_black = 27 ∷ codes "[90m"

abbrev pub bright_red : Bytes
bright_red = 27 ∷ codes "[91m"

abbrev pub bright_green : Bytes
bright_green = 27 ∷ codes "[92m"

abbrev pub bright_yellow : Bytes
bright_yellow = 27 ∷ codes "[93m"

abbrev pub bright_blue : Bytes
bright_blue = 27 ∷ codes "[94m"

abbrev pub bright_magenta : Bytes
bright_magenta = 27 ∷ codes "[95m"

abbrev pub bright_cyan : Bytes
bright_cyan = 27 ∷ codes "[96m"

abbrev pub bright_white : Bytes
bright_white = 27 ∷ codes "[97m"

abbrev pub bg_black : Bytes
bg_black = 27 ∷ codes "[40m"

abbrev pub bg_red : Bytes
bg_red = 27 ∷ codes "[41m"

abbrev pub bg_green : Bytes
bg_green = 27 ∷ codes "[42m"

abbrev pub bg_yellow : Bytes
bg_yellow = 27 ∷ codes "[43m"

abbrev pub bg_blue : Bytes
bg_blue = 27 ∷ codes "[44m"

abbrev pub bg_magenta : Bytes
bg_magenta = 27 ∷ codes "[45m"

abbrev pub bg_cyan : Bytes
bg_cyan = 27 ∷ codes "[46m"

abbrev pub bg_white : Bytes
bg_white = 27 ∷ codes "[47m"

abbrev pub bg_bright_black : Bytes
bg_bright_black = 27 ∷ codes "[100m"

abbrev pub bg_bright_red : Bytes
bg_bright_red = 27 ∷ codes "[101m"

abbrev pub bg_bright_green : Bytes
bg_bright_green = 27 ∷ codes "[102m"

abbrev pub bg_bright_yellow : Bytes
bg_bright_yellow = 27 ∷ codes "[103m"

abbrev pub bg_bright_blue : Bytes
bg_bright_blue = 27 ∷ codes "[104m"

abbrev pub bg_bright_magenta : Bytes
bg_bright_magenta = 27 ∷ codes "[105m"

abbrev pub bg_bright_cyan : Bytes
bg_bright_cyan = 27 ∷ codes "[106m"

abbrev pub bg_bright_white : Bytes
bg_bright_white = 27 ∷ codes "[107m"
