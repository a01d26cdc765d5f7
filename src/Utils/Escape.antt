-- ===== src/Utils/Escape.antt =====
-- utils.go: the two escaping loops, the check before the first, and the cache of its answers.
pub mod Loop
pub mod Scan
pub mod Quote
use onelog.Prelude.{
  ℕ, zero, suc, ◌+◌, ◌-◌, ◌*◌, ◌/◌, ◌%◌, Bool, true, false, ◌&&◌, ◌||◌, Option, none, some, List,
  [], ◌∷◌, ◌++◌, Bytes, codes, bytes_eq, if◌then◌else◌, ◌==◌, ltb, leb, length, get_or, take, drop,
  bit_and, le64, lt64,
}

-- The test of `appendEscapedString` and `stringNeedsEscaping`.
abbrev pub must_escape : ℕ → Bool
must_escape c = ltb c 128 && (ltb c 32 || c == b'\\' || c == b'"')

-- `jsonEscapeTable`, for the bytes below 128.
abbrev pub json_escape_table : ℕ → Bool
json_escape_table c = c == b'"' || c == b'\\' || c == 10 || c == 13 || c == 9 || c == 8 || c == 12

abbrev pub in_table : ℕ → Bool
in_table c = ltb c 128 && json_escape_table c

abbrev pub hex : Bytes
hex = codes "0123456789abcdef"

-- What the switch of `appendEscapedString` writes behind the backslash.
abbrev pub escape_code : ℕ → Bytes
escape_code c =
    if c == b'\\' || c == b'"'
    then c ∷ []
    else if c == 10
    then codes "n"
    else if c == 13
    then codes "r"
    else if c == 9
    then codes "t"
    else if c == 8
    then codes "b"
    else if c == 12
    then codes "f"
    else codes "u00" ++ get_or hex (c / 16) 0 ∷ get_or hex (bit_and c 15) 0 ∷ []

-- The same of `writeEscapedStringOptimized`.
abbrev pub table_code : ℕ → Bytes
table_code c =
    if c == b'"'
    then codes "\""
    else if c == b'\\'
    then codes "\\"
    else if c == 10
    then codes "n"
    else if c == 13
    then codes "r"
    else if c == 9
    then codes "t"
    else if c == 8
    then codes "b"
    else if c == 12
    then codes "f"
    else c ∷ []

-- The loop over the text `s` from index `i`, `rest` being what it has not read. The bytes from
-- `start` are not written yet; `must` says which bytes are escaped, `code` what follows the
-- backslash. The first result is what is written, the second is the last `start`.
unfoldable pub escape_loop : (ℕ → Bool) → (ℕ → Bytes) → Bytes → Bytes → ℕ → ℕ → Bytes → Bytes × ℕ
escape_loop must code s [] i start dst = (dst, start)
escape_loop must code s (c ∷ rest) i start dst =
    let pending = if ltb start i then dst ++ take (i - start) (drop start s) else dst in
    escape_loop must code s rest (suc i) (if must c then suc i else start)
      (if must c then pending ++ b'\\' ∷ code c else dst)

-- The write behind the loop.
abbrev pub finish : Bytes → Bytes × ℕ → Bytes
finish s (dst, start) = if ltb start (length s) then dst ++ drop start s else dst

unfoldable pub write_escaped_string_optimized : Bytes → Bytes → Bytes
unfolding escape_loop
write_escaped_string_optimized dst s = finish s (escape_loop in_table table_code s s 0 0 dst)

unfoldable pub string_needs_escaping : Bytes → Bool
string_needs_escaping [] = false
string_needs_escaping (c ∷ s) =
    let rest = string_needs_escaping s in if must_escape c then true else rest

-- `utf8NeedsEscapeCache`.
abbrev pub Cache : Type 0
Cache = List (Bytes × Bool)

abbrev pub load : Bytes → Cache → Option Bool
load s [] = none
load s ((k, b) ∷ m) = let rest = load s m in if bytes_eq s k then some b else rest

abbrev pub needs_escape : Option Bool → Bytes → Bool
needs_escape none s = string_needs_escaping s
needs_escape (some b) s = b

-- Only a short text's answer is stored.
abbrev pub store_answer : Option Bool → Bytes → Cache → Cache
store_answer none s m = if leb (length s) 64 then (s, string_needs_escaping s) ∷ m else m
store_answer (some b) s m = m

unfoldable pub append_escaped_string : Cache → Bytes → Bytes → Cache × Bytes
unfolding escape_loop
append_escaped_string m dst [] = (m, dst)
append_escaped_string m dst (c ∷ t) =
    let s = c ∷ t in
    let found = load s m in
    (
      store_answer found s m,
      if needs_escape found s
          then finish s (escape_loop must_escape escape_code s s 0 0 dst)
          else dst ++ s,
    )

unfoldable pub append_quote : Cache → Bytes → Bytes → Cache × Bytes
unfolding append_escaped_string
append_quote m dst s =
    let (m', dst') = append_escaped_string m (dst ++ b'"' ∷ []) s in (m', dst' ++ b'"' ∷ [])

unfoldable pub truncate_string : Bytes → ℕ → Bytes
truncate_string s n = if le64 n 0 then s else if leb (length s) n then s else take n s

unfoldable pub safe_string : Cache → Bytes → ℕ → Cache × Bytes
unfolding append_escaped_string string_needs_escaping
safe_string m s max_length =
    let cut = if lt64 0 max_length && ltb max_length (length s) then take max_length s else s in
    if string_needs_escaping cut then append_escaped_string m [] cut else (m, cut)
