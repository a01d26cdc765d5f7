-- ===== src/Utils/Tests.antt =====
-- The text helpers of utils.go at concrete texts, and the theorems about them there.
use onelog.Utils.Keys.{
  all_lower, fill_lower, fast_lower_case, contains, sensitive_loop, is_sensitive_key,
}
use onelog.Utils.Buffers.{get_buffer}
use onelog.Utils.Copy.{ReadError, eof, copy_buffer, take_all_of}
use onelog.Prelude.{
  ℕ, ◌+◌, false, none, Option, List, length, arith, ◌≡◌, refl, true, some, [], ◌∷◌, ◌++◌, Bytes,
  codes, length, arith,
}
use onelog.Utils.Escape.{
  append_quote, write_escaped_string_optimized, escape_loop, append_escaped_string,
  string_needs_escaping,
}
use onelog.Utils.Escape.Loop.{IsCorrect}
use onelog.Utils.Escape.Scan.{scan, plain}
use onelog.Utils.Escape.Quote.{IsPrintable, append_quote_lem}
use onelog.Utils.Base64.{encode_base64, base64_encoded_len}
use onelog.Utils.Base64.Decode.{decode_base64}
use onelog.Utils.Base64.Encode.{encode_base64_lem}

-- A quote, a bell and a line break.
abbrev noisy : Bytes
noisy = b'"' ∷ 7 ∷ b'a' ∷ 10 ∷ []

append_quote_lem_example :
    let (m', out) = append_quote [] (codes "x=") noisy in
    IsCorrect m'
    × ((body : Bytes) × (out ≡ codes "x=" ++ b'"' ∷ body)
        × IsPrintable body
        × ((next : Bytes) → scan plain (body ++ next) ≡ some (noisy, next)))
append_quote_lem_example = append_quote_lem [] (codes "x=") noisy tt

encode_base64_lem_example :
    (text : Bytes) × (encode_base64 (codes "data:") (codes "antt") ≡ codes "data:" ++ text)
    × (length text ≡ base64_encoded_len 4)
    × (decode_base64 text ≡ some (codes "antt"))
encode_base64_lem_example =
    encode_base64_lem (codes "data:") (codes "antt")
      (omega arith, (omega arith, (omega arith, (omega arith, tt)))) (omega arith)

-- The bell is escaped by the one loop and not by the other.
written :
    ((append_quote [] [] noisy).1 ≡ codes "\"\\\"\\u0007a\\n\"")
    × (write_escaped_string_optimized [] noisy ≡ b'\\' ∷ b'"' ∷ 7 ∷ b'a' ∷ b'\\' ∷ b'n' ∷ [])
    × (encode_base64 [] (codes "Man is") ≡ codes "TWFuIGlz")
    × (encode_base64 [] (codes "Ma") ≡ codes "TWE=")
    × (encode_base64 [] (codes "M") ≡ codes "TQ==")
unfolding append_quote append_escaped_string escape_loop write_escaped_string_optimized
    encode_base64 string_needs_escaping
written = (refl, refl, refl, refl, refl)

abbrev identity : Bytes → Bytes
identity s = s

-- Two chunks, the second beside io.EOF, and one that is not read.
abbrev three_reads : List (Bytes × Option ReadError)
three_reads = (codes "ab", none) ∷ (codes "c", some eof) ∷ (codes "d", none) ∷ []

keys_and_copies :
    (fast_lower_case (codes "Api_KEY 2") ≡ codes "api_key 2")
    × (is_sensitive_key identity (codes "monkey") ≡ true)
    × (is_sensitive_key identity (codes "user") ≡ false)
    × (copy_buffer take_all_of three_reads 0 [] ≡ (3, none, codes "abc"))
unfolding fast_lower_case all_lower fill_lower is_sensitive_key sensitive_loop contains copy_buffer
keys_and_copies = (refl, refl, refl, refl)

abbrev doubled : ℕ → ℕ → ℕ
doubled capacity needed = needed + capacity

-- A buffer of 200 bytes is asked to have 256: the missing 56 fit into the empty buffer, which does
-- not grow.
stays_small : (get_buffer doubled 256 (record { bytes = []; capacity = 200 })).capacity ≡ 200
unfolding get_buffer
stays_small = refl

-- A buffer of 100 bytes grows.
grows : (get_buffer doubled 256 (record { bytes = []; capacity = 100 })).capacity ≡ 256
unfolding get_buffer
grows = refl
