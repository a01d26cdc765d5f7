-- ===== src/Utils/Base64/Decode.antt =====
-- utils.go: a decoder of base64 text, and the digits of three bytes.
use onelog.Prelude.{
  ℕ, ◌+◌, ◌-◌, ◌*◌, ◌/◌, ◌%◌, ◌<◌, ◌≡◌, refl, ap, ap₂, ◌∙◌, Bool, true, false, Option, none, some,
  [], ◌∷◌, ◌++◌, Bytes, if◌then◌else◌, ◌==◌, ==_iff, leb, not, arith, all_below, all_below_lem,
  bit_and, bit_or,
}
use onelog.Prelude.Bits.{bit_and_mask}
use onelog.Utils.Base64.{digit, shl8}

-- The value of a digit, by the ranges of RFC 4648.
abbrev pub sextet : ℕ → ℕ
sextet c =
    if c == b'+'
    then 62
    else if c == b'/'
    then 63
    else if leb c b'9'
    then c + 52 - b'0'
    else if leb c b'Z'
    then c - b'A'
    else c + 26 - b'a'

abbrev pub behind : Bytes → Option Bytes → Option Bytes
behind s none = none
behind s (some t) = some (s ++ t)

-- Four digits give three bytes; a padding closes the text.
unfoldable pub decode_base64 : Bytes → Option Bytes
decode_base64 [] = some []
decode_base64 (w ∷ []) = none
decode_base64 (w ∷ x ∷ []) = none
decode_base64 (w ∷ x ∷ y ∷ []) = none
decode_base64 (w ∷ x ∷ y ∷ z ∷ s) =
    let rest = decode_base64 s in
    let first = sextet w * 4 + sextet x / 16 in
    let second = sextet x % 16 * 16 + sextet y / 4 in
    let third = sextet y % 4 * 64 + sextet z in
    if y == b'='
    then some (first ∷ [])
    else if z == b'='
    then some (first ∷ second ∷ [])
    else behind (first ∷ second ∷ third ∷ []) rest

false_of_not : (b : Bool) → not b ≡ true → b ≡ false
false_of_not true e = cc
false_of_not false e = refl

-- A digit has its index for a value, and is no padding.
digit_lem : (i : ℕ) → i < 64 → (sextet (digit i) ≡ i) × ((digit i == b'=') ≡ false)
digit_lem i h =
    let value = all_below_lem 64 (λ i. sextet (digit i) == i) i refl h in
    let text = all_below_lem 64 (λ i. not (digit i == b'=')) i refl h in
    ((==_iff _ i).0 value, false_of_not _ text)

-- `(x << k) | y` where the two share no bits.
or4 : (x y : ℕ) → x < 4 → y < 16 → bit_or (shl8 x 4) y ≡ x * 16 + y
or4 x y hx hy =
    let row =
      all_below_lem 4 (λ x. all_below 16 (λ y. bit_or (shl8 x 4) y == x * 16 + y)) x refl hx in
    (==_iff _ _).0 (all_below_lem 16 (λ y. bit_or (shl8 x 4) y == x * 16 + y) y row hy)

or2 : (x y : ℕ) → x < 16 → y < 4 → bit_or (shl8 x 2) y ≡ x * 4 + y
or2 x y hx hy =
    let row =
      all_below_lem 16 (λ x. all_below 4 (λ y. bit_or (shl8 x 2) y == x * 4 + y)) x refl hx in
    (==_iff _ _).0 (all_below_lem 4 (λ y. bit_or (shl8 x 2) y == x * 4 + y) y row hy)

-- The four indices of three bytes, by division.
pub index1 : (a : ℕ) → a < 256 → bit_and (a / 4) 63 ≡ a / 4
index1 a h = bit_and_mask 6 (a / 4) ∙ omega arith

pub index2 :
    (a b : ℕ) → b < 256 → bit_or (shl8 (bit_and a 3) 4) (bit_and (b / 16) 15) ≡ a % 4 * 16 + b / 16
index2 a b h =
    ap₂ (λ x y. bit_or (shl8 x 4) y) (bit_and_mask 2 a) (bit_and_mask 4 (b / 16) ∙ omega arith)
    ∙ or4 (a % 4) (b / 16) (omega arith) (omega arith)

pub index3 :
    (b c : ℕ) → c < 256 → bit_or (shl8 (bit_and b 15) 2) (bit_and (c / 64) 3) ≡ b % 16 * 4 + c / 64
index3 b c h =
    ap₂ (λ x y. bit_or (shl8 x 2) y) (bit_and_mask 4 b) (bit_and_mask 2 (c / 64) ∙ omega arith)
    ∙ or2 (b % 16) (c / 64) (omega arith) (omega arith)

pub index4 : (c : ℕ) → bit_and c 63 ≡ c % 64
index4 c = bit_and_mask 6 c

pub decode-four :
    (i j k l : ℕ) (s : Bytes)
    → i < 64
    → j < 64
    → k < 64
    → l < 64
    → decode_base64 (digit i ∷ digit j ∷ digit k ∷ digit l ∷ s)
      ≡ behind ((i * 4 + j / 16) ∷ (j % 16 * 16 + k / 4) ∷ (k % 4 * 64 + l) ∷ []) (decode_base64 s)
unfolding decode_base64
decode-four i j k l s hi hj hk hl =
    let (vi, _) = digit_lem i hi in
    let (vj, _) = digit_lem j hj in
    let (vk, nk) = digit_lem k hk in
    let (vl, nl) = digit_lem l hl in
    rw (nk, nl)
      (ap₂ (λ (a : ℕ) (bs : Bytes). behind (a ∷ bs) (decode_base64 s))
        (ap₂ (λ (a b : ℕ). a * 4 + b / 16) vi vj)
        (ap₂ (λ (a c : ℕ). a ∷ c ∷ []) (ap₂ (λ (a b : ℕ). a % 16 * 16 + b / 4) vj vk)
          (ap₂ (λ (a b : ℕ). a % 4 * 64 + b) vk vl)))

pub decode-three :
    (i j k : ℕ)
    → i < 64
    → j < 64
    → k < 64
    → decode_base64 (digit i ∷ digit j ∷ digit k ∷ b'=' ∷ [])
      ≡ some ((i * 4 + j / 16) ∷ (j % 16 * 16 + k / 4) ∷ [])
unfolding decode_base64
decode-three i j k hi hj hk =
    let (vi, _) = digit_lem i hi in
    let (vj, _) = digit_lem j hj in
    let (vk, nk) = digit_lem k hk in
    rw nk (
      ap₂ (λ (a c : ℕ). some (a ∷ c ∷ [])) (ap₂ (λ (a b : ℕ). a * 4 + b / 16) vi vj)
        (ap₂ (λ (a b : ℕ). a % 16 * 16 + b / 4) vj vk))

pub decode-two :
    (i j : ℕ)
    → i < 64
    → j < 64
    → decode_base64 (digit i ∷ digit j ∷ b'=' ∷ b'=' ∷ []) ≡ some ((i * 4 + j / 16) ∷ [])
unfolding decode_base64
decode-two i j hi hj =
    let (vi, _) = digit_lem i hi in
    let (vj, _) = digit_lem j hj in
    ap (λ (a : ℕ). some (a ∷ [])) (ap₂ (λ (a b : ℕ). a * 4 + b / 16) vi vj)
