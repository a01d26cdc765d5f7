-- ===== src/Utils/Base64.antt =====
-- utils.go: base64. Bytes are below 256.
pub mod Decode
pub mod Encode
use onelog.Prelude.{
  ℕ, ◌+◌, ◌-◌, ◌*◌, ◌/◌, ◌%◌, ◌^◌, ◌<◌, ◌≡◌, refl, sym, ap, ap₂, ◌∙◌, Bool, true, false, Option,
  none, some, [], ◌∷◌, ◌++◌, append-nil, append_assoc, Bytes, codes, get_or, if◌then◌else◌, ◌==◌,
  ==_iff, leb, not, length, All, arith, all_below, all_below_lem, bit_and, bit_or, add64, mul64,
  div64, div64_exact,
}
use onelog.Prelude.Bits.{bit_and_mask}

abbrev pub base64_encode_table : Bytes
base64_encode_table = codes "ABCDEFGHIJKLMNOPQRSTUVWXYZabcdefghijklmnopqrstuvwxyz0123456789+/"

abbrev pub digit : ℕ → ℕ
digit i = get_or base64_encode_table i 0

-- `x << k` of a byte.
abbrev pub shl8 : ℕ → ℕ → ℕ
shl8 x k = x * 2 ^ k % 256

unfoldable pub base64_encoded_len : ℕ → ℕ
base64_encoded_len n = mul64 (div64 (add64 n 2) 3) 4

unfoldable pub encode_base64 : Bytes → Bytes → Bytes
encode_base64 dst [] = dst
encode_base64 dst (a ∷ []) =
    dst ++ digit (bit_and (a / 4) 63) ∷ digit (shl8 (bit_and a 3) 4) ∷ b'=' ∷ b'=' ∷ []
encode_base64 dst (a ∷ b ∷ []) =
    dst
    ++ digit (bit_and (a / 4) 63)
      ∷ digit (bit_or (shl8 (bit_and a 3) 4) (bit_and (b / 16) 15))
      ∷ digit (shl8 (bit_and b 15) 2)
      ∷ b'='
      ∷ []
encode_base64 dst (a ∷ b ∷ c ∷ src) =
    encode_base64
      (dst
        ++ digit (bit_and (a / 4) 63)
          ∷ digit (bit_or (shl8 (bit_and a 3) 4) (bit_and (b / 16) 15))
          ∷ digit (bit_or (shl8 (bit_and b 15) 2) (bit_and (c / 64) 3))
          ∷ digit (bit_and c 63)
          ∷ [])
      src
