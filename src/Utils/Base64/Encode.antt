-- ===== src/Utils/Base64/Encode.antt =====
-- utils.go: what the loop of base64 writes is decoded to its source.
use onelog.Prelude.{
  ℕ, ◌+◌, ◌*◌, ◌/◌, ◌%◌, ◌^◌, ◌<◌, ◌≡◌, refl, sym, ap, ap₂, ◌∙◌, some, [], ◌∷◌, ◌++◌, append-nil,
  append_assoc, Bytes, length, All, arith, add64, mul64, div64, div64_exact,
}
use onelog.Prelude.Bits.{bit_and_mask}
use onelog.Utils.Base64.{digit, shl8, base64_encoded_len, encode_base64}
use onelog.Utils.Base64.Decode.{
  decode_base64, behind, index1, index2, index3, index4, decode-four, decode-three, decode-two,
}

-- What is in the buffer stays.
pub encode_base64-append : (src dst : Bytes) → encode_base64 dst src ≡ dst ++ encode_base64 [] src
unfolding encode_base64
encode_base64-append [] dst = sym (append-nil dst)
encode_base64-append (a ∷ []) dst = refl
encode_base64-append (a ∷ b ∷ []) dst = refl
encode_base64-append (a ∷ b ∷ c ∷ src) dst =
    encode_base64-append src _
    ∙ append_assoc dst _ (encode_base64 [] src)
    ∙ ap (◌++◌ dst) (sym (encode_base64-append src _))

-- The text that the loop adds.
encoded : Bytes → Bytes
encoded [] = []
encoded (a ∷ []) = digit (a / 4) ∷ digit (a % 4 * 16) ∷ b'=' ∷ b'=' ∷ []
encoded (a ∷ b ∷ []) = digit (a / 4) ∷ digit (a % 4 * 16 + b / 16) ∷ digit (b % 16 * 4) ∷ b'=' ∷ []
encoded (a ∷ b ∷ c ∷ src) =
    digit (a / 4)
    ∷ digit (a % 4 * 16 + b / 16)
    ∷ digit (b % 16 * 4 + c / 64)
    ∷ digit (c % 64)
    ∷ encoded src

encode_base64-encoded :
    (src dst : Bytes) → All (λ (c : ℕ). c < 256) src → encode_base64 dst src ≡ dst ++ encoded src
unfolding encode_base64 encoded
encode_base64-encoded [] dst h = sym (append-nil dst)
encode_base64-encoded (a ∷ []) dst (ha, _) =
    ap₂ (λ i j. dst ++ digit i ∷ digit j ∷ b'=' ∷ b'=' ∷ []) {v = a % 4 * 16} (index1 a ha)
      (ap (λ x. shl8 x 4) (bit_and_mask 2 a) ∙ omega arith)
encode_base64-encoded (a ∷ b ∷ []) dst (ha, (hb, _)) =
    ap₂ (λ i (js : Bytes). dst ++ digit i ∷ js) (index1 a ha)
      (ap₂ (λ j k. digit j ∷ digit k ∷ b'=' ∷ []) {v = b % 16 * 4} (index2 a b hb)
        (ap (λ x. shl8 x 2) (bit_and_mask 4 b) ∙ omega arith))
encode_base64-encoded (a ∷ b ∷ c ∷ src) dst (ha, (hb, (hc, h))) =
    ap (λ d. encode_base64 (dst ++ d) src)
      (ap₂ (λ i (js : Bytes). digit i ∷ js) (index1 a ha)
        (ap₂ (λ j (ks : Bytes). digit j ∷ ks) (index2 a b hb)
          (ap₂ (λ k l. digit k ∷ digit l ∷ []) (index3 b c hc) (index4 c))))
    ∙ encode_base64-encoded src _ h
    ∙ append_assoc dst
        (digit (a / 4)
          ∷ digit (a % 4 * 16 + b / 16)
          ∷ digit (b % 16 * 4 + c / 64)
          ∷ digit (c % 64)
          ∷ [])
        (encoded src)

length-encoded : (src : Bytes) → length (encoded src) ≡ (length src + 2) / 3 * 4
unfolding encoded
length-encoded [] = refl
length-encoded (a ∷ []) = refl
length-encoded (a ∷ b ∷ []) = refl
length-encoded (a ∷ b ∷ c ∷ src) = omega (arith, length-encoded src)

decode_base64-encoded :
    (src : Bytes) → All (λ (c : ℕ). c < 256) src → decode_base64 (encoded src) ≡ some src
unfolding encoded decode_base64
decode_base64-encoded [] h = refl
decode_base64-encoded (a ∷ []) (ha, _) =
    decode-two (a / 4) (a % 4 * 16) (omega arith) (omega arith)
    ∙ ap (λ (x : ℕ). some (x ∷ [])) (omega arith)
decode_base64-encoded (a ∷ b ∷ []) (ha, (hb, _)) =
    decode-three (a / 4) (a % 4 * 16 + b / 16) (b % 16 * 4) (omega arith) (omega arith)
      (omega arith)
    ∙ ap₂ (λ (x y : ℕ). some (x ∷ y ∷ [])) (omega arith) (omega arith)
decode_base64-encoded (a ∷ b ∷ c ∷ src) (ha, (hb, (hc, h))) =
    decode-four (a / 4) (a % 4 * 16 + b / 16) (b % 16 * 4 + c / 64) (c % 64) (encoded src)
      (omega arith) (omega arith) (omega arith) (omega arith)
    ∙ ap
        (behind (
          (a / 4 * 4 + (a % 4 * 16 + b / 16) / 16)
          ∷ ((a % 4 * 16 + b / 16) % 16 * 16 + (b % 16 * 4 + c / 64) / 4)
          ∷ ((b % 16 * 4 + c / 64) % 4 * 64 + c % 64)
          ∷ []))
        (decode_base64-encoded src h)
    ∙ same (omega arith) (omega arith) (omega arith)
  where
    same : {x y z : ℕ} → x ≡ a → y ≡ b → z ≡ c → some (x ∷ y ∷ z ∷ src) ≡ some (a ∷ b ∷ c ∷ src)
    same p q r = ap₂ (λ (x : ℕ) (ys : Bytes). some (x ∷ ys)) p (ap₂ (λ (y z : ℕ). y ∷ z ∷ src) q r)

-- `encodeBase64` adds a text of `base64EncodedLen` bytes that is decoded to the source, for every
-- source of bytes whose length is below 2 ^ 61.
pub encode_base64_lem :
    (dst src : Bytes)
    → All (λ (c : ℕ). c < 256) src
    → length src < 2 ^ 61
    → (text : Bytes) × (encode_base64 dst src ≡ dst ++ text)
      × (length text ≡ base64_encoded_len (length src))
      × (decode_base64 text ≡ some src)
unfolding base64_encoded_len
encode_base64_lem dst src h small =
    let n = length src in
    let plus : add64 n 2 ≡ n + 2 = omega arith in
    (
      encoded src,
      encode_base64-encoded src dst h,
      length-encoded src
          ∙ sym (
              ap (λ m. mul64 (div64 m 3) 4) plus
              ∙ ap (λ m. mul64 m 4) (div64_exact (n + 2) 3 (omega arith) (omega arith))
              ∙ omega arith),
      decode_base64-encoded src h,
    )
