-- ===== src/Utils/Escape/Scan.antt =====
-- utils.go: what a reader of JSON makes of an escaped text.
use onelog.Prelude.{
  ℕ, zero, suc, ◌+◌, ◌-◌, ◌*◌, ◌/◌, ◌<◌, ◌≡◌, refl, sym, ap, ◌∙◌, Bool, true, false, ◌&&◌, ◌||◌,
  Option, none, some, [], ◌∷◌, ◌++◌, append_assoc, Bytes, codes, bit_and, get_or, if◌then◌else◌,
  ◌==◌, ==_iff, ltb, leb, arith, Bool-cases, inl, inr, if_elim, all_below_lem,
}
use onelog.Utils.Escape.{must_escape, in_table, escape_code, table_code, hex}
use onelog.Utils.Escape.Loop.{escaped}

-- Where a reader of a JSON string stands: in plain text, behind a backslash, or before the last of
-- some hexadecimal digits, with the value of those before it.
pub data Mode : Type 0 where
  plain : Mode
  backslash : Mode
  digits : ℕ → ℕ → Mode

abbrev is_hex : ℕ → Bool
is_hex c = (leb b'0' c && leb c b'9') || (leb b'a' c && leb c b'f')

abbrev hex_value : ℕ → ℕ
hex_value c = if leb b'a' c then c - 87 else c - 48

abbrev emit : ℕ → Option (Bytes × Bytes) → Option (Bytes × Bytes)
emit c none = none
emit c (some (s, r)) = some (c ∷ s, r)

-- The text up to the closing quote, and what is left behind it.
pub scan : Mode → Bytes → Option (Bytes × Bytes)
scan mode [] = none
scan plain (c ∷ r) =
    let text = scan plain r in
    let code = scan backslash r in
    if c == b'"' then some ([], r) else if c == b'\\' then code else emit c text
scan backslash (c ∷ r) =
    let text = scan plain r in
    let unicode = scan (digits 3 0) r in
    if c == b'u'
    then unicode
    else if c == b'n'
    then emit 10 text
    else if c == b'r'
    then emit 13 text
    else if c == b't'
    then emit 9 text
    else if c == b'b'
    then emit 8 text
    else if c == b'f'
    then emit 12 text
    else if c == b'"' || c == b'\\' || c == b'/'
    then emit c text
    else none
scan (digits zero v) (c ∷ r) =
    let text = scan plain r in
    let value = 16 * v + hex_value c in
    if is_hex c then (if ltb value 128 then emit value text else none) else none
scan (digits (suc k) v) (c ∷ r) =
    let more = scan (digits k (16 * v + hex_value c)) r in if is_hex c then more else none

-- The two digits of a control character.
abbrev are_digits : ℕ → Bool
are_digits c =
    let high = get_or hex (c / 16) 0 in
    let low = get_or hex (bit_and c 15) 0 in
    is_hex high && is_hex low && 16 * hex_value high + hex_value low == c

and_split : (a b : Bool) → a && b ≡ true → (a ≡ true) × (b ≡ true)
and_split true b e = (refl, e)
and_split false b e = cc

scan-digits :
    (c : ℕ) (r : Bytes)
    → c < 32
    → scan backslash (codes "u00" ++ get_or hex (c / 16) 0 ∷ get_or hex (bit_and c 15) 0 ∷ r)
      ≡ emit c (scan plain r)
unfolding scan
scan-digits c r h =
    let checked = all_below_lem 32 are_digits c refl h in
    let high = get_or hex (c / 16) 0 in
    let low = get_or hex (bit_and c 15) 0 in
    let value = 16 * hex_value high + hex_value low in
    let (hex_digits, number) = and_split (is_hex high && is_hex low) (value == c) checked in
    let (high_hex, low_hex) = and_split (is_hex high) (is_hex low) hex_digits in
    let value_eq = (==_iff value c).0 number in
    let read = λ (v : ℕ). if ltb v 128 then emit v (scan plain r) else none in
    let small : ltb c 128 ≡ true = ground arith in
    rw (high_hex, low_hex)
      (ap (λ v. read (v + hex_value low)) {x = 16 * (0 + hex_value high)} {y = 16 * hex_value high}
          (omega arith)
        ∙ ap read value_eq
        ∙ rw small refl)

scan-escape_code :
    (c : ℕ) (r : Bytes)
    → must_escape c ≡ true
    → scan backslash (escape_code c ++ r) ≡ emit c (scan plain r)
unfolding scan
scan-escape_code c r must =
    if_elim P (c == b'\\' || c == b'"') _ _ (λ e. ground arith)
      (λ n0.
        if_elim P (c == 10) _ _ (λ e. at 10 e)
          (λ n1.
            if_elim P (c == 13) _ _ (λ e. at 13 e)
              (λ n2.
                if_elim P (c == 9) _ _ (λ e. at 9 e)
                  (λ n3.
                    if_elim P (c == 8) _ _ (λ e. at 8 e)
                      (λ n4.
                        if_elim P (c == 12) _ _ (λ e. at 12 e)
                          (λ n5. scan-digits c r (ground arith)))))))
  where
    P : Bytes → Type 0
    P x = scan backslash (x ++ r) ≡ emit c (scan plain r)

    at : (k : ℕ) → (c == k) ≡ true → emit k (scan plain r) ≡ emit c (scan plain r)
    at k e = ap (λ k. emit k (scan plain r)) (sym ((==_iff c k).0 e))

scan-table_code :
    (c : ℕ) (r : Bytes)
    → in_table c ≡ true
    → scan backslash (table_code c ++ r) ≡ emit c (scan plain r)
unfolding scan
scan-table_code c r must =
    if_elim P (c == b'"') _ _ (λ e. at b'"' e)
      (λ n0.
        if_elim P (c == b'\\') _ _ (λ e. at b'\\' e)
          (λ n1.
            if_elim P (c == 10) _ _ (λ e. at 10 e)
              (λ n2.
                if_elim P (c == 13) _ _ (λ e. at 13 e)
                  (λ n3.
                    if_elim P (c == 9) _ _ (λ e. at 9 e)
                      (λ n4.
                        if_elim P (c == 8) _ _ (λ e. at 8 e)
                          (λ n5.
                            if_elim P (c == 12) _ _ (λ e. at 12 e)
                              (λ n6. absurd (ground arith))))))))
  where
    P : Bytes → Type 0
    P x = scan backslash (x ++ r) ≡ emit c (scan plain r)

    at : (k : ℕ) → (c == k) ≡ true → emit k (scan plain r) ≡ emit c (scan plain r)
    at k e = ap (λ k. emit k (scan plain r)) (sym ((==_iff c k).0 e))

-- An escape that leaves quotes and backslashes to its codes, which are read back.
scan-escaped :
    (must : ℕ → Bool) (code : ℕ → Bytes)
    → ((c : ℕ) (r : Bytes) → must c ≡ true → scan backslash (code c ++ r) ≡ emit c (scan plain r))
    → ((c : ℕ) → must c ≡ false → ((c == b'"') ≡ false) × ((c == b'\\') ≡ false))
    → (s t : Bytes) → scan plain (escaped must code s ++ b'"' ∷ t) ≡ some (s, t)
unfolding scan
scan-escaped must code read clean [] t = refl
scan-escaped must code read clean (c ∷ s) t =
    let behind = escaped must code s ++ b'"' ∷ t in
    let rest = scan-escaped must code read clean s t in
    elim (Bool-cases (must c)) [
      | inl yes_ ↦
          ap
            (λ (b : Bool).
              scan plain
                (((if b then b'\\' ∷ code c else c ∷ []) ++ escaped must code s) ++ b'"' ∷ t))
            yes_
          ∙ ap (scan backslash) (append_assoc (code c) (escaped must code s) (b'"' ∷ t))
          ∙ read c behind yes_
          ∙ ap (emit c) rest
      | inr no_ ↦
          let (no_quote, no_backslash) = clean c no_ in
          ap
            (λ (b : Bool).
              scan plain
                (((if b then b'\\' ∷ code c else c ∷ []) ++ escaped must code s) ++ b'"' ∷ t))
            no_
          ∙ rw (no_quote, no_backslash) (ap (emit c) rest)
    ]

pub scan-escape :
    (s t : Bytes) → scan plain (escaped must_escape escape_code s ++ b'"' ∷ t) ≡ some (s, t)
scan-escape =
    scan-escaped must_escape escape_code scan-escape_code (λ c e. (ground arith, ground arith))

pub scan-table :
    (s t : Bytes) → scan plain (escaped in_table table_code s ++ b'"' ∷ t) ≡ some (s, t)
scan-table = scan-escaped in_table table_code scan-table_code (λ c e. (ground arith, ground arith))
