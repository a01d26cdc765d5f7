-- ===== src/Formatter/Logfmt/Escape.antt =====
-- formatter_logfmt.go: what a reader of logfmt makes of an escaped text.
use onelog.Prelude.{
  ℕ, ◌≡◌, sym, ap, ◌∙◌, Bool, true, false, ◌||◌, Option, none, some, [], ◌∷◌, ◌++◌, append_assoc,
  Bytes, if◌then◌else◌, ◌==◌, ==_iff, Bool-cases, inl, inr, if_elim, arith,
}
use onelog.Utils.Escape.Loop.{escaped, loop_lem}
use onelog.Formatter.Logfmt.{logfmt_must, logfmt_code, write_escaped_logfmt_string}

abbrev emit : ℕ → Option (Bytes × Bytes) → Option (Bytes × Bytes)
emit c none = none
emit c (some (s, r)) = some (c ∷ s, r)

-- The text up to the first byte that ends a key or a value: a blank, a quote or `=`. The Boolean
-- says whether the last byte was a backslash.
pub read : Bool → Bytes → Option (Bytes × Bytes)
read escape [] = none
read false (c ∷ r) =
    let text = read false r in
    let code = read true r in
    if c == b'\\'
    then code
    else if c == b'"' || c == b' ' || c == b'='
    then some ([], c ∷ r)
    else emit c text
read true (c ∷ r) =
    let text = read false r in
    if c == b'n'
    then emit 10 text
    else if c == b'r'
    then emit 13 text
    else if c == b't'
    then emit 9 text
    else emit c text

read-logfmt_code :
    (c : ℕ) (r : Bytes)
    → logfmt_must c ≡ true
    → read true (logfmt_code c ++ r) ≡ emit c (read false r)
unfolding read
read-logfmt_code c r must =
    if_elim P (c == b'\\' || c == b'"' || c == b' ' || c == b'=') _ _ (λ e. ground arith)
      (λ n0.
        if_elim P (c == 10) _ _ (λ e. at 10 e)
          (λ n1. if_elim P (c == 13) _ _ (λ e. at 13 e) (λ n2. at 9 (ground arith))))
  where
    P : Bytes → Type 0
    P x = read true (x ++ r) ≡ emit c (read false r)

    at : (k : ℕ) → (c == k) ≡ true → emit k (read false r) ≡ emit c (read false r)
    at k e = ap (λ k. emit k (read false r)) (sym ((==_iff c k).0 e))

-- A byte that ends a key or a value.
abbrev pub is_end : ℕ → Bool
is_end c = c == b'"' || c == b' ' || c == b'='

read-escaped :
    (s : Bytes) (c : ℕ) (t : Bytes)
    → is_end c ≡ true
    → read false (escaped logfmt_must logfmt_code s ++ c ∷ t) ≡ some (s, c ∷ t)
unfolding read
read-escaped [] c t h = ground arith
read-escaped (x ∷ s) c t h =
    let Read = λ (b : Bool). read false (
      ((if b then b'\\' ∷ logfmt_code x else x ∷ []) ++ escaped logfmt_must logfmt_code s)
      ++ c ∷ t) in
    let rest = read-escaped s c t h in
    elim (Bool-cases (logfmt_must x)) [
      | inl yes_ ↦
          ap Read yes_
          ∙ ap (read true)
              (append_assoc (logfmt_code x) (escaped logfmt_must logfmt_code s) (c ∷ t))
          ∙ read-logfmt_code x _ yes_
          ∙ ap (emit x) rest
      | inr no_ ↦
          let kept : Read false ≡ emit x (read false (escaped logfmt_must logfmt_code s ++ c ∷ t)) =
            ground arith in
          ap Read no_ ∙ kept ∙ ap (emit x) rest
    ]

-- `writeEscapedLogfmtString` adds a body from which a reader of logfmt gets exactly the text, up to
-- the quote, the blank or the `=` that is written next.
pub write_escaped_logfmt_string-read :
    (buf s : Bytes)
    → (body : Bytes) × (write_escaped_logfmt_string buf s ≡ buf ++ body)
      × ((c : ℕ) (next : Bytes)
          → is_end c ≡ true
          → read false (body ++ c ∷ next) ≡ some (s, c ∷ next))
unfolding write_escaped_logfmt_string
write_escaped_logfmt_string-read buf s =
    (escaped logfmt_must logfmt_code s, loop_lem logfmt_must logfmt_code s buf, read-escaped s)
