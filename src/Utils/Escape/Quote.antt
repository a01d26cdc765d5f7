-- ===== src/Utils/Escape/Quote.antt =====
-- utils.go: what `appendQuote`, `SafeString` and `writeEscapedStringOptimized` promise to a reader.
use native.Mathlib.Nat.{mod-lt}
use onelog.Prelude.{
  All-split, ℕ, ◌/◌, ◌%◌, ◌^◌, ◌≤◌, ◌<◌, ◌≡◌, ◌↔◌, ◌⊎◌, refl, sym, ap, subst, ◌∙◌, Bool, true,
  false, ◌&&◌, ◌||◌, [], ◌∷◌, ◌++◌, append_assoc, some, Bytes, get_or, if◌then◌else◌, ◌==◌, ltb,
  leb, length, take, All, All-append, arith, Bool-cases, inl, inr, if_elim, all_below_lem, lt64,
}
use onelog.Prelude.Bits.{bit_and_mask}
use onelog.Utils.Escape.{
  must_escape, in_table, escape_code, table_code, hex, write_escaped_string_optimized, Cache,
  append_escaped_string, append_quote, truncate_string, safe_string, string_needs_escaping,
}
use onelog.Utils.Escape.Loop.{
  escaped, escaped_clean, IsCorrect, append_escaped_string_lem, write_escaped_string_optimized_lem,
}
use onelog.Utils.Escape.Scan.{scan, plain, scan-escape, scan-table}

-- No control characters.
abbrev pub IsPrintable : Bytes → Type 0
IsPrintable s = All (λ (c : ℕ). 32 ≤ c) s

hex_digit-IsPrintable : (i : ℕ) → i < 16 → 32 ≤ get_or hex i 0
hex_digit-IsPrintable i h =
    let checked = all_below_lem 16 (λ i. leb 32 (get_or hex i 0)) i refl h in
    ground (arith, checked)

escape_code-IsPrintable : (c : ℕ) → must_escape c ≡ true → IsPrintable (escape_code c)
escape_code-IsPrintable c must =
    if_elim IsPrintable (c == b'\\' || c == b'"') _ _ (λ e. (ground arith, tt))
      (λ n0.
        if_elim IsPrintable (c == 10) _ _ (λ _. (omega arith, tt))
          (λ n1.
            if_elim IsPrintable (c == 13) _ _ (λ _. (omega arith, tt))
              (λ n2.
                if_elim IsPrintable (c == 9) _ _ (λ _. (omega arith, tt))
                  (λ n3.
                    if_elim IsPrintable (c == 8) _ _ (λ _. (omega arith, tt))
                      (λ n4.
                        if_elim IsPrintable (c == 12) _ _ (λ _. (omega arith, tt))
                          (λ n5. (
                            omega arith,
                            (
                              omega arith,
                              (
                                omega arith,
                                (
                                  hex_digit-IsPrintable (c / 16) (ground arith),
                                  (
                                    subst (λ i. 32 ≤ get_or hex i 0) (sym (bit_and_mask 4 c))
                                        (hex_digit-IsPrintable (c % 16) (mod-lt c (omega arith))),
                                    tt,
                                  ),
                                ),
                              ),
                            ),
                          )))))))

table_code-IsPrintable : (c : ℕ) → in_table c ≡ true → IsPrintable (table_code c)
table_code-IsPrintable c must =
    if_elim IsPrintable (c == b'"') _ _ (λ _. (omega arith, tt))
      (λ n0.
        if_elim IsPrintable (c == b'\\') _ _ (λ _. (omega arith, tt))
          (λ n1.
            if_elim IsPrintable (c == 10) _ _ (λ _. (omega arith, tt))
              (λ n2.
                if_elim IsPrintable (c == 13) _ _ (λ _. (omega arith, tt))
                  (λ n3.
                    if_elim IsPrintable (c == 9) _ _ (λ _. (omega arith, tt))
                      (λ n4.
                        if_elim IsPrintable (c == 8) _ _ (λ _. (omega arith, tt))
                          (λ n5.
                            if_elim IsPrintable (c == 12) _ _ (λ _. (omega arith, tt))
                              (λ n6. absurd (ground arith))))))))

escaped-IsPrintable : (s : Bytes) → IsPrintable (escaped must_escape escape_code s)
escaped-IsPrintable [] = tt
escaped-IsPrintable (c ∷ s) =
    All-append (λ (c : ℕ). 32 ≤ c) _ (escaped must_escape escape_code s)
      (if_elim IsPrintable (must_escape c) _ _
        (λ must. (omega arith, escape_code-IsPrintable c must)) (λ clean. (ground arith, tt)))
      (escaped-IsPrintable s)

-- Where the cache is right, `appendQuote` adds the opening quote and a body without control
-- characters, from which a JSON reader gets exactly the text and, behind the closing quote, what is
-- written next; the cache stays right.
pub append_quote_lem :
    (m : Cache) (dst s : Bytes)
    → IsCorrect m
    → let (m', out) = append_quote m dst s in
      IsCorrect m'
      × ((body : Bytes) × (out ≡ dst ++ b'"' ∷ body)
          × IsPrintable body
          × ((next : Bytes) → scan plain (body ++ next) ≡ some (s, next)))
unfolding append_quote
append_quote_lem m dst s h =
    let (correct, e) = append_escaped_string_lem m (dst ++ b'"' ∷ []) s h in
    let text = escaped must_escape escape_code s in
    (
      correct,
      (
        text ++ b'"' ∷ [],
        ap (λ (t : Bytes). t ++ b'"' ∷ []) (e ∙ append_assoc dst (b'"' ∷ []) text)
            ∙ append_assoc dst (b'"' ∷ text) (b'"' ∷ []),
        All-append (λ (c : ℕ). 32 ≤ c) text (b'"' ∷ []) (escaped-IsPrintable s) (omega arith, tt),
        (λ next. ap (scan plain) (append_assoc text (b'"' ∷ []) next) ∙ scan-escape s next),
      ),
    )

-- The last step of `SafeString` on what it has cut.
abbrev safe_cut : Cache → Bytes → Cache × Bytes
safe_cut m cut = if string_needs_escaping cut then append_escaped_string m [] cut else (m, cut)

safe_cut_lem :
    (m : Cache) (cut : Bytes)
    → IsCorrect m
    → IsCorrect (safe_cut m cut).0 × ((safe_cut m cut).1 ≡ escaped must_escape escape_code cut)
safe_cut_lem m cut h =
    if_elim (λ (r : Cache × Bytes). IsCorrect r.0 × (r.1 ≡ escaped must_escape escape_code cut))
      (string_needs_escaping cut) _ _ (λ _. append_escaped_string_lem m [] cut h)
      (λ clean. (h, sym (escaped_clean cut clean)))

cut_eq :
    (s : Bytes) (limit : ℕ)
    → limit < 2 ^ 64
    → (if lt64 0 limit && ltb limit (length s) then take limit s else s) ≡ truncate_string s limit
unfolding truncate_string
cut_eq s limit small = ground arith

-- Where the cache is right, `SafeString` returns a text without control characters from which a
-- JSON reader gets what `truncateString` leaves of the text at the same limit; the cache stays
-- right.
pub safe_string_lem :
    (m : Cache) (s : Bytes) (limit : ℕ)
    → IsCorrect m
    → limit < 2 ^ 64
    → let (m', out) = safe_string m s limit in
      IsCorrect m'
      × IsPrintable out
      × ((next : Bytes) → scan plain (out ++ b'"' ∷ next) ≡ some (truncate_string s limit, next))
unfolding safe_string
safe_string_lem m s limit h small =
    let cut = if lt64 0 limit && ltb limit (length s) then take limit s else s in
    let (correct, e) = safe_cut_lem m cut h in
    (
      correct,
      subst IsPrintable (sym e) (escaped-IsPrintable cut),
      (λ next.
          ap (λ (t : Bytes). scan plain (t ++ b'"' ∷ next)) e
          ∙ scan-escape cut next
          ∙ ap (λ (t : Bytes). some (t, next)) (cut_eq s limit small)),
    )

pub escaped-IsPrintable_iff :
    (s : Bytes)
    → IsPrintable (escaped in_table table_code s)
      ↔ All (λ (c : ℕ). (32 ≤ c) ⊎ (in_table c ≡ true)) s
escaped-IsPrintable_iff [] = ((λ _. tt), (λ _. tt))
escaped-IsPrintable_iff (c ∷ s) =
    let (to, from) = escaped-IsPrintable_iff s in
    (
      (λ h.
          let (this, others) = All-split (λ (c : ℕ). 32 ≤ c) _ (escaped in_table table_code s) h in
          (seen this, to others)),
      (λ (this, others).
          All-append (λ (c : ℕ). 32 ≤ c) _ (escaped in_table table_code s) (shown this)
            (from others)),
    )
  where
    true_false : ¬ (true ≡ false)
    true_false e = cc

    Shown : Type 0
    Shown = IsPrintable (if in_table c then b'\\' ∷ table_code c else c ∷ [])

    seen : Shown → (32 ≤ c) ⊎ (in_table c ≡ true)
    seen h = elim (Bool-cases (in_table c)) [
      | inl yes_ ↦ inr yes_
      | inr no_ ↦
          inl
            (subst (λ (b : Bool). IsPrintable (if b then b'\\' ∷ table_code c else c ∷ [])) no_ h).0
    ]

    shown : (32 ≤ c) ⊎ (in_table c ≡ true) → Shown
    shown h =
        if_elim IsPrintable (in_table c) _ _ (λ must. (omega arith, table_code-IsPrintable c must))
          (λ clean. (elim h [ inl p ↦ p | inr e ↦ absurd (true_false (sym e ∙ clean)) ], tt))

-- `writeEscapedStringOptimized` adds a body from which a JSON reader that takes control characters
-- gets exactly the text up to the next quote, and the body is free of control characters exactly
-- if the text has none but those in `jsonEscapeTable`.
pub write_escaped_string_optimized-scan :
    (dst s : Bytes)
    → (body : Bytes) × (write_escaped_string_optimized dst s ≡ dst ++ body)
      × ((next : Bytes) → scan plain (body ++ b'"' ∷ next) ≡ some (s, next))
      × (IsPrintable body ↔ All (λ (c : ℕ). (32 ≤ c) ⊎ (in_table c ≡ true)) s)
write_escaped_string_optimized-scan dst s = (
  escaped in_table table_code s,
  write_escaped_string_optimized_lem dst s,
  scan-table s,
  escaped-IsPrintable_iff s,
)
