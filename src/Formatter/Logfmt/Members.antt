-- ===== src/Formatter/Logfmt/Members.antt =====
-- formatter_logfmt.go: each step adds its member behind a blank, if any stands before it.
use onelog.Prelude.{
  ◌<◌, ◌≡◌, sym, ap, ◌∙◌, subst, Bool, true, false, Option, none, some, List, [], ◌∷◌, ◌++◌,
  append_assoc, append-nil, Bytes, if◌then◌else◌, ◌==◌, length, length-append, All, All-append, map,
  arith,
}
use onelog.Field.{Field, Entry, CallerInfo}
use onelog.Level.{level_string}
use onelog.Utils.Escape.Loop.{escaped}
use onelog.Formatter.{Printers}
use onelog.Formatter.Logfmt.{
  LogfmtFormatter, logfmt_must, logfmt_code, quote_mark, blank_before, format_field_value,
  logfmt_level, logfmt_message, logfmt_caller, logfmt_fields,
}
use onelog.Formatter.Logfmt.Append.{write_escaped_logfmt_string_lem, format_field_value-append}

abbrev pub behind_blank : List Bytes → Bytes
behind_blank [] = []
behind_blank (m ∷ ms) = b' ' ∷ (m ++ behind_blank ms)

-- The members with a blank between any two.
abbrev pub spaced : List Bytes → Bytes
spaced [] = []
spaced (m ∷ ms) = m ++ behind_blank ms

abbrev pub IsLine : List Bytes → Bytes → Type 0
IsLine ms buf = (buf ≡ spaced ms) × All (λ (m : Bytes). 0 < length m) ms

behind_blank-append :
    (ms : List Bytes) (m : Bytes) → behind_blank (ms ++ m ∷ []) ≡ behind_blank ms ++ b' ' ∷ m
behind_blank-append [] m = ap (◌∷◌ b' ') (append-nil m)
behind_blank-append (n ∷ ms) m =
    ap (λ t. b' ' ∷ (n ++ t)) (behind_blank-append ms m)
    ∙ ap (◌∷◌ b' ') (sym (append_assoc n (behind_blank ms) (b' ' ∷ m)))

spaced-append :
    (ms : List Bytes) (m : Bytes)
    → All (λ (m : Bytes). 0 < length m) ms
    → blank_before (spaced ms) ++ m ≡ spaced (ms ++ m ∷ [])
spaced-append [] m h = sym (append-nil m)
spaced-append (n ∷ ms) m (pos, _) =
    let filled : (0 == length (n ++ behind_blank ms)) ≡ false =
      ground (arith, length-append n (behind_blank ms)) in
    ap
      (λ (b : Bool). (if b then n ++ behind_blank ms else (n ++ behind_blank ms) ++ b' ' ∷ []) ++ m)
      filled
    ∙ append_assoc (n ++ behind_blank ms) (b' ' ∷ []) m
    ∙ append_assoc n (behind_blank ms) (b' ' ∷ m)
    ∙ ap (◌++◌ n) (sym (behind_blank-append ms m))

IsLine-append :
    (ms : List Bytes) (buf k x out : Bytes)
    → IsLine ms buf
    → out ≡ blank_before buf ++ (k ++ b'=' ∷ x)
    → IsLine (ms ++ (k ++ b'=' ∷ x) ∷ []) out
IsLine-append ms buf k x out (h, pos) e = (
  e
      ∙ ap (λ (b : Bytes). blank_before b ++ (k ++ b'=' ∷ x)) h
      ∙ spaced-append ms (k ++ b'=' ∷ x) pos,
  All-append (λ (m : Bytes). 0 < length m) ms ((k ++ b'=' ∷ x) ∷ []) pos
      (omega (arith, length-append k (b'=' ∷ x)), tt),
)

pub unchanged : (ms : List Bytes) (buf : Bytes) → IsLine ms buf → IsLine (ms ++ []) buf
unchanged ms buf h = subst (λ ns. IsLine ns buf) (sym (append-nil ms)) h

-- Nothing is added, or one member is, as the test says.
IsLine-optional :
    (ms : List Bytes) (buf : Bytes) (t : Bool) (k x out : Bytes)
    → IsLine ms buf
    → out ≡ blank_before buf ++ (k ++ b'=' ∷ x)
    → IsLine (ms ++ (if t then [] else (k ++ b'=' ∷ x) ∷ [])) (if t then buf else out)
IsLine-optional ms buf true k x out h e = unchanged ms buf h
IsLine-optional ms buf false k x out h e = IsLine-append ms buf k x out h e

module _ (p : Printers) (sort_by_key : List Field → List Field) (l : LogfmtFormatter) where
  -- A value between the quotes that the formatter writes.
  abbrev pub in_quotes : Bytes → Bytes
  in_quotes s = quote_mark l ++ (s ++ quote_mark l)

  abbrev pub text_of : Bytes → Bytes
  text_of s = escaped logfmt_must logfmt_code s

  abbrev pub head_members : Entry → List Bytes
  head_members e =
      (if l.options.no_level
        then []
        else (l.options.level_key ++ b'=' ∷ in_quotes (level_string p.append_uint e.level)) ∷ [])
      ++ (if 0 == length e.message
          then []
          else (l.options.message_key ++ b'=' ∷ in_quotes (text_of e.message)) ∷ [])

  abbrev pub caller_members : Option CallerInfo → List Bytes
  caller_members none = []
  caller_members (some c) =
      (l.options.caller_key ++ b'=' ∷ in_quotes (text_of c.file ++ b':' ∷ p.append_int c.line)) ∷ []

  abbrev pub field_member : (Bytes → Bytes) → Field → Bytes
  field_member convert f = text_of (convert f.key) ++ b'=' ∷ format_field_value p sort_by_key l [] f

  pub head-IsLine :
      (e : Entry) (ms : List Bytes) (buf : Bytes)
      → IsLine ms buf
      → IsLine
          (ms ++ head_members e)
          (logfmt_message p sort_by_key l e.message (logfmt_level p sort_by_key l e.level buf))
  head-IsLine e ms buf h =
      subst
        (λ ns.
          IsLine ns
            (logfmt_message p sort_by_key l e.message (logfmt_level p sort_by_key l e.level buf)))
        (append_assoc ms _ _)
        (IsLine-optional _ _ (0 == length e.message) _ _ _
          (IsLine-optional ms buf l.options.no_level _ _ _ h (simp append_assoc))
          (simp (write_escaped_logfmt_string_lem, append_assoc)))

  pub caller-IsLine :
      (ms : List Bytes) (c : Option CallerInfo) (buf : Bytes)
      → IsLine ms buf
      → IsLine (ms ++ caller_members c) (logfmt_caller p sort_by_key l c buf)
  caller-IsLine ms none buf h = unchanged ms buf h
  caller-IsLine ms (some c) buf h =
      IsLine-append ms buf _ _ _ h (simp (write_escaped_logfmt_string_lem, append_assoc))

  pub logfmt_fields-IsLine :
      (convert : Bytes → Bytes) (fs : List Field) (ms : List Bytes) (buf : Bytes)
      → IsLine ms buf
      → IsLine (ms ++ map (field_member convert) fs) (logfmt_fields p sort_by_key l convert fs buf)
  unfolding logfmt_fields
  logfmt_fields-IsLine convert [] ms buf h = unchanged ms buf h
  logfmt_fields-IsLine convert (f ∷ fs) ms buf h =
      subst (λ ns. IsLine ns (logfmt_fields p sort_by_key l convert (f ∷ fs) buf))
        (append_assoc ms (field_member convert f ∷ []) _)
        (logfmt_fields-IsLine convert fs (ms ++ field_member convert f ∷ []) _ (
          IsLine-append ms buf (text_of (convert f.key)) (format_field_value p sort_by_key l [] f) _
            h
            (format_field_value-append p sort_by_key l _ f
              ∙ simp (write_escaped_logfmt_string_lem, append_assoc))))
