-- ===== src/Formatter/Json/Members.antt =====
-- formatter_json.go: each step adds its member behind the right separator.
use onelog.Prelude.{
  ◌≡◌, refl, sym, ap, ap₂, ◌∙◌, Bool, true, false, Option, none, some, List, [], ◌∷◌, ◌++◌,
  append-nil, append_assoc, Bytes, codes, if◌then◌else◌, map, Bool-cases, inl, inr, ◌==◌, ltb,
  length, subst,
}
use onelog.Field.{Field, Entry, CallerInfo}
use onelog.Level.{level_string, disabled}
use onelog.Utils.Escape.{in_table, table_code}
use onelog.Utils.Escape.Loop.{escaped, write_escaped_string_optimized_lem}
use onelog.Formatter.{Printers, FormatterOptions}
use onelog.Formatter.Json.{
  format_json_field_value, comma, json_fields, json_level, json_message, json_caller,
}
use onelog.Formatter.Json.Append.{format_json_field_value-append}

-- A text between quotes, escaped.
abbrev pub string_of : Bytes → Bytes
string_of s = b'"' ∷ escaped in_table table_code s ++ b'"' ∷ []

abbrev pub behind_comma : List Bytes → Bytes
behind_comma [] = []
behind_comma (m ∷ ms) = b',' ∷ (m ++ behind_comma ms)

-- The members with a comma between any two.
abbrev pub joined : List Bytes → Bytes
joined [] = []
joined (m ∷ ms) = m ++ behind_comma ms

abbrev is_open : List Bytes → Bool
is_open [] = false
is_open (m ∷ ms) = true

-- The buffer and `needComma` behind some members.
abbrev pub IsAfter : List Bytes → Bytes × Bool → Type 0
IsAfter ms out = (out.0 ≡ b'{' ∷ joined ms) × (out.1 ≡ is_open ms)

behind_comma-append :
    (ms : List Bytes) (m : Bytes) → behind_comma (ms ++ m ∷ []) ≡ behind_comma ms ++ b',' ∷ m
behind_comma-append [] m = ap (◌∷◌ b',') (append-nil m)
behind_comma-append (n ∷ ms) m =
    ap (λ t. b',' ∷ (n ++ t)) (behind_comma-append ms m)
    ∙ ap (◌∷◌ b',') (sym (append_assoc n (behind_comma ms) (b',' ∷ m)))

IsAfter-append :
    (ms : List Bytes) (out : Bytes × Bool) (m buf : Bytes)
    → IsAfter ms out
    → buf ≡ comma out ++ m
    → IsAfter (ms ++ m ∷ []) (buf, true)
IsAfter-append [] (start, open_) m buf (h, k) e = (
  e ∙ ap₂ (λ t b. (if b then t ++ b',' ∷ [] else t) ++ m) h k ∙ ap (◌∷◌ b'{') (sym (append-nil m)),
  refl,
)
IsAfter-append (n ∷ ms) (start, open_) m buf (h, k) e = (
  e
      ∙ ap₂ (λ t b. (if b then t ++ b',' ∷ [] else t) ++ m) h k
      ∙ append_assoc (b'{' ∷ (n ++ behind_comma ms)) (b',' ∷ []) m
      ∙ ap (◌∷◌ b'{') (
          append_assoc n (behind_comma ms) (b',' ∷ m)
          ∙ ap (◌++◌ n) (sym (behind_comma-append ms m))),
  refl,
)

pub unchanged : (ms : List Bytes) (out : Bytes × Bool) → IsAfter ms out → IsAfter (ms ++ []) out
unchanged ms out h = subst (λ ns. IsAfter ns out) (sym (append-nil ms)) h

-- Nothing is added, or one member is, as the test says.
IsAfter-optional :
    (ms : List Bytes) (out : Bytes × Bool) (t : Bool) (m buf : Bytes)
    → IsAfter ms out
    → buf ≡ comma out ++ m
    → IsAfter (ms ++ (if t then [] else m ∷ [])) (if t then out else (buf, true))
IsAfter-optional ms out true m buf h e = unchanged ms out h
IsAfter-optional ms out false m buf h e = IsAfter-append ms out m buf h e

module _ (p : Printers) (o : FormatterOptions) where
  abbrev pub level_members : Entry → List Bytes
  level_members e =
      if o.no_level
      then []
      else if ltb e.level disabled
      then (codes "\""
          ++ (o.level_key ++ (codes "\":\"" ++ (level_string p.append_uint e.level ++ codes "\""))))
        ∷ []
      else []

  abbrev pub message_members : Entry → List Bytes
  message_members e =
      if 0 == length e.message
      then []
      else (codes "\"" ++ (o.message_key ++ (codes "\":" ++ string_of e.message))) ∷ []

  abbrev pub caller_members : Option CallerInfo → List Bytes
  caller_members none = []
  caller_members (some c) =
      (codes "\""
        ++ (o.caller_key
            ++ (codes "\":{\"file\":"
                ++ (string_of c.file
                    ++ (codes ",\"line\":"
                        ++ (p.append_int c.line
                            ++ (codes ",\"function\":" ++ (string_of c.function ++ codes "}"))))))))
      ∷ []

  abbrev pub field_member : (Bytes → Bytes) → Field → Bytes
  field_member convert f = string_of (convert f.key) ++ b':' ∷ format_json_field_value p [] f o

  pub json_message-IsAfter :
      (ms : List Bytes) (e : Entry) (out : Bytes × Bool)
      → IsAfter ms out
      → IsAfter (ms ++ message_members e) (json_message p o e out)
  json_message-IsAfter ms e out h =
      IsAfter-optional ms out (0 == length e.message) _ _ h
        (simp (write_escaped_string_optimized_lem, append_assoc))

  pub json_level-IsAfter :
      (ms : List Bytes) (e : Entry) (out : Bytes × Bool)
      → IsAfter ms out
      → IsAfter (ms ++ level_members e) (json_level p o e out)
  json_level-IsAfter ms e out h = elim (Bool-cases o.no_level) [
    | inl yes_ ↦ rw yes_ (unchanged ms out h)
    | inr no_ ↦ elim (Bool-cases (ltb e.level disabled)) [
      | inl shown ↦ rw (no_, shown) (IsAfter-append ms out _ _ h (simp append_assoc))
      | inr hidden ↦ rw (no_, hidden) (unchanged ms out h)
    ]
  ]

  pub json_caller-IsAfter :
      (ms : List Bytes) (c : Option CallerInfo) (out : Bytes × Bool)
      → IsAfter ms out
      → IsAfter (ms ++ caller_members c) (json_caller p o c out)
  json_caller-IsAfter ms none out h = unchanged ms out h
  json_caller-IsAfter ms (some c) out h =
      IsAfter-append ms out _ _ h (simp (write_escaped_string_optimized_lem, append_assoc))

  pub json_fields-IsAfter :
      (convert : Bytes → Bytes) (fs : List Field) (ms : List Bytes) (out : Bytes × Bool)
      → IsAfter ms out
      → IsAfter (ms ++ map (field_member convert) fs) (json_fields p o convert fs out)
  unfolding json_fields
  json_fields-IsAfter convert [] ms out h = unchanged ms out h
  json_fields-IsAfter convert (f ∷ fs) ms out h =
      subst (λ ns. IsAfter ns (json_fields p o convert (f ∷ fs) out))
        (append_assoc ms (field_member convert f ∷ []) _)
        (json_fields-IsAfter convert fs (ms ++ field_member convert f ∷ []) _ (
          IsAfter-append ms out (field_member convert f) _ h (
            format_json_field_value-append p o _ f
            ∙ simp (write_escaped_string_optimized_lem, append_assoc))))
