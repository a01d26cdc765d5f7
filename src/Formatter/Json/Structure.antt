-- ===== src/Formatter/Json/Structure.antt =====
-- formatter_json.go: the members of the object, their separators, and when the call panics.
use onelog.Prelude.{
  some_ne, true_ne, ◌≡◌, ◌↔◌, ◌⊎◌, refl, ap, ◌∙◌, Bool, true, false, Option, none, some, List, [],
  ◌∷◌, ◌++◌, append-nil, append_assoc, Bytes, codes, if◌then◌else◌, map, inl, inr,
}
use onelog.Field.{Field, Entry}
use onelog.Formatter.{Printers, FormatterOptions}
use onelog.Formatter.Json.{
  JsonFormatter, TimeCache, get_cached_time_string, json_fields, with_converter, cached_timestamp,
  json_end, json_head, json_body, format_json,
}
use onelog.Formatter.Json.Members.{
  joined, IsAfter, level_members, message_members, caller_members, field_member,
  json_message-IsAfter, json_level-IsAfter, json_caller-IsAfter, json_fields-IsAfter,
}

module _ (p : Printers) (o : FormatterOptions) where
  -- The members in the order in which they are written, `stamp` being those of the timestamp.
  abbrev pub members : (Bytes → Bytes) → Entry → List Bytes → List Bytes
  members convert e stamp =
      stamp
      ++ level_members p o e
      ++ message_members p o e
      ++ caller_members p o e.caller_info
      ++ map (field_member p o convert) e.fields

  json_head-IsAfter :
      (e : Entry) (ms : List Bytes) (out : Bytes × Bool)
      → IsAfter ms out
      → IsAfter
          (ms ++ level_members p o e ++ message_members p o e ++ caller_members p o e.caller_info)
          (json_head p o e out)
  json_head-IsAfter e ms out h =
      json_caller-IsAfter p o _ e.caller_info _
        (json_message-IsAfter p o _ e _ (json_level-IsAfter p o ms e out h))

  abbrev pub ended : List Bytes → Bytes
  ended ms = b'{' ∷ (joined ms ++ b'}' ∷ (if o.disable_newline then [] else 10 ∷ []))

  json_end-ended :
      (j : JsonFormatter) (ms : List Bytes) (out : Bytes × Bool)
      → IsAfter ms out
      → json_end p o j (some out) ≡ some (j, ended ms)
  json_end-ended j ms (buf, _) (h, _) = ap (λ (t : Bytes). some (j, t)) (close o.disable_newline)
    where
      close :
          (b : Bool)
          → (if b then buf ++ b'}' ∷ [] else (buf ++ b'}' ∷ []) ++ 10 ∷ [])
            ≡ b'{' ∷ (joined ms ++ b'}' ∷ (if b then [] else 10 ∷ []))
      close true = ap (λ (t : Bytes). t ++ b'}' ∷ []) h
      close false =
          append_assoc buf (b'}' ∷ []) (10 ∷ []) ∙ ap (λ (t : Bytes). t ++ b'}' ∷ 10 ∷ []) h

  with_converter-some :
      (convert : Bytes → Bytes) (fs : List Field) (out : Bytes × Bool)
      → with_converter p o (some convert) fs out ≡ some (json_fields p o convert fs out)
  unfolding json_fields
  with_converter-some convert [] out = refl
  with_converter-some convert (f ∷ fs) out = refl

  json_body-ended :
      (convert : Bytes → Bytes) (e : Entry) (j : JsonFormatter) (ms : List Bytes)
      (out : Bytes × Bool)
      → o.field_name_converter ≡ some convert
      → IsAfter ms out
      → json_body p o e (some (j, out)) ≡ some (j, ended (members convert e ms))
  json_body-ended convert e j ms out h after =
      ap (λ c. json_end p o j (with_converter p o c e.fields (json_head p o e out))) h
      ∙ ap (json_end p o j) (with_converter-some convert e.fields (json_head p o e out))
      ∙ json_end-ended j _ _
          (json_fields-IsAfter p o convert e.fields _ _ (json_head-IsAfter e ms out after))

module _ (p : Printers) where
  abbrev pub time_members : FormatterOptions → Bytes → List Bytes
  time_members o text =
      if o.no_timestamp
      then []
      else (codes "\"" ++ (o.time_key ++ (codes "\":\"" ++ (text ++ codes "\"")))) ∷ []

  -- With a cache and a converter, a call succeeds and the output is an object of these members in
  -- this order, a comma between any two and none before the first or behind the last: the
  -- timestamp, the level, the message, the caller and the fields, each there exactly if the options
  -- and the entry ask for it. The cache changes as the look-up of the time does, if there is one.
  pub format_json_lem :
      (j : JsonFormatter) (e : Entry) (c : TimeCache) (convert : Bytes → Bytes)
      → j.time_cache ≡ some c
      → j.options.field_name_converter ≡ some convert
      → let (c', text) = get_cached_time_string p c e.time j.options.time_format in
        format_json p j e
        ≡ some (
          (if j.options.no_timestamp then j else record j { time_cache = some c' }),
          ended p j.options (members p j.options convert e (time_members j.options text)),
        )
  unfolding format_json
  format_json_lem j e c convert at conv = by_flag j.options.no_timestamp
    where
      start : Bytes × Bool
      start = (b'{' ∷ [], false)

      looked_up : TimeCache × Bytes
      looked_up = get_cached_time_string p c e.time j.options.time_format

      stamp : Bytes
      stamp = codes "\"" ++ (j.options.time_key ++ (codes "\":\"" ++ (looked_up.1 ++ codes "\"")))

      by_flag :
          (b : Bool)
          → json_body p j.options e
              (if b then some (j, start) else cached_timestamp p j j.time_cache e.time start)
            ≡ some (
              (if b then j else record j { time_cache = some looked_up.0 }),
              ended p j.options (members p j.options convert e (if b then [] else stamp ∷ [])),
            )
      by_flag true = json_body-ended p j.options convert e j [] start conv (refl, refl)
      by_flag false =
          ap (λ t. json_body p j.options e (cached_timestamp p j t e.time start)) at
          ∙ json_body-ended p j.options convert e _ (stamp ∷ []) _ conv
              (simp (append_assoc, append-nil), refl)

  converter_panics :
      (o : FormatterOptions) (j : JsonFormatter) (convert : Option (Bytes → Bytes))
      (fs : List Field) (out : Bytes × Bool)
      → (json_end p o j (with_converter p o convert fs out) ≡ none)
        ↔ ((convert ≡ none) × ¬ (fs ≡ []))
  converter_panics o j convert [] out = ((λ h. absurd (some_ne h)), (λ (_, h). absurd (h refl)))
  converter_panics o j none (f ∷ fs) out = ((λ _. (refl, (λ h. cc))), (λ _. refl))
  converter_panics o j (some convert) (f ∷ fs) out =
      ((λ h. absurd (some_ne h)), (λ (h, _). absurd (some_ne h)))

  -- A call panics exactly if it looks up the time in a nil cache or converts a field's name with a
  -- nil function.
  pub format_json_panics :
      (j : JsonFormatter) (e : Entry)
      → (format_json p j e ≡ none) ↔ (
          ((j.options.no_timestamp ≡ false) × (j.time_cache ≡ none))
          ⊎ ((j.options.field_name_converter ≡ none) × ¬ (e.fields ≡ [])))
  unfolding format_json
  format_json_panics j e = by_cache j.options.no_timestamp j.time_cache
    where
      start : Bytes × Bool
      start = (b'{' ∷ [], false)

      by_cache :
          (b : Bool) (t : Option TimeCache)
          → (json_body p j.options e
                (if b then some (j, start) else cached_timestamp p j t e.time start)
              ≡ none)
            ↔ (((b ≡ false) × (t ≡ none))
                ⊎ ((j.options.field_name_converter ≡ none) × ¬ (e.fields ≡ [])))
      by_cache true t =
          let (to, from) =
            converter_panics j.options j j.options.field_name_converter e.fields
              (json_head p j.options e start) in
          ((λ h. inr (to h)), (λ h. elim h [ inl (f, _) ↦ absurd (true_ne f) | inr x ↦ from x ]))
      by_cache false none = ((λ _. inl (refl, refl)), (λ _. refl))
      by_cache false (some c) =
          let (to, from) =
            converter_panics j.options _ j.options.field_name_converter e.fields
              (json_head p j.options e _) in
          ((λ h. inr (to h)), (λ h. elim h [ inl (_, f) ↦ absurd (some_ne f) | inr x ↦ from x ]))
