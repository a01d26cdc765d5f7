-- ===== src/Formatter/Logfmt/Structure.antt =====
-- formatter_logfmt.go: the members of the line and the blanks between them.
use onelog.Prelude.{
  ◌≡◌, refl, sym, ap, ◌∙◌, Bool, true, false, some, List, [], ◌∷◌, ◌++◌, append_assoc, append-nil,
  Bytes, if◌then◌else◌, length-append, arith, map,
}
use onelog.Field.{Field, Entry}
use onelog.Formatter.{Printers}
use onelog.Formatter.Json.{TimeCache, get_cached_time_string}
use onelog.Formatter.Logfmt.{
  LogfmtFormatter, logfmt_level, logfmt_message, logfmt_caller, logfmt_fields, logfmt_cached,
  logfmt_all_fields, field_order, logfmt_end, logfmt_body, format_logfmt,
}
use onelog.Formatter.Logfmt.Members.{
  spaced, IsLine, in_quotes, head_members, caller_members, field_member, head-IsLine, caller-IsLine,
  logfmt_fields-IsLine,
}

module _ (p : Printers) (sort_by_key : List Field → List Field) where
  -- The members in the order in which they are written, `stamp` being those of the timestamp.
  abbrev pub members : LogfmtFormatter → (Bytes → Bytes) → Entry → List Bytes → List Bytes
  members l convert e stamp =
      stamp
      ++ head_members p sort_by_key l e
      ++ caller_members p sort_by_key l e.caller_info
      ++ map (field_member p sort_by_key l convert) (field_order p sort_by_key l e.fields)

  abbrev pub ended : LogfmtFormatter → List Bytes → Bytes
  ended l ms = spaced ms ++ (if l.options.disable_newline then [] else 10 ∷ [])

  abbrev pub sorted_entry : LogfmtFormatter → Entry → Entry
  sorted_entry l e = record e { fields = field_order p sort_by_key l e.fields }

  logfmt_all_fields-some :
      (l : LogfmtFormatter) (convert : Bytes → Bytes) (fs : List Field) (buf : Bytes)
      → logfmt_all_fields p sort_by_key l (some convert) fs buf
        ≡ some (logfmt_fields p sort_by_key l convert fs buf)
  unfolding logfmt_fields
  logfmt_all_fields-some l convert [] buf = refl
  logfmt_all_fields-some l convert (f ∷ fs) buf = refl

  logfmt_end-ended :
      (l : LogfmtFormatter) (e : Entry) (ms : List Bytes) (buf : Bytes)
      → IsLine ms buf
      → logfmt_end p sort_by_key l e (some buf) ≡ some (l, e, ended l ms)
  logfmt_end-ended l e ms buf (h, _) =
      ap (λ (t : Bytes). some (l, e, t)) (close l.options.disable_newline)
    where
      close :
          (b : Bool)
          → (if b then buf else buf ++ 10 ∷ []) ≡ spaced ms ++ (if b then [] else 10 ∷ [])
      close true = h ∙ sym (append-nil (spaced ms))
      close false = ap (λ (t : Bytes). t ++ 10 ∷ []) h

  logfmt_body-ended :
      (l : LogfmtFormatter) (convert : Bytes → Bytes) (e : Entry) (ms : List Bytes) (buf : Bytes)
      → l.options.field_name_converter ≡ some convert
      → IsLine ms buf
      → logfmt_body p sort_by_key e (some (l, buf))
        ≡ some (l, sorted_entry l e, ended l (members l convert e ms))
  logfmt_body-ended l convert e ms buf conv line =
      let sorted = field_order p sort_by_key l e.fields in
      let before =
        logfmt_caller p sort_by_key l e.caller_info
          (logfmt_message p sort_by_key l e.message (logfmt_level p sort_by_key l e.level buf)) in
      ap
        (λ c.
          logfmt_end p sort_by_key l (sorted_entry l e)
            (logfmt_all_fields p sort_by_key l c sorted before))
        conv
      ∙ ap (logfmt_end p sort_by_key l (sorted_entry l e))
          (logfmt_all_fields-some l convert sorted before)
      ∙ logfmt_end-ended l (sorted_entry l e) _ _ (
          logfmt_fields-IsLine p sort_by_key l convert sorted _ _ (
            caller-IsLine p sort_by_key l _ e.caller_info _
              (head-IsLine p sort_by_key l e ms buf line)))

  abbrev pub stamp_members : LogfmtFormatter → Bytes → List Bytes
  stamp_members l text =
      if l.options.no_timestamp
      then []
      else (l.options.time_key ++ b'=' ∷ in_quotes p sort_by_key l text) ∷ []

  -- The formatter after the call, given the cache that looking up the time leaves.
  abbrev pub with_cache : LogfmtFormatter → TimeCache → LogfmtFormatter
  with_cache l c = if l.options.no_timestamp then l else record l { time_cache = some c }

  -- With a cache and a converter, a call succeeds and the output is a line of these members, a
  -- blank between any two: the timestamp, the level, the message, the caller and the fields, each
  -- there exactly if the options and the entry ask for it. The fields stand in the order of the
  -- sort, unless it is disabled, and so do the entry's own fields after the call.
  pub format_logfmt_lem :
      (l : LogfmtFormatter) (e : Entry) (c : TimeCache) (convert : Bytes → Bytes)
      → l.time_cache ≡ some c
      → l.options.field_name_converter ≡ some convert
      → let (c', text) = get_cached_time_string p c e.time l.options.time_format in
        let l' = with_cache l c' in
        format_logfmt p sort_by_key l e
        ≡ some (l', sorted_entry l' e, ended l' (members l' convert e (stamp_members l text)))
  unfolding format_logfmt
  format_logfmt_lem l e c convert at conv = by_flag l.options.no_timestamp
    where
      looked_up : TimeCache × Bytes
      looked_up = get_cached_time_string p c e.time l.options.time_format

      stamp : Bytes
      stamp = l.options.time_key ++ b'=' ∷ in_quotes p sort_by_key l looked_up.1

      after : Bool → LogfmtFormatter
      after b = if b then l else record l { time_cache = some looked_up.0 }

      by_flag :
          (b : Bool)
          → logfmt_body p sort_by_key e
              (if b then some (l, []) else logfmt_cached p sort_by_key l l.time_cache e.time [])
            ≡ some (
              after b,
              sorted_entry (after b) e,
              ended (after b) (members (after b) convert e (if b then [] else stamp ∷ [])),
            )
      by_flag true = logfmt_body-ended l convert e [] [] conv (refl, tt)
      by_flag false =
          ap (λ t. logfmt_body p sort_by_key e (logfmt_cached p sort_by_key l t e.time [])) at
          ∙ logfmt_body-ended _ convert e (stamp ∷ []) _ conv (
            simp (append_assoc, append-nil),
            (
              omega (
                arith,
                length-append l.options.time_key (b'=' ∷ in_quotes p sort_by_key l looked_up.1),
              ),
              tt,
            ),
          )
