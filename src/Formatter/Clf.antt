-- ===== src/Formatter/Clf.antt =====
-- formatter_clf.go, `CLFFormatter`: the Common Log Format.
use onelog.Prelude.{
  ℕ, ◌-◌, ◌%◌, Bool, true, false, ◌||◌, ◌&&◌, not, Option, none, some, List, [], ◌∷◌, ◌++◌, Bytes,
  codes, bytes_eq, if◌then◌else◌, ◌==◌, length, le64,
}
use onelog.Field.{Field, Entry}
use onelog.Formatter.{Printers, FormatterOptions, default_formatter_options}
use onelog.Formatter.Json.{TimeCache, load_time}
pub mod Unmarked

pub record ClfFormatter : Type 0 where
  pub options : FormatterOptions
  pub extended_format : Bool
  pub time_cache : Option TimeCache

abbrev pub new_clf_formatter : ClfFormatter
new_clf_formatter = record {
  options = default_formatter_options;
  extended_format = false;
  time_cache = some [];
}

-- `t.Truncate(time.Second)`.
abbrev pub truncate_to_second : ℕ → ℕ
truncate_to_second t = t - t % 1_000_000_000

abbrev pub clf_layout : Bytes
clf_layout = codes "02/Jan/2006:15:04:05 -0700"

abbrev pub is_empty : Bytes → Bool
is_empty s = 0 == length s

unfoldable pub clf_cached_time_string : Printers → TimeCache → ℕ → TimeCache × Bytes
clf_cached_time_string p c t =
    let k = truncate_to_second t in
    let formatted = p.format_time clf_layout t in
    if is_empty (load_time k c) then ((k, formatted) ∷ c, formatted) else (c, load_time k c)

-- What is looked for among the fields.
pub record Parts : Type 0 where
  pub remote_host : Bytes
  pub remote_logname : Bytes
  pub remote_user : Bytes
  pub request_line : Bytes
  pub method : Bytes
  pub path : Bytes
  pub protocol : Bytes
  pub status_code : ℕ
  pub response_size : ℕ
  pub referer : Bytes
  pub user_agent : Bytes

abbrev pub no_parts : Parts
no_parts = record {
  remote_host = [];
  remote_logname = [];
  remote_user = [];
  request_line = [];
  method = [];
  path = [];
  protocol = [];
  status_code = 0;
  response_size = 0;
  referer = [];
  user_agent = [];
}

abbrev pub is_key : Bytes → List Bytes → Bool
is_key k [] = false
is_key k (n ∷ ns) = bytes_eq k n || is_key k ns

-- The switch on the key.
abbrev pub with_part : Field → Parts → Parts
with_part f x =
    if is_key f.key
      (codes "remote_host" ∷ codes "client_ip" ∷ codes "remote_addr" ∷ codes "ip" ∷ [])
    then record x { remote_host = f.string }
    else if is_key f.key (codes "remote_logname" ∷ codes "logname" ∷ [])
    then record x { remote_logname = f.string }
    else if is_key f.key (codes "remote_user" ∷ codes "user" ∷ [])
    then record x { remote_user = f.string }
    else if is_key f.key (codes "request_line" ∷ codes "request" ∷ [])
    then record x { request_line = f.string }
    else if is_key f.key (codes "method" ∷ [])
    then record x { method = f.string }
    else if is_key f.key (codes "path" ∷ codes "uri" ∷ codes "url" ∷ [])
    then record x { path = f.string }
    else if is_key f.key (codes "protocol" ∷ [])
    then record x { protocol = f.string }
    else if is_key f.key (codes "status" ∷ codes "status_code" ∷ [])
    then record x { status_code = f.integer }
    else if is_key f.key (codes "response_size" ∷ codes "bytes" ∷ codes "size" ∷ [])
    then record x { response_size = f.integer }
    else if is_key f.key (codes "referer" ∷ [])
    then record x { referer = f.string }
    else if is_key f.key (codes "user_agent" ∷ [])
    then record x { user_agent = f.string }
    else x

unfoldable pub find_parts : List Field → Parts → Parts
find_parts [] x = x
find_parts (f ∷ fs) x = find_parts fs (with_part f x)

abbrev pub or_text : Bytes → Bytes → Bytes
or_text d s = if is_empty s then d else s

-- The request line, built of its parts where it is not given.
abbrev pub full_request_line : Parts → Bytes
full_request_line x =
    if is_empty x.request_line && not (is_empty x.method) && not (is_empty x.path)
    then x.method ++ b' ' ∷ x.path ++ b' ' ∷ or_text (codes "HTTP/1.1") x.protocol
    else x.request_line

abbrev pub dashed : Bytes → Bytes
dashed s = or_text (codes "-") s

abbrev pub in_marks : Bytes → Bytes
in_marks s = b'"' ∷ s ++ b'"' ∷ []

module _ (p : Printers) where
  abbrev pub status_text : ℕ → Bytes
  status_text status = p.append_int (if le64 status 0 then 200 else status)

  abbrev pub size_text : ℕ → Bytes
  size_text size = if le64 size 0 then codes "-" else p.append_int size

  abbrev pub extension : ClfFormatter → Parts → Bytes
  extension f x =
      if f.extended_format
      then b' ' ∷ in_marks (dashed x.referer) ++ b' ' ∷ in_marks (dashed x.user_agent)
      else []

  abbrev pub clf_line : ClfFormatter → Bytes → Parts → Bytes
  clf_line f stamp x =
      dashed x.remote_host
      ++ b' ' ∷ dashed x.remote_logname
      ++ b' ' ∷ dashed x.remote_user
      ++ codes " ["
      ++ stamp
      ++ codes "] "
      ++ in_marks (dashed (full_request_line x))
      ++ b' ' ∷ status_text x.status_code
      ++ b' ' ∷ size_text x.response_size
      ++ extension f x
      ++ (if f.options.disable_newline then [] else 10 ∷ [])

  abbrev pub clf_with : ClfFormatter → Option TimeCache → Entry → Option (ClfFormatter × Bytes)
  clf_with f none e = none
  clf_with f (some c) e =
      let (c', stamp) = clf_cached_time_string p c e.time in
      some (record f { time_cache = some c' }, clf_line f stamp (find_parts e.fields no_parts))

  -- What is passed to the writer, whose error is returned; `none` is the panic at a nil cache.
  unfoldable pub format_clf : ClfFormatter → Entry → Option (ClfFormatter × Bytes)
  unfolding find_parts clf_cached_time_string
  format_clf f e = clf_with f f.time_cache e
