-- ===== src/Http/Laws.antt =====
-- formatter_clf.go: from a request to the line of it in Common Log Format.
use onelog.Prelude.{
  ℕ, ◌≡◌, refl, ap, ◌∙◌, false, Option, none, some, List, [], ◌∷◌, ◌++◌, Bytes, codes, ◌==◌, add64,
  ◌+◌, ◌<◌, ◌^◌, length, arith,
}
use onelog.Field.{Field, str_field, int_field, int64_field, duration_field}
use onelog.Formatter.Clf.{Parts, no_parts, with_part, find_parts}
use onelog.Http.{
  Url, Request, str_unless_empty, user_fields, line_fields, log_request, ResponseCall, header, body,
  ResponseWriter, LogResponseWriter, new_log_response_writer, serve, write_header, write_body,
  status, size,
}

abbrev pub url_user : Url → Bytes
url_user u = or_nil u.user
  where
    or_nil : Option Bytes → Bytes
    or_nil none = []
    or_nil (some name) = name

find_parts-append :
    (fs gs : List Field) (x : Parts) → find_parts (fs ++ gs) x ≡ find_parts gs (find_parts fs x)
unfolding find_parts
find_parts-append [] gs x = refl
find_parts-append (f ∷ fs) gs x = find_parts-append fs gs (with_part f x)

-- A text that may be empty, where the part it is for is still empty.
optional_part :
    (k s : Bytes) (set : Bytes → Parts)
    → find_parts (str_field k s ∷ []) (set []) ≡ set s
    → find_parts (str_unless_empty k s) (set []) ≡ set s
unfolding find_parts
optional_part k [] set h = refl
optional_part k (c ∷ s) set h =
    let filled : (0 == length (c ∷ s)) ≡ false = ground arith in rw filled h

host_part :
    (r : Request)
    → find_parts (str_unless_empty (codes "remote_host") r.remote_addr) no_parts
      ≡ record no_parts { remote_host = r.remote_addr }
unfolding find_parts str_field
host_part r =
    optional_part (codes "remote_host") r.remote_addr (λ s. record no_parts { remote_host = s })
      refl

user_part :
    (u : Url) (host : Bytes)
    → find_parts (user_fields (some u)) (record no_parts { remote_host = host })
      ≡ record no_parts { remote_host = host; remote_user = url_user u }
unfolding find_parts str_field
user_part u host = by_user u.user
  where
    by_user :
        (o : Option Bytes)
        → find_parts
            (user_fields (some (record u { user = o })))
            (record no_parts { remote_host = host })
          ≡ record no_parts { remote_host = host; remote_user = url_user (record u { user = o }) }
    by_user none = refl
    by_user (some name) =
        optional_part (codes "remote_user") name
          (λ s. record no_parts { remote_host = host; remote_user = s }) refl

-- From the fields of a request with a URL, and those that are appended for its duration, the
-- formatter finds the request's own values; an address, a user, a referer or an agent that is
-- not there is found as empty.
pub find_parts-log_request :
    (r : Request) (u : Url) (code bytes duration : ℕ)
    → r.url ≡ some u
    → find_parts
        (log_request r code bytes ++ duration_field (codes "duration") duration ∷ [])
        no_parts
      ≡ record {
        remote_host = r.remote_addr;
        remote_logname = [];
        remote_user = url_user u;
        request_line = r.method ++ b' ' ∷ u.path ++ b' ' ∷ r.proto;
        method = r.method;
        path = u.path;
        protocol = r.proto;
        status_code = code;
        response_size = bytes;
        referer = r.referer;
        user_agent = r.user_agent;
      }
unfolding log_request find_parts str_field int_field int64_field duration_field
find_parts-log_request r u code bytes duration h =
    ap
      (λ o.
        find_parts
          (log_request (record r { url = o }) code bytes
            ++ duration_field (codes "duration") duration ∷ [])
          no_parts)
      h
    ∙ find_parts-append (log_request known code bytes)
        (duration_field (codes "duration") duration ∷ []) no_parts
    ∙ find_parts-append (str_unless_empty (codes "remote_host") r.remote_addr) _ no_parts
    ∙ ap (find_parts (user_fields (some u) ++ behind_user)) (host_part r)
    ∙ find_parts-append (user_fields (some u)) behind_user _
    ∙ ap (find_parts behind_user) (user_part u r.remote_addr)
    ∙ find_parts-append (str_unless_empty (codes "referer") r.referer) behind_referer (sized [] [])
    ∙ ap (find_parts behind_referer)
        (optional_part (codes "referer") r.referer (λ s. sized s []) refl)
    ∙ find_parts-append (str_unless_empty (codes "user_agent") r.user_agent)
        (line_fields known (some u)) (sized r.referer [])
    ∙ ap (find_parts (line_fields known (some u)))
        (optional_part (codes "user_agent") r.user_agent (λ s. sized r.referer s) refl)
  where
    known : Request
    known = record r { url = some u }

    sized : Bytes → Bytes → Parts
    sized referer agent = record {
      remote_host = r.remote_addr;
      remote_logname = [];
      remote_user = url_user u;
      request_line = [];
      method = r.method;
      path = u.path;
      protocol = r.proto;
      status_code = code;
      response_size = bytes;
      referer = referer;
      user_agent = agent;
    }

    behind_referer : List Field
    behind_referer =
        str_unless_empty (codes "user_agent") r.user_agent ++ line_fields known (some u)

    behind_user : List Field
    behind_user =
        str_field (codes "method") r.method
        ∷ str_field (codes "path") u.path
        ∷ str_field (codes "protocol") r.proto
        ∷ int_field (codes "status_code") code
        ∷ int64_field (codes "response_size") bytes
        ∷ (str_unless_empty (codes "referer") r.referer ++ behind_referer)

-- The status of the last header, or `d`.
abbrev pub last_header : List ResponseCall → ℕ → ℕ
last_header [] d = d
last_header (header code ∷ cs) d = last_header cs code
last_header (body p ∷ cs) d = last_header cs d

module _ {ℓ} {W : Type ℓ} (out : ResponseWriter W) where
  -- The wrapped writer after the same calls, and the bytes that it has taken.
  abbrev pub served_inner : List ResponseCall → W → W
  served_inner [] w = w
  served_inner (header code ∷ cs) w = served_inner cs (out.write_header code w)
  served_inner (body p ∷ cs) w = served_inner cs (out.write p w).0

  abbrev pub taken : List ResponseCall → W → ℕ
  taken [] w = 0
  taken (header code ∷ cs) w = taken cs (out.write_header code w)
  taken (body p ∷ cs) w = let (w', n, _) = out.write p w in n + taken cs w'

  serve_from :
      (cs : List ResponseCall) (w : LogResponseWriter W)
      → w.response_size + taken cs w.inner < 2 ^ 64
      → serve out cs w ≡ record {
        inner = served_inner cs w.inner;
        status_code = last_header cs w.status_code;
        response_size = w.response_size + taken cs w.inner;
      }
  unfolding serve write_header write_body
  serve_from [] w h = ap (λ n. record w { response_size = n }) {x = w.response_size} (omega arith)
  serve_from (header code ∷ cs) w h = serve_from cs (write_header out code w) h
  serve_from (body p ∷ cs) w h =
      let (w', n, _) = out.write p w.inner in
      let exact : add64 w.response_size n ≡ w.response_size + n = omega arith in
      serve_from cs (write_body out p w).0 (omega (arith, exact))
      ∙ ap
          (λ k. record {
            inner = served_inner cs w';
            status_code = last_header cs w.status_code;
            response_size = k;
          })
          {x = add64 w.response_size n + taken cs w'} {y = w.response_size + (n + taken cs w')}
          (omega (arith, exact))

  -- Whatever a handler calls, the wrapped writer gets the same calls, the status is that of the
  -- last header, or 200 without one, and the size is the number of bytes that the wrapped writer
  -- has taken, as long as they are below 2 ^ 64.
  pub serve_lem :
      (cs : List ResponseCall) (w : W)
      → taken cs w < 2 ^ 64
      → let s = serve out cs (new_log_response_writer w) in
        (s.inner ≡ served_inner cs w) × (status s ≡ last_header cs 200) × (size s ≡ taken cs w)
  serve_lem cs w h =
      let e = serve_from cs (new_log_response_writer w) (omega (arith, h)) in
      (
        ap (λ s. s.inner) e,
        ap (λ s. s.status_code) e,
        ap (λ s. s.response_size) e
            ∙ ap (λ n. n) {x = 0 + taken cs w} {y = taken cs w} (omega arith),
      )
