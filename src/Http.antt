-- ===== src/Http.antt =====
-- formatter_clf.go: the fields of an HTTP request, the response writer that counts, and the
-- middleware that logs a request.
pub mod Laws
mod Tests
use onelog.Prelude.{
  ℕ, Bool, true, false, ◌||◌, Option, none, some, List, [], ◌∷◌, ◌++◌, Bytes, codes, if◌then◌else◌,
  ◌==◌, length, le64, add64,
}
use onelog.Errors.{Error}
use onelog.Level.{info_level, warn_level, error_level}
use onelog.Field.{Field, Entry, str_field, int_field, int64_field, duration_field}
use onelog.Heap.{Heap}
use onelog.Logger.{Logger}
use onelog.Logger.Pipeline.{Client, Circumstances, Outcome}
use onelog.Logger.Calls.{log}
use onelog.Formatter.Clf.{is_empty}

-- `*url.URL`, with the user's name if there is a user.
pub record Url : Type 0 where
  pub user : Option Bytes
  pub path : Bytes

-- What is read of an `http.Request`: `referer` and `user_agent` are the results of its methods.
pub record Request : Type 0 where
  pub remote_addr : Bytes
  pub url : Option Url
  pub method : Bytes
  pub proto : Bytes
  pub referer : Bytes
  pub user_agent : Bytes

-- The field, unless the text is empty.
abbrev pub str_unless_empty : Bytes → Bytes → List Field
str_unless_empty k s = if is_empty s then [] else str_field k s ∷ []

abbrev pub user_fields : Option Url → List Field
user_fields none = []
user_fields (some u) = named u.user
  where
    named : Option Bytes → List Field
    named none = []
    named (some name) = str_unless_empty (codes "remote_user") name

abbrev pub path_fields : Option Url → List Field
path_fields none = []
path_fields (some u) = str_field (codes "path") u.path ∷ []

abbrev pub line_fields : Request → Option Url → List Field
line_fields r none = []
line_fields r (some u) =
    str_field (codes "request_line") (r.method ++ b' ' ∷ u.path ++ b' ' ∷ r.proto) ∷ []

unfoldable pub log_request : Request → ℕ → ℕ → List Field
log_request r status size =
    str_unless_empty (codes "remote_host") r.remote_addr
    ++ (user_fields r.url
        ++ (str_field (codes "method") r.method
            ∷ (path_fields r.url
                ++ (str_field (codes "protocol") r.proto
                    ∷ int_field (codes "status_code") status
                    ∷ int64_field (codes "response_size") size
                    ∷ (str_unless_empty (codes "referer") r.referer
                        ++ (str_unless_empty (codes "user_agent") r.user_agent
                            ++ line_fields r r.url))))))

-- The calls that a handler makes of the response writer.
pub data ResponseCall : Type 0 where
  header : ℕ → ResponseCall
  body : Bytes → ResponseCall

-- The `http.ResponseWriter` that is wrapped, over its state.
pub record ResponseWriter {ℓ} (W : Type ℓ) : Type ℓ where
  pub write_header : ℕ → W → W
  pub write : Bytes → W → W × ℕ × Option Error

pub record LogResponseWriter {ℓ} (W : Type ℓ) : Type ℓ where
  pub inner : W
  pub status_code : ℕ
  pub response_size : ℕ

module _ {ℓ} {W : Type ℓ} where
  abbrev pub new_log_response_writer : W → LogResponseWriter W
  new_log_response_writer w = record { inner = w; status_code = 200; response_size = 0 }

  abbrev pub status : LogResponseWriter W → ℕ
  status w = w.status_code

  abbrev pub size : LogResponseWriter W → ℕ
  size w = w.response_size

module _ {ℓ} {W : Type ℓ} (out : ResponseWriter W) where
  unfoldable pub write_header : ℕ → LogResponseWriter W → LogResponseWriter W
  write_header code w = record w { status_code = code; inner = out.write_header code w.inner }

  unfoldable pub write_body : Bytes → LogResponseWriter W → LogResponseWriter W × ℕ × Option Error
  write_body p w =
      let (inner, n, error) = out.write p w.inner in
      (record w { inner = inner; response_size = add64 w.response_size n }, n, error)

  -- A handler is the calls it makes.
  unfoldable pub serve : List ResponseCall → LogResponseWriter W → LogResponseWriter W
  unfolding write_header write_body
  serve [] w = w
  serve (header code ∷ cs) w = serve cs (write_header code w)
  serve (body p ∷ cs) w = serve cs (write_body p w).0

abbrev pub request_level : ℕ → ℕ
request_level status =
    if le64 500 status then error_level else if le64 400 status then warn_level else info_level

-- The handler has run when the request is logged; `duration` is what it took.
module _ {ℓ κ} {W : Type ℓ} {S : Type κ} (out : ResponseWriter W) (client : Client S) where
  unfoldable pub http_middleware :
      List ResponseCall → ℕ → Request → Circumstances → Logger → W → S → Heap → W × Outcome S
  unfolding serve log_request log
  http_middleware calls duration r x l w s h =
      let served = serve out calls (new_log_response_writer w) in
      (
        served.inner,
        log client (request_level (status served)) (codes "HTTP Request")
            (log_request r (status served) (size served)
              ++ duration_field (codes "duration") duration ∷ [])
            x l s h,
      )
