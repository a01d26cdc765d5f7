-- ===== src/Http/Tests.antt =====
-- The theorems about requests and response writers at concrete data.
use onelog.Prelude.{ℕ, ◌≡◌, refl, none, some, List, [], ◌∷◌, ◌++◌, codes, length}
use onelog.Field.{duration_field}
use onelog.Formatter.Clf.{find_parts, no_parts}
use onelog.Http.{Url, Request, log_request, ResponseWriter, ResponseCall, header, body}
use onelog.Http.Laws.{find_parts-log_request}

abbrev home : Url
home = record { user = some (codes "ann"); path = codes "/" }

abbrev request : Request
request = record {
  remote_addr = codes "1.2.3.4";
  url = some home;
  method = codes "GET";
  proto = codes "HTTP/1.1";
  referer = [];
  user_agent = codes "curl";
}

find_parts-log_request_example :
    find_parts (log_request request 404 12 ++ duration_field (codes "duration") 7 ∷ []) no_parts
    ≡ record {
      remote_host = codes "1.2.3.4";
      remote_logname = [];
      remote_user = codes "ann";
      request_line = codes "GET / HTTP/1.1";
      method = codes "GET";
      path = codes "/";
      protocol = codes "HTTP/1.1";
      status_code = 404;
      response_size = 12;
      referer = [];
      user_agent = codes "curl";
    }
find_parts-log_request_example = find_parts-log_request request home 404 12 7 refl

-- A writer that keeps the headers and takes every byte.
abbrev keeping : ResponseWriter (List ℕ)
keeping = record { write_header = λ code w. w ++ code ∷ []; write = λ p w. (w, length p, none) }

abbrev handled : List ResponseCall
handled = header 200 ∷ body (codes "abc") ∷ header 500 ∷ body (codes "de") ∷ []
