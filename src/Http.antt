-- ===== src/Http.antt =====
-- src/dbl/util/http.cxx, src/dbl/net/http/response.cxx and the HTTP responder of the service. The split and the
-- trimming of a text are boost's, and reading a date is the C library's: parameters.
pub mod Request
use Prim.Native.String.{◌++◌, len, slice}
use text.Mathlib.Text.{find?}
use dbl_service.Prelude.{
  ℕ, String, Bool, true, false, not, Option, none, some, List, [], ◌∷◌, ◌==◌, ◌+◌, if◌then◌else◌,
  Assoc, lookup, put,
}
use dbl_service.Prelude.Integers.{ℤ}
use dbl_service.Fallible.{Exec, pure, ◌>>=◌, ◌>>◌}
use dbl_service.Storage.{Store}
use dbl_service.Logger.{log_domain_hit}

-- boost::split at '\r', and trim_copy
pub record Text : Type 0 where
  pub split : String → List String
  pub trim : String → String

-- unordered_map::insert, which leaves a key that is there
unfoldable pub insert_new : String → String → Assoc String → Assoc String
unfolding lookup put
insert_new k v m = elim (lookup k m) [ none ↦ put k v m | some w ↦ m ]

module _ (library : Text) where
  -- The name and the value of a line, if it has a colon.
  abbrev pub add_line : String → Option ℕ → Assoc String → Assoc String
  unfolding insert_new
  add_line line none headers = headers
  add_line line (some idx) headers =
      insert_new (library.trim (slice line 0 idx)) (library.trim (slice line (idx + 1) (len line)))
        headers

  unfoldable pub parse_lines : List String → Assoc String → Assoc String
  unfolding add_line
  parse_lines [] headers = headers
  parse_lines (line ∷ lines) headers = parse_lines lines (add_line line (find? line ":") headers)

  unfoldable pub parse_headers : String → Assoc String → Assoc String
  unfolding parse_lines
  parse_headers raw headers = parse_lines (library.split raw) headers

-- net::http::Response
pub record Response : Type 0 where
  pub raw_headers : String
  pub body : String
  pub status_code : ℕ
  pub headers : Assoc String

abbrev pub new_response : Response
new_response = record { raw_headers = ""; body = ""; status_code = 0; headers = [] }

abbrev pub value_of : Option String → String
value_of none = ""
value_of (some v) = v

unfoldable pub get_header : String → Response → String
unfolding lookup
get_header name r = value_of (lookup name r.headers)

abbrev pub seconds_of : Option ℕ → ℕ
seconds_of none = 0
seconds_of (some t) = t

-- The parameter is strptime() and mktime().
unfoldable pub get_last_modified : (String → Option ℕ) → Response → ℕ
unfolding get_header
get_last_modified date r =
    let lm = get_header "Last-Modified" r in if lm == "" then 0 else seconds_of (date lm)

-- service::server::HTTPResponderConnection::process_request, with the decimal text of the status code.
abbrev pub append_lines : List String → String
append_lines [] = ""
append_lines (item ∷ items) = item ++ "\r\n" ++ append_lines items

unfoldable pub reply_text : String → String → String
reply_text code text =
    append_lines (
      ("HTTP/1.1 " ++ code ++ " " ++ text)
      ∷ "Server: HTTPResponder"
      ∷ "Content-Type: text/html"
      ∷ "Content-Length: 0"
      ∷ [])
    ++ "\r\n\r\n"

-- headers["Host"]
unfoldable pub host_of : Text → String → String
unfolding parse_headers lookup
host_of library request = value_of (lookup "Host" (parse_headers library request []))

module _ (library : Text) (domains_seen : Assoc Bool) (code text : String) where
  unfoldable pub process_request : String → Exec Store String
  unfolding host_of log_domain_hit reply_text
  process_request request =
      let domain = host_of library request in
      (do
        if not (domain == "") then log_domain_hit domains_seen domain else pure tt
        pure (reply_text code text))
