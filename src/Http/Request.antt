-- ===== src/Http/Request.antt =====
-- src/dbl/net/http/request.cxx. curl is a parameter: what it keeps of a handle, whether it takes an option, and
-- what a transfer gives to the writers.
pub mod Fetching
use Prim.Native.String.{◌++◌}
use dbl_service.Prelude.{
  ℕ, String, Bool, true, false, Option, none, some, List, [], ◌∷◌, if◌then◌else◌, Assoc, put,
}
use mathlib.Core.List
use dbl_service.Http.{Text, Response, new_response, parse_headers}

-- The options that are set. Those with a writer name what it appends to.
pub data CurlOption : Type 0 where
  url : String → CurlOption
  follow_location : CurlOption
  verify_peer : Bool → CurlOption
  skip_host : CurlOption
  header_function : CurlOption
  header_data : CurlOption
  no_body : CurlOption
  write_function : CurlOption
  write_data : CurlOption

-- The error, if there is one; the pieces that the writers of the header and of the body are called with;
-- and the response code.
pub record Transfer : Type 0 where
  pub failure : Option String
  pub header_chunks : List String
  pub body_chunks : List String
  pub code : ℕ

-- curl_easy_init; curl_easy_setopt, which says whether it gives CURLE_OK; curl_easy_perform with
-- curl_easy_getinfo, given the list of headers; strftime() of a time.
pub record Curl (H : Type 0) : Type 0 where
  pub init : H
  pub setopt : CurlOption → H → Bool × H
  pub perform : H → Transfer × H
  pub format_time : ℕ → String

-- curl_headers_ is a list of curl's, which is nowhere given to curl.
pub record Request (H : Type 0) : Type 0 where
  pub address : String
  pub handle : H
  pub ssl_verify_peer : Bool
  pub ssl_verify_host : Bool
  pub headers : Assoc String
  pub error : String
  pub curl_headers : List String

-- The static function writer, for the pieces of one transfer.
unfoldable pub writer : List String → String → String
writer [] written = written
writer (data_ ∷ more) written = writer more (written ++ data_)

abbrev pub header_lines : Assoc String → List String
header_lines [] = []
header_lines ((k, v) ∷ m) = (k ++ ":" ++ v) ∷ header_lines m

module _ {H : Type 0} where
  unfoldable pub set_header : String → String → Request H → Request H
  unfolding put
  set_header k v r = record r { headers = put k v r.headers }

  -- The call of this is commented out in the source, so that no header reaches curl.
  unfoldable pub prepare_headers : Request H → Request H
  unfolding set_header
  prepare_headers r =
      let named = set_header "X-Client-Software" "DNSBlocker/Updater" r in
      record named { curl_headers = List.◌++◌ named.curl_headers (header_lines named.headers) }

  module _ (curl : Curl H) where
    unfoldable pub new_request : String → Request H
    new_request address = record {
      address = address;
      handle = curl.init;
      ssl_verify_peer = true;
      ssl_verify_host = true;
      headers = [];
      error = "";
      curl_headers = [];
    }

    unfoldable pub set_if_modified_since : ℕ → Request H → Request H
    unfolding set_header
    set_if_modified_since stamp r = set_header "If-Modified-Since" (curl.format_time stamp) r

    -- Two options, the second only if the first is taken.
    abbrev pub set_both : CurlOption → CurlOption → H → Bool × H
    set_both a b h =
        let (done, g) = curl.setopt a h in
        let both = curl.setopt b g in if done then both else (false, g)

    unfoldable pub prepare_url : Request H → H → Bool × H
    prepare_url r = curl.setopt (url r.address)

    unfoldable pub prepare_follow_location : H → Bool × H
    prepare_follow_location = curl.setopt follow_location

    unfoldable pub prepare_ssl_verify : Request H → H → Bool × H
    prepare_ssl_verify r h =
        if r.ssl_verify_host
        then curl.setopt (verify_peer r.ssl_verify_peer) h
        else set_both (verify_peer r.ssl_verify_peer) skip_host h

    unfoldable pub prepare_header_writer : H → Bool × H
    prepare_header_writer = set_both header_function header_data

    unfoldable pub prepare_no_body : H → Bool × H
    prepare_no_body = curl.setopt no_body

    unfoldable pub prepare_body_writer : H → Bool × H
    prepare_body_writer = set_both write_function write_data

    -- What the options give is only logged.
    unfoldable pub prepare : Request H → Request H
    unfolding prepare_url prepare_follow_location prepare_ssl_verify prepare_header_writer
        prepare_body_writer
    prepare r =
        let (a, h1) = prepare_url r r.handle in
        let (b, h2) = prepare_follow_location h1 in
        let (c, h3) = prepare_ssl_verify r h2 in
        let (d, h4) = prepare_header_writer h3 in
        let (e, h5) = prepare_body_writer h4 in record r { handle = h5 }

    abbrev pub code_of : Option String → ℕ → ℕ
    code_of none code = code
    code_of (some e) code = 0

    abbrev pub error_of : Option String → String → String
    error_of none before = before
    error_of (some e) before = e

    abbrev pub answer_of : Option String → Response → Option Response
    answer_of none r = some r
    answer_of (some e) r = none

    unfoldable pub execute : Text → Request H → Option Response × Request H
    unfolding parse_headers writer
    execute library r =
        let (t, h) = curl.perform r.handle in
        let raw = writer t.header_chunks "" in
        (
          answer_of t.failure (record {
            raw_headers = raw;
            body = writer t.body_chunks "";
            status_code = code_of t.failure t.code;
            headers = parse_headers library raw [];
          }),
          record r { handle = h; error = error_of t.failure r.error; curl_headers = [] },
        )

    unfoldable pub head : Text → Request H → Option Response × Request H
    unfolding prepare prepare_no_body execute
    head library r =
        let p = prepare r in
        let (done, h) = prepare_no_body p.handle in execute library (record p { handle = h })

    unfoldable pub fetch : Text → Request H → Option Response × Request H
    unfolding prepare execute
    fetch library r = execute library (prepare r)
