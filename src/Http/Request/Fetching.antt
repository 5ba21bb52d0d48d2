-- ===== src/Http/Request/Fetching.antt =====
-- The updater's view of a site (src/dbl/updater/updater.cxx), as the requests give it; and what the headers that
-- are set on a request do to it.
use dbl_service.Prelude.{ℕ, String, Bool, Option, none, some, List, ◌≡◌, refl, ap, sym, ◌∙◌}
use dbl_service.Json.{Json}
use dbl_service.Validator.{Resolution}
use dbl_service.Updater.{Source, Page}
use dbl_service.Http.{Text, Response, get_last_modified}
use dbl_service.Http.Request.{
  Request, Curl, new_request, set_header, set_if_modified_since, head, fetch, prepare, execute,
  prepare_url, prepare_follow_location, prepare_ssl_verify, prepare_header_writer,
  prepare_body_writer, prepare_no_body,
}

-- response_ptr, as get_last_modified() and get_data() read it
abbrev pub page_of : (String → Option ℕ) → Option Response → Option Page
unfolding get_last_modified
page_of date none = none
page_of date (some r) = some (record { last_modified = get_last_modified date r; content = r.body })

module _ {H : Type 0} (curl : Curl H) (library : Text) (date : String → Option ℕ) where
  unfoldable pub first_fetch : String → ℕ → Option Response × Request H
  unfolding set_if_modified_since new_request fetch
  first_fetch url mtime =
      fetch curl library (set_if_modified_since curl mtime (new_request curl url))

  -- The interface of the updater, over requests.
  unfoldable pub site : Json → (String → Resolution) → Bool → List String → ℕ → Source
  unfolding first_fetch fetch page_of
  site json getaddrinfo disable_list_update list_ids now = record {
    json = json;
    getaddrinfo = getaddrinfo;
    fetch_first = λ url mtime. page_of date (first_fetch url mtime).0;
    fetch_again = λ url mtime. page_of date (fetch curl library (first_fetch url mtime).1).0;
    disable_list_update = disable_list_update;
    list_ids = list_ids;
    now = now;
  }

  fetch-ignores_headers :
      (name value : String) (r : Request H)
      → ((head curl library (set_header name value r)).0 ≡ (head curl library r).0)
        × ((fetch curl library (set_header name value r)).0 ≡ (fetch curl library r).0)
        × ((fetch curl library (fetch curl library (set_header name value r)).1).0
            ≡ (fetch curl library (fetch curl library r).1).0)
  unfolding head fetch set_header prepare execute prepare_url prepare_follow_location
      prepare_ssl_verify prepare_header_writer prepare_body_writer prepare_no_body
  fetch-ignores_headers name value r = (refl, refl, refl)

  -- The updater's requests do not depend on when the list was last read: with any two times for
  -- If-Modified-Since, head(), the first fetch() and the second give the same.
  pub site-ignores_mtime :
      (json : Json) (getaddrinfo : String → Resolution) (disable_list_update : Bool)
      (list_ids : List String) (now m n : ℕ) (url : String)
      → let source = site json getaddrinfo disable_list_update list_ids now in
        (source.fetch_first url m ≡ source.fetch_first url n)
        × (source.fetch_again url m ≡ source.fetch_again url n)
        × ((head curl library (set_if_modified_since curl m (new_request curl url))).0
            ≡ (head curl library (set_if_modified_since curl n (new_request curl url))).0)
  unfolding site first_fetch set_if_modified_since
  site-ignores_mtime json getaddrinfo disable_list_update list_ids now m n url =
      let r = new_request curl url in
      let a = fetch-ignores_headers "If-Modified-Since" (curl.format_time m) r in
      let b = fetch-ignores_headers "If-Modified-Since" (curl.format_time n) r in
      (ap (page_of date) (a.1 ∙ sym b.1), ap (page_of date) (a.2 ∙ sym b.2), a.0 ∙ sym b.0)
