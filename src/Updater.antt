-- ===== src/Updater.antt =====
-- src/dbl/updater/updater.cxx. The HTTP client (net::http::Request over curl) is a parameter: what a url
-- gives to a request with If-Modified-Since, at the first and at the second fetch().
pub mod Laws
use Prim.Native.String.{◌++◌}
use dbl_service.Prelude.{
  ℕ, zero, suc, String, Bool, true, false, ◌||◌, Option, none, some, List, [], ◌∷◌, ◌==◌, ltb,
  if◌then◌else◌, contains,
}
use dbl_service.Fallible.{
  runtime_error, operation_error, throw, Result, ok, err, Exec, pure, ◌>>=◌, ◌>>◌,
}
use dbl_service.Types.{DomainList}
use dbl_service.Validator.{Resolution, is_empty}
use dbl_service.Json.{Json}
use dbl_service.Json.Convert.{list_from_text}
use dbl_service.Storage.{Store}
use dbl_service.Manager.DomainLists.{get_all, import_list}

-- net::http::Response: get_last_modified() and get_data()
pub record Page : Type 0 where
  pub last_modified : ℕ
  pub content : String

-- What the updater calls and reads: config.disable_list_update, config.list_ids.
pub record Source : Type 1 where
  pub json : Json
  pub getaddrinfo : String → Resolution
  pub fetch_first : String → ℕ → Option Page
  pub fetch_again : String → ℕ → Option Page
  pub disable_list_update : Bool
  pub list_ids : List String
  pub now : ℕ

-- src/dbl/core/constants.hxx
abbrev pub update_url : String
update_url = "http://noise-nation.net/lists"

abbrev pub modified_at : Option Page → ℕ
modified_at none = 0
modified_at (some page) = page.last_modified

abbrev pub url_of : DomainList → String
url_of lst = if lst.url == "" then update_url ++ "/" ++ lst.name ++ ".json" else lst.url

-- !last_modified || (lst.mtime < last_modified)
abbrev pub is_newer : ℕ → ℕ → Bool
is_newer mtime zero = true
is_newer mtime (suc n) = ltb mtime (suc n)

module _ (source : Source) where
  open source use {json, getaddrinfo, fetch_first, fetch_again, disable_list_update, list_ids, now}

  abbrev pub is_selected : DomainList → Bool
  is_selected lst = if is_empty list_ids then true else contains lst.name list_ids

  abbrev pub import_parsed : Result DomainList → Exec Store Bool
  import_parsed (ok l) = do import_list now l false; pure true
  import_parsed (err (runtime_error m)) = pure false
  import_parsed (err (operation_error m es)) = pure false
  import_parsed (err e) = throw e

  abbrev pub import_page : DomainList → Option Page → Exec Store Bool
  import_page lst none = pure false
  import_page lst (some page) = import_parsed (list_from_text json getaddrinfo lst page.content)

  -- One round of the loop: whether is_updated_ is set.
  unfoldable pub update_list : DomainList → Exec Store Bool
  unfolding import_list list_from_text
  update_list lst =
      if is_selected lst
      then (if is_newer lst.mtime (modified_at (fetch_first (url_of lst) lst.mtime))
          then import_page lst (fetch_again (url_of lst) lst.mtime)
          else pure false)
      else pure false

  unfoldable pub update_each : List DomainList → Exec Store Bool
  unfolding update_list
  update_each [] = pure false
  update_each (l ∷ ls) = do
    updated ← update_list l
    others ← update_each ls
    pure (updated || others)

  -- run(): update_lists(), then is_updated_
  unfoldable pub run : Exec Store Bool
  unfolding get_all update_each
  run = if disable_list_update then pure false else (do lists ← get_all; update_each lists)
