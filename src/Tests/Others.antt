-- ===== src/Tests/Others.antt =====
-- The logger on the sample database, and a site.
use dbl_service.Prelude.{lookup, ℕ, String, ◌≡◌, refl, false, Option, some, []}
use dbl_service.Storage.Session.{healthy}
use dbl_service.Logger.{hits, log_domain_hit, log_domain_hit-counts}
use dbl_service.Updater.{Source, Page}
use dbl_service.Tests.Sample.{sample_json, sample_resolver, sample_tables}

abbrev source_with : (String → ℕ → Option Page) → Source
source_with pages = record {
  json = sample_json;
  getaddrinfo = sample_resolver;
  fetch_first = pages;
  fetch_again = pages;
  disable_list_update = false;
  list_ids = [];
  now = 9;
}

-- Every page was changed at the time 5; the one list was read at the time 9.
abbrev pub old_pages : Source
old_pages = source_with (λ url mtime. some (record { last_modified = 5; content = "token" }))

log_domain_hit-counts_example :
    (hits "ads.example" (log_domain_hit [] "ads.example" (healthy sample_tables)).1.tables ≡ 1)
    × ((log_domain_hit [] "ads.example" (healthy sample_tables)).1.tables.settings
        ≡ sample_tables.settings)
    × ((log_domain_hit [] "ads.example" (healthy sample_tables)).1.tables.lists
        ≡ sample_tables.lists)
    × ((log_domain_hit [] "ads.example" (healthy sample_tables)).1.tables.domains
        ≡ sample_tables.domains)
unfolding lookup
log_domain_hit-counts_example =
    log_domain_hit-counts [] "ads.example" "ads.example" sample_tables refl
