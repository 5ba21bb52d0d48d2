-- ===== src/Tests/Tools.antt =====
-- The management tool and the DNS proxy's configuration on the sample database.
use dbl_service.Prelude.{String, ◌≡◌, refl, true, false, List, [], ◌∷◌, any, contains, lookup}
use dbl_service.Fallible.{ok}
use dbl_service.Validator.{is_valid}
use dbl_service.Storage.Statements.{
  select_blocked, select_whitelisted, id_of, join, order_by_name, matches, insert_by_name,
}
use dbl_service.Storage.Session.{healthy}
use dbl_service.Storage.Integrity.Queries.{has_domain}
use dbl_service.Manager.Blocking.Lists.{after}
use dbl_service.Mgmt.{Request, manage_domains}
use dbl_service.Mgmt.Conflicts.{manage_domains-blocks}
use dbl_service.DnsProxy.{Config, dnsmasq, ipv4, save_domain}
use dbl_service.DnsProxy.Lines.{generate_domains_config}
use dbl_service.DnsProxy.Redirects.{generate-redirects}
use dbl_service.Tests.Sample.{sample_json, sample_tables, sample_resolver}
use dbl_service.Tests.Managers.{sample_IsConsistent}

-- The same name is given to be blocked and to be unblocked.
abbrev both_ways : Request
both_ways = record {
  add_list = false;
  delete_list = "";
  export_list = "";
  enable_list = "";
  disable_list = "";
  block = "track.example" ∷ [];
  unblock = "track.example" ∷ [];
  list_name = "";
  list_url = "";
  list_description = "";
  is_fatal = false;
}

manage_domains-blocks_example :
    has_domain "track.example"
      (select_blocked (after (manage_domains sample_json sample_resolver both_ways) sample_tables))
    ≡ false
unfolding id_of any contains is_valid lookup
manage_domains-blocks_example =
    manage_domains-blocks sample_resolver sample_json both_ways "track.example" 1 2 sample_tables
      refl sample_IsConsistent refl refl refl refl

abbrev sample_config : Config
sample_config = record {
  dns_proxy = "dnsmasq";
  dns_proxy_config = "";
  dns_proxy_generate_config = true;
  no_system_dns_proxy = true;
  dns_proxy_include_dir = "";
  dns_proxy_config_dest_dir = "/etc";
  templates_dir = "/templates";
  dns_proxy_workdir = "";
  base_dir = "/";
  dns_proxy_user = "dns";
  dns_proxy_chroot = "";
  dns_proxy_logfile = "";
  dns_proxy_port = "53";
  dns_proxy_disable_dnssec = true;
  dns_proxy_root_key = "";
  network_no_ip4 = false;
  network_no_ip6 = true;
  network_ip4address = "10.0.0.1";
  network_ip6address = "";
}

-- "good.example" is whitelisted.
whitelisted : has_domain "good.example" (select_whitelisted sample_tables) ≡ true
unfolding select_whitelisted join matches any
whitelisted = refl

generate-redirects_example :
    (lines : List String) × (generate_domains_config sample_config dnsmasq []
        (healthy sample_tables)
      ≡ (ok lines, healthy sample_tables))
    × (contains (save_domain dnsmasq ipv4 "good.example" "10.0.0.1") lines ≡ true)
unfolding select_blocked select_whitelisted join matches order_by_name insert_by_name any
generate-redirects_example =
    generate-redirects sample_config dnsmasq "good.example" refl [] sample_tables
      sample_IsConsistent refl
