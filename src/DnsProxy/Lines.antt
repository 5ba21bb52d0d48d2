-- ===== src/DnsProxy/Lines.antt =====
-- src/dbl/dnsproxy/unbound.cxx and dnsmasq.cxx: generate_domains_config and create_config. A
-- missing template is found out with the file already open, which stays empty.
use Prim.Native.String.{String}
use dbl_service.Prelude.{
  Bool, true, false, not, ◌&&◌, List, [], ◌∷◌, ◌++◌, ◌==◌, if◌then◌else◌, put,
}
use dbl_service.Fallible.{Result, ok, err, runtime_error, Exec, pure, throw, ◌>>=◌}
use dbl_service.Fallible.Results.{lift}
use dbl_service.Types.{Domain}
use dbl_service.Storage.{Store}
use dbl_service.Manager.Domains
use dbl_service.DnsProxy.{
  Config, Host, Kind, Proxy, ipv4, ipv6, save_domain, unless, render, load, generate_config,
  interface_lines, template_name, file_name, include_line, missing_file, invalid_include,
}

module _ (config : Config) (kind : Kind) where
  abbrev pub lines_of : String → List String
  lines_of name =
      unless config.network_no_ip4 (save_domain kind ipv4 name config.network_ip4address)
      ++ unless config.network_no_ip6 (save_domain kind ipv6 name config.network_ip6address)

  unfoldable pub lines_each : List String → List String
  lines_each [] = []
  lines_each (n ∷ ns) = lines_of n ++ lines_each ns

  unfoldable pub lines_domains : List Domain → List String
  lines_domains [] = []
  lines_domains (d ∷ ds) = lines_of d.name ++ lines_domains ds

  unfoldable pub generate_domains_config : List String → Exec Store (List String)
  generate_domains_config names = do
    found ← Domains.get 0
    pure (lines_each names ++ lines_domains found)

abbrev kept_lines : List (Bool × String) → List String
kept_lines [] = []
kept_lines ((true, l) ∷ ls) = l ∷ kept_lines ls
kept_lines ((false, l) ∷ ls) = kept_lines ls

module _ (host : Host) (config : Config) (p : Proxy) where
  -- The lines above the domains.
  unfoldable pub head_lines : Result (List String)
  head_lines =
      if config.no_system_dns_proxy
      then elim (load host config.templates_dir (template_name p.kind)) [
        | err e ↦ err e
        | ok content ↦ ok (
            render host content
              (generate_config config (put "GENERATION_TIME" host.local_time p.entries))
            ∷ kept_lines (interface_lines config p.kind))
      ]
      else ok (include_line p.kind ∷ [])

  -- config_file_path_
  unfoldable pub destination : Result String
  destination =
      if config.no_system_dns_proxy
      then ok (host.join_path config.dns_proxy_config_dest_dir (file_name p.kind))
      else if host.is_directory config.dns_proxy_include_dir
      then ok (host.join_path config.dns_proxy_include_dir "dnsblocker.conf")
      else err (runtime_error (invalid_include config.dns_proxy_include_dir))

  -- The files that are opened and what is written to them, and how it ends.
  abbrev pub Generated : Type 0
  Generated = List (String × List String) × Result (Unit {0})

  abbrev pub filled : String → Result (List String) → Exec Store Generated
  filled path (err e) = pure ((path, []) ∷ [], err e)
  filled path (ok above) = do
    domains ← generate_domains_config config p.kind p.domains
    pure ((path, above ++ domains) ∷ [], ok tt)

  abbrev pub written : Bool → Exec Store Generated
  written false = pure ([], ok tt)
  written true = do path ← lift destination; filled path head_lines

  unfoldable pub create_config : Exec Store Generated
  create_config =
      if not (config.dns_proxy_config == "") && not (host.exists config.dns_proxy_config)
      then throw (runtime_error (missing_file config.dns_proxy_config))
      else written config.dns_proxy_generate_config
