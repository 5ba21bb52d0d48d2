-- ===== src/Config.antt =====
-- src/dbl/config: the configuration, its defaults, and those of Unix.
use Prim.Native.String.{◌++◌}
use dbl_service.Prelude.{String, Bool, true, false, List, [], ◌∷◌}
use dbl_service.Prelude.Integers.{ℤ, pos}

pub record Config : Type 0 where
  pub is_debug : Bool
  pub is_fatal : Bool
  pub is_foreground : Bool
  pub is_test : Bool
  pub is_verbose : Bool
  pub no_chdir : Bool
  pub no_close_fds : Bool
  pub platform : String
  pub base_dir : String
  pub db_dir : String
  pub log_file : String
  pub templates_dir : String
  pub script_dir : String
  pub logger_config_path : String
  pub service_port : ℤ
  pub http_responder_enable : Bool
  pub http_responder_port : ℤ
  pub http_responder_status_code : ℤ
  pub http_responder_status_text : String
  pub network_ip4address : String
  pub network_ip6address : String
  pub network_interface : String
  pub network_no_ip4 : Bool
  pub network_no_ip6 : Bool
  pub no_system_dns_proxy : Bool
  pub no_update : Bool
  pub update_interval : ℤ
  pub dns_proxy : String
  pub dns_proxy_chroot : String
  pub dns_proxy_config : String
  pub dns_proxy_config_dest_dir : String
  pub dns_proxy_disable_dnssec : Bool
  pub dns_proxy_executable : String
  pub dns_proxy_include_dir : String
  pub dns_proxy_generate_config : Bool
  pub dns_proxy_logfile : String
  pub dns_proxy_port : ℤ
  pub dns_proxy_pidfile : String
  pub dns_proxy_root_key : String
  pub dns_proxy_user : String
  pub dns_proxy_workdir : String
  pub service_db : String
  pub service_config : String
  pub service_logfile : String
  pub service_pidfile : String
  pub service_user : String
  pub disable_list_update : Bool
  pub list_ids : List String

-- The initial values of the members; dns_proxy_workdir is base_dir, which is then still empty.
abbrev pub default_config : Config
default_config = record {
  is_debug = false;
  is_fatal = false;
  is_foreground = false;
  is_test = false;
  is_verbose = false;
  no_chdir = false;
  no_close_fds = false;
  platform = "";
  base_dir = "";
  db_dir = "";
  log_file = "";
  templates_dir = "";
  script_dir = "";
  logger_config_path = "log.conf";
  service_port = pos 7654;
  http_responder_enable = true;
  http_responder_port = pos 80;
  http_responder_status_code = pos 404;
  http_responder_status_text = "Not found";
  network_ip4address = "127.0.0.1";
  network_ip6address = "::1";
  network_interface = "";
  network_no_ip4 = false;
  network_no_ip6 = false;
  no_system_dns_proxy = false;
  no_update = false;
  update_interval = pos 3600;
  dns_proxy = "unbound";
  dns_proxy_chroot = "";
  dns_proxy_config = "";
  dns_proxy_config_dest_dir = "";
  dns_proxy_disable_dnssec = false;
  dns_proxy_executable = "unbound";
  dns_proxy_include_dir = "";
  dns_proxy_generate_config = false;
  dns_proxy_logfile = "dbsblocker-proxy.log";
  dns_proxy_port = pos 53;
  dns_proxy_pidfile = "dbsblocker-proxy.pid";
  dns_proxy_root_key = "root.key";
  dns_proxy_user = "unbound";
  dns_proxy_workdir = "";
  service_db = "dbsblocker.db";
  service_config = "dnsblocker.conf";
  service_logfile = "dbsblocker.log";
  service_pidfile = "dbsblocker.pid";
  service_user = "dnsblocker";
  disable_list_update = false;
  list_ids = "CUSTOM" ∷ [];
}

-- The constructor of config::Unix.
abbrev pub unix_config : Config
unix_config = record default_config {
  platform = "unix";
  base_dir = "/etc/dnsblocker";
  db_dir = "/var/lib/dnsblocker";
  log_file = "/var/log/dnsblocker/dnsblocker.log";
  templates_dir = "/etc/dnsblocker" ++ "/templates";
  script_dir = "/etc/dnsblocker" ++ "/scripts/unix";
  logger_config_path = "/etc/dnsblocker" ++ "/log.conf";
  network_interface = "lo";
  dns_proxy = "unbound";
  dns_proxy_config_dest_dir = "/var/run/dnsblocker";
  dns_proxy_executable = "unbound";
  dns_proxy_include_dir = "/etc/" ++ "unbound" ++ "/" ++ "unbound" ++ ".conf.d";
  dns_proxy_logfile = "/var/log/dnsblocker/proxy.log";
  dns_proxy_pidfile = "/var/run/dnsblocker/proxy.pid";
  dns_proxy_root_key = "/etc/dnsblocker" ++ "/dnssec/root.key";
  dns_proxy_user = "unbound";
  dns_proxy_workdir = "/etc/dnsblocker";
  service_db = "/var/lib/dnsblocker" ++ "/dbsblocker.db";
  service_config = "/etc/dnsblocker" ++ "/dnsblocker.conf";
  service_logfile = "/var/log/dnsblocker/service.log";
  service_pidfile = "/var/run/dnsblocker/service.pid";
}
