-- ===== src/Main/Parts.antt =====
-- The fields of the configuration that each part of the program reads. The port's decimal text is a parameter.
use dbl_service.Prelude.{String}
use dbl_service.Prelude.Integers.{ℤ}
use dbl_service.Config.{Config}
use dbl_service.Worker
use dbl_service.Network
use dbl_service.Daemon
use dbl_service.DnsProxy

abbrev pub worker_config : Config → Worker.Config
worker_config c = record {
  update_interval = c.update_interval;
  no_update = c.no_update;
  service_port = c.service_port;
  http_responder_enable = c.http_responder_enable;
  http_responder_port = c.http_responder_port;
  is_foreground = c.is_foreground;
  service_user = c.service_user;
}

abbrev pub network_config : Config → Network.Config
network_config c = record {
  network_ip4address = c.network_ip4address;
  network_ip6address = c.network_ip6address;
  network_interface = c.network_interface;
  dns_proxy = c.dns_proxy;
  dns_proxy_executable = c.dns_proxy_executable;
  dns_proxy_pidfile = c.dns_proxy_pidfile;
}

abbrev pub daemon_config : Config → String → Daemon.Config
daemon_config c path = record {
  network = network_config c;
  service_pidfile = c.service_pidfile;
  no_system_dns_proxy = c.no_system_dns_proxy;
  dns_proxy_generate_config = c.dns_proxy_generate_config;
  proxy_config_path = path;
}

abbrev pub proxy_config : (ℤ → String) → Config → DnsProxy.Config
proxy_config decimal c = record {
  dns_proxy = c.dns_proxy;
  dns_proxy_config = c.dns_proxy_config;
  dns_proxy_generate_config = c.dns_proxy_generate_config;
  no_system_dns_proxy = c.no_system_dns_proxy;
  dns_proxy_include_dir = c.dns_proxy_include_dir;
  dns_proxy_config_dest_dir = c.dns_proxy_config_dest_dir;
  templates_dir = c.templates_dir;
  dns_proxy_workdir = c.dns_proxy_workdir;
  base_dir = c.base_dir;
  dns_proxy_user = c.dns_proxy_user;
  dns_proxy_chroot = c.dns_proxy_chroot;
  dns_proxy_logfile = c.dns_proxy_logfile;
  dns_proxy_port = decimal c.dns_proxy_port;
  dns_proxy_disable_dnssec = c.dns_proxy_disable_dnssec;
  dns_proxy_root_key = c.dns_proxy_root_key;
  network_no_ip4 = c.network_no_ip4;
  network_no_ip6 = c.network_no_ip6;
  network_ip4address = c.network_ip4address;
  network_ip6address = c.network_ip6address;
}
