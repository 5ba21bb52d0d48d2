-- ===== src/Tests/Daemons.antt =====
-- The configurator, the options and the master process on a sample machine.
use dbl_service.Prelude.{
  String, ◌≡◌, ◌≤◌, refl, true, false, any, Option, none, some, List, [], ◌∷◌, length, lookup, ◌==◌,
  if◌then◌else◌,
}
use dbl_service.Prelude.Integers.{pos}
use dbl_service.Fallible.{runtime_error, err, ok}
use dbl_service.DnsProxy
use dbl_service.DnsProxy.{Proxy, unbound}
use dbl_service.Network
use dbl_service.Network.{
  Network, run_network_discovery, choose_interface, has_address, has_interface, configure,
  configure_dns_proxy, get_proxy_executable_name,
}
use dbl_service.Network.Refusals.{configure-accepts}
use dbl_service.Daemon.{Config, Host, State, sighup, exited, save_pidfile, start_dns_proxy}
use dbl_service.Daemon.Processes.{process_master}
use dbl_service.Daemon.Ending.{has_pidfile, process_master-ends}
use dbl_service.Daemon.Commands.{start_dns_proxy-bounded}
use dbl_service.Config
use dbl_service.Config.{unix_config}
use dbl_service.Options.Table.{flag, text}
use dbl_service.Options.{Parser, Variables, parse, validate_options, get_text}
use dbl_service.Options.Settings.{parse-no_close_fds}
use dbl_service.Options.Proxies.{validate_options-names}

abbrev pub sample_network : Network
sample_network = record {
  socket_opens = true;
  lists_interfaces = true;
  interfaces = ("lo", "127.0.0.1") ∷ ("eth0", "10.0.0.2") ∷ [];
  sets_address = true;
  gets_flags = true;
}

abbrev network_config : String → Network.Config
network_config ip = record {
  network_ip4address = ip;
  network_ip6address = "::1";
  network_interface = "lo";
  dns_proxy = "unbound";
  dns_proxy_executable = "";
  dns_proxy_pidfile = "/var/run/dnsblocker/proxy.pid";
}

abbrev sample_proxy : Proxy
sample_proxy = record { kind = unbound; domains = []; entries = [] }

-- The loopback interface has no address 127.0.0.53, and is refused.
configure-accepts_example :
    configure (network_config "127.0.0.53") sample_network sample_proxy
    ≡ err (runtime_error "Interface configuration failed")
unfolding choose_interface run_network_discovery has_address has_interface any
configure-accepts_example =
    configure-accepts (network_config "127.0.0.53") sample_network sample_proxy "lo"
      (("lo", "127.0.0.1") ∷ ("eth0", "10.0.0.2") ∷ []) refl refl

abbrev sample_config : Config
sample_config = record {
  network = network_config "127.0.0.1";
  service_pidfile = "/run/service.pid";
  no_system_dns_proxy = false;
  dns_proxy_generate_config = true;
  proxy_config_path = "/run/proxy.conf";
}

-- pidof finds another process after the second command, and only systemctl can restart the proxy.
abbrev sample_shell : List String → String → Option String
sample_shell before c =
    if c == "/usr/bin/pidof unbound"
    then some (elim before [ [] ↦ "7" | x ∷ xs ↦ "8" ])
    else if c == "/usr/sbin/systemctl restart unbound"
    then some ""
    else none

abbrev pub sample_host : Host
sample_host = record {
  shell = sample_shell;
  trim = λ s. s;
  atoi = λ s. if s == "7" then pos 7 else pos 8;
  parent_path = λ p. "/run";
  is_directory = λ p. true;
  create_directories = λ p. none;
  can_write = λ p. true;
  is_alive = λ p. true;
  getpid = "5";
  is_executable = λ p. p == "/usr/bin/pidof";
  unlinks = λ p. true;
}

abbrev pub idle_state : State
idle_state = record {
  commands = [];
  files = [];
  signaled_exit = false;
  system_proxy_was_running = false;
  semaphore = 0;
  terminations = 0;
}

abbrev saved_state : State
saved_state = record idle_state { files = ("/run/service.pid", "5") ∷ [] }

process_master-ends_example :
    ((process_master sample_host sample_config (sighup ∷ []) (exited 0) idle_state).0 ≡ ok tt)
    × (has_pidfile sample_host sample_config
          (process_master sample_host sample_config (sighup ∷ []) (exited 0) idle_state).1
        ≡ false)
    × ((process_master sample_host sample_config (sighup ∷ []) (exited 0) idle_state).1.semaphore
        ≡ 1)
    × ((process_master sample_host sample_config
          (sighup ∷ [])
          (exited 0)
          idle_state).1.signaled_exit
        ≡ false)
unfolding save_pidfile start_dns_proxy any
process_master-ends_example =
    process_master-ends sample_host sample_config (sighup ∷ []) (exited 0) idle_state saved_state
      refl

start_dns_proxy-bounded_example :
    length (start_dns_proxy sample_host sample_config idle_state).1.commands ≤ 37
start_dns_proxy-bounded_example = start_dns_proxy-bounded sample_host sample_config idle_state

-- The command line `--no-close-fds`, with no configuration file.
abbrev sample_parser : Parser
sample_parser = record {
  platform = some "linux";
  store_command_line = λ declared vm.
      ok (("no-chdir", flag false) ∷ ("no-close-fds", flag true) ∷ ("no-config", flag true) ∷ []);
  store_config_file = λ declared content vm. ok vm;
  exists = λ p. false;
  read_file = λ p. none;
}

abbrev sample_variables : Variables
sample_variables =
    ("no-chdir", flag false) ∷ ("no-close-fds", flag true) ∷ ("no-config", flag true) ∷ []

abbrev parsed_config : Config.Config
parsed_config = record unix_config { no_chdir = true; http_responder_enable = true }

parse-no_close_fds_example : parsed_config.no_close_fds ≡ unix_config.no_close_fds
unfolding parse
parse-no_close_fds_example =
    parse-no_close_fds unix_config sample_parser sample_variables parsed_config refl

abbrev pub text_host : DnsProxy.Host
text_host = record {
  exists = λ p. false;
  is_directory = λ p. false;
  join_path = λ p q. p;
  read_file = λ p. "";
  local_time = "";
  replace_all = λ t k v. t;
  to_lower = λ s. if s == "Unbound" then "unbound" else s;
}

abbrev proxy_config : DnsProxy.Config
proxy_config = record {
  dns_proxy = "Unbound";
  dns_proxy_config = "";
  dns_proxy_generate_config = true;
  no_system_dns_proxy = false;
  dns_proxy_include_dir = "";
  dns_proxy_config_dest_dir = "";
  templates_dir = "";
  dns_proxy_workdir = "";
  base_dir = "";
  dns_proxy_user = "";
  dns_proxy_chroot = "";
  dns_proxy_logfile = "";
  dns_proxy_port = "53";
  dns_proxy_disable_dnssec = false;
  dns_proxy_root_key = "";
  network_no_ip4 = false;
  network_no_ip6 = false;
  network_ip4address = "";
  network_ip6address = "";
}

abbrev capital_config : Network.Config
capital_config = record (network_config "127.0.0.1") { dns_proxy = "Unbound" }

-- The option `--dns-proxy Unbound` is valid, and the service cannot start with it.
validate_options-names_example :
    ((p : Proxy) × (DnsProxy.create text_host proxy_config ≡ ok p))
    × (get_proxy_executable_name capital_config ≡ err (runtime_error "Invalid dns proxy"))
unfolding get_text validate_options lookup
validate_options-names_example =
    validate_options-names text_host (("dns-proxy", text "Unbound") ∷ []) proxy_config
      capital_config refl refl refl refl refl
