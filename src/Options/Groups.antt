-- ===== src/Options/Groups.antt =====
-- The options that src/dbl/options/options.cxx declares, by group: the name, the default, and the member
-- of the configuration that notify() writes.
use dbl_service.Prelude.{String, false, Option, none, some, [], ◌∷◌, ◌++◌, map, Assoc}
use dbl_service.Config.{Config}
use dbl_service.Options.Table.{
  Value, flag, text, Declared, switch, flag_option, number_option, text_option, texts_option,
}

unfoldable pub generic_options : Assoc Declared
generic_options =
    ("debug", switch (λ x c. record c { is_debug = x }))
    ∷ ("fatal", switch (λ x c. record c { is_fatal = x }))
    ∷ ("foreground", switch (λ x c. record c { is_foreground = x }))
    ∷ ("verbose", switch (λ x c. record c { is_verbose = x }))
    ∷ ("test", switch (λ x c. record c { is_test = x }))
    ∷ []

unfoldable pub service_options : String → Assoc Declared
service_options current_platform =
    ("basedir", text_option (λ c. c.base_dir) (λ x c. record c { base_dir = x }))
    ∷ ("config", text_option (λ c. c.service_config) (λ x c. record c { service_config = x }))
    ∷ ("db", text_option (λ c. c.service_db) (λ x c. record c { service_db = x }))
    ∷ ("logfile", text_option (λ c. c.service_logfile) (λ x c. record c { service_logfile = x }))
    ∷ (
      "logger-config-path",
      text_option (λ c. c.logger_config_path) (λ x c. record c { logger_config_path = x }),
    )
    ∷ ("no-chdir", switch (λ x c. record c { no_chdir = x }))
    ∷ ("no-close-fds", switch (λ x c. record c { no_chdir = x }))
    ∷ ("pidfile", text_option (λ c. c.service_pidfile) (λ x c. record c { service_pidfile = x }))
    ∷ ("platform", text_option (λ c. current_platform) (λ x c. record c { platform = x }))
    ∷ ("service-port", number_option (λ c. c.service_port) (λ x c. record c { service_port = x }))
    ∷ ("script-dir", text_option (λ c. c.script_dir) (λ x c. record c { script_dir = x }))
    ∷ ("service-user", text_option (λ c. c.service_user) (λ x c. record c { service_user = x }))
    ∷ ("templates-dir", text_option (λ c. c.templates_dir) (λ x c. record c { templates_dir = x }))
    ∷ ("no-system-dns-proxy", switch (λ x c. record c { no_system_dns_proxy = x }))
    ∷ ("no-update", switch (λ x c. record c { no_update = x }))
    ∷ (
      "update-interval",
      number_option (λ c. c.update_interval) (λ x c. record c { update_interval = x }),
    )
    ∷ []

unfoldable pub list_options : Assoc Declared
list_options =
    (
      "disable-list-update",
      flag_option (λ c. c.disable_list_update) (λ x c. record c { disable_list_update = x }),
    )
    ∷ ("list-ids", texts_option (λ x c. record c { list_ids = x }))
    ∷ []

unfoldable pub dns_proxy_options : Assoc Declared
dns_proxy_options =
    ("dns-proxy", text_option (λ c. c.dns_proxy) (λ x c. record c { dns_proxy = x }))
    ∷ (
      "dns-proxy-include-dir",
      text_option (λ c. c.dns_proxy_include_dir) (λ x c. record c { dns_proxy_include_dir = x }),
    )
    ∷ []

unfoldable pub custom_proxy_options : Assoc Declared
custom_proxy_options =
    (
      "dns-proxy-chroot",
      text_option (λ c. c.dns_proxy_chroot) (λ x c. record c { dns_proxy_chroot = x }),
    )
    ∷ ("dns-proxy-config", text_option (λ c. "") (λ x c. record c { dns_proxy_config = x }))
    ∷ (
      "dns-proxy-config-destdir",
      text_option (λ c. c.dns_proxy_config_dest_dir)
          (λ x c. record c { dns_proxy_config_dest_dir = x }),
    )
    ∷ (
      "dns-proxy-disable-dnssec",
      flag_option (λ c. c.dns_proxy_disable_dnssec)
          (λ x c. record c { dns_proxy_disable_dnssec = x }),
    )
    ∷ (
      "dns-proxy-generate-config",
      flag_option (λ c. c.dns_proxy_generate_config)
          (λ x c. record c { dns_proxy_generate_config = x }),
    )
    ∷ (
      "dns-proxy-logfile",
      text_option (λ c. c.dns_proxy_logfile) (λ x c. record c { dns_proxy_logfile = x }),
    )
    ∷ (
      "dns-proxy-pidfile",
      text_option (λ c. c.dns_proxy_pidfile) (λ x c. record c { dns_proxy_pidfile = x }),
    )
    ∷ (
      "dns-proxy-port",
      number_option (λ c. c.dns_proxy_port) (λ x c. record c { dns_proxy_port = x }),
    )
    ∷ (
      "dns-proxy-root-key",
      text_option (λ c. c.dns_proxy_root_key) (λ x c. record c { dns_proxy_root_key = x }),
    )
    ∷ (
      "dns-proxy-user",
      text_option (λ c. c.dns_proxy_user) (λ x c. record c { dns_proxy_user = x }),
    )
    ∷ (
      "dns-proxy-workdir",
      text_option (λ c. c.dns_proxy_workdir) (λ x c. record c { dns_proxy_workdir = x }),
    )
    ∷ []

unfoldable pub network_options : Assoc Declared
network_options =
    (
      "network-interface",
      text_option (λ c. c.network_interface) (λ x c. record c { network_interface = x }),
    )
    ∷ (
      "network-ip4address",
      text_option (λ c. c.network_ip4address) (λ x c. record c { network_ip4address = x }),
    )
    ∷ (
      "network-ip6address",
      text_option (λ c. c.network_ip6address) (λ x c. record c { network_ip6address = x }),
    )
    ∷ (
      "network-no-ip4",
      flag_option (λ c. c.network_no_ip4) (λ x c. record c { network_no_ip4 = x }),
    )
    ∷ (
      "network-no-ip6",
      flag_option (λ c. c.network_no_ip6) (λ x c. record c { network_no_ip6 = x }),
    )
    ∷ []

unfoldable pub http_responder_options : Assoc Declared
http_responder_options =
    ("http-responder-enable", switch (λ x c. record c { http_responder_enable = x }))
    ∷ (
      "http-responder-port",
      number_option (λ c. c.http_responder_port) (λ x c. record c { http_responder_port = x }),
    )
    ∷ (
      "http-responder-status-code",
      number_option (λ c. c.http_responder_status_code)
          (λ x c. record c { http_responder_status_code = x }),
    )
    ∷ (
      "http-responder-status-text",
      text_option (λ c. c.http_responder_status_text)
          (λ x c. record c { http_responder_status_text = x }),
    )
    ∷ []

-- Options with no variable of their own: the name and the default.
unfoldable pub unbound_options : Assoc (Option Value)
unbound_options = ("help", none) ∷ ("no-config", some (flag false)) ∷ []

unfoldable pub query_options : Assoc (Option Value)
query_options =
    ("query", some (flag false))
    ∷ ("domain-lists", some (flag false))
    ∷ ("domains", some (flag false))
    ∷ ("domain", some (text ""))
    ∷ []

unfoldable pub management_options : Assoc (Option Value)
management_options =
    ("block", none)
    ∷ ("unblock", none)
    ∷ ("add-list", some (flag false))
    ∷ ("list-name", some (text ""))
    ∷ ("list-url", some (text ""))
    ∷ ("list-description", some (text ""))
    ∷ ("delete-list", some (text ""))
    ∷ ("enable-list", some (text ""))
    ∷ ("disable-list", some (text ""))
    ∷ ("export-lists", some (text ""))
    ∷ []

-- all_, with the options that have a variable; and what parse() declares of each option, by name.
unfoldable pub all_options : String → Assoc Declared
unfolding generic_options service_options network_options dns_proxy_options custom_proxy_options
    http_responder_options list_options
all_options current_platform =
    generic_options
    ++ service_options current_platform
    ++ network_options
    ++ dns_proxy_options
    ++ custom_proxy_options
    ++ http_responder_options
    ++ list_options

unfoldable pub declarations : String → Config → Assoc (Option Value)
unfolding all_options unbound_options query_options management_options
declarations current_platform c =
    unbound_options
    ++ map (λ (name, d). (name, d.default_value c)) (all_options current_platform)
    ++ management_options
    ++ query_options
