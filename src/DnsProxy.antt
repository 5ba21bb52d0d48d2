-- ===== src/DnsProxy.antt =====
-- src/dbl/dnsproxy and src/dbl/template: the configuration file of the DNS proxy, as a list of lines. The
-- file system, the clock and boost's replace_all are parameters.
pub mod Lines
pub mod Redirects
use Prim.Native.String.{◌++◌, compare}
use text.Mathlib.Text.{is_le}
use dbl_service.Prelude.{
  ℕ, String, Bool, true, false, not, Option, none, some, List, [], ◌∷◌, ◌==◌, if◌then◌else◌, Assoc,
  put, length,
}
use dbl_service.Fallible.{Result, ok, err, runtime_error, Exec, pure, throw, ◌>>=◌}
use dbl_service.Types.{Domain}
use dbl_service.Storage.{Store}
use dbl_service.Manager.Domains

-- The fields of config::Config that are read here; dns_proxy_port as its decimal text.
pub record Config : Type 0 where
  pub dns_proxy : String
  pub dns_proxy_config : String
  pub dns_proxy_generate_config : Bool
  pub no_system_dns_proxy : Bool
  pub dns_proxy_include_dir : String
  pub dns_proxy_config_dest_dir : String
  pub templates_dir : String
  pub dns_proxy_workdir : String
  pub base_dir : String
  pub dns_proxy_user : String
  pub dns_proxy_chroot : String
  pub dns_proxy_logfile : String
  pub dns_proxy_port : String
  pub dns_proxy_disable_dnssec : Bool
  pub dns_proxy_root_key : String
  pub network_no_ip4 : Bool
  pub network_no_ip6 : Bool
  pub network_ip4address : String
  pub network_ip6address : String

-- boost::filesystem, the content of a file, the time as text, replace_all(content, key, value)
pub record Host : Type 0 where
  pub exists : String → Bool
  pub is_directory : String → Bool
  pub join_path : String → String → String
  pub read_file : String → String
  pub local_time : String
  pub replace_all : String → String → String → String
  pub to_lower : String → String

pub data Protocol : Type 0 where
  ipv4 : Protocol
  ipv6 : Protocol

pub data Kind : Type 0 where
  unbound : Kind
  dnsmasq : Kind

-- A proxy: its kind, the members domains_, which std::set keeps in order, and config_.
pub record Proxy : Type 0 where
  pub kind : Kind
  pub domains : List String
  pub entries : Assoc String

-- std::set::insert and erase
unfoldable pub insert_name : String → List String → List String
insert_name n [] = n ∷ []
insert_name n (m ∷ ms) =
    let rest = insert_name n ms in
    if n == m then m ∷ ms else if is_le (compare n m) then n ∷ m ∷ ms else m ∷ rest

unfoldable pub erase_name : String → List String → List String
erase_name n [] = []
erase_name n (m ∷ ms) = let rest = erase_name n ms in if n == m then rest else m ∷ rest

unfoldable pub add_domain : String → Proxy → Proxy
unfolding insert_name
add_domain n p = record p { domains = insert_name n p.domains }

unfoldable pub remove_domain : String → Proxy → Proxy
unfolding erase_name
remove_domain n p = record p { domains = erase_name n p.domains }

unfoldable pub count_domains : Proxy → ℕ
count_domains p = length p.domains

unfoldable pub set_value : String → String → Proxy → Proxy
set_value k v p = record p { entries = put k v p.entries }

-- dnsproxy::create
unfoldable pub create : Host → Config → Result Proxy
create host config =
    let name = host.to_lower config.dns_proxy in
    if name == "dnsmasq"
    then ok (record { kind = dnsmasq; domains = []; entries = [] })
    else if name == "unbound"
    then ok (record { kind = unbound; domains = []; entries = [] })
    else err (runtime_error ("No support for: " ++ name))

abbrev pub type_text : Protocol → String
type_text ipv4 = "A"
type_text ipv6 = "AAAA"

-- save_domain of Unbound and of DNSMasq
unfoldable pub save_domain : Kind → Protocol → String → String → String
save_domain unbound proto domain address =
    "    " ++ "local-data: \"" ++ domain ++ " IN " ++ type_text proto ++ " " ++ address ++ "\""
save_domain dnsmasq proto domain address = "address=/." ++ domain ++ "/" ++ address

abbrev pub unless : Bool → String → List String
unless true line = []
unless false line = line ∷ []

-- Template::render
unfoldable pub render : Host → String → Assoc String → String
render host content [] = content
render host content ((k, v) ∷ m) = render host (host.replace_all content ("$" ++ k) v) m

-- Template::load
unfoldable pub load : Host → String → String → Result String
load host root name =
    let path = host.join_path root name in
    if host.exists path
    then ok (host.read_file path)
    else err (runtime_error ("Template not found: " ++ path))

-- DNSProxy::generate_config
unfoldable pub generate_config : Config → Assoc String → Assoc String
generate_config config entries =
    let directory =
      if config.dns_proxy_workdir == "" then config.base_dir else config.dns_proxy_workdir in
    let a = put "DIRECTORY" directory entries in
    let b = put "USER" config.dns_proxy_user a in
    let c = put "CHROOT" config.dns_proxy_chroot b in
    let d = put "LOGFILE" config.dns_proxy_logfile c in put "PORT" config.dns_proxy_port d

-- The lines on the addresses to listen on, and on the trust anchor.
unfoldable pub interface_lines : Config → Kind → List (Bool × String)
interface_lines c unbound =
    (true, if c.network_no_ip4 then "    do-ip4: no" else "    interface: " ++ c.network_ip4address)
    ∷ (
      true,
      if c.network_no_ip6 then "    do-ip6: no" else "    interface: " ++ c.network_ip6address,
    )
    ∷ (
      not c.dns_proxy_disable_dnssec,
      "    auto-trust-anchor-file: \"" ++ c.dns_proxy_root_key ++ "\"",
    )
    ∷ (true, "")
    ∷ []
interface_lines c dnsmasq =
    (c.network_no_ip4, "interface: " ++ c.network_ip4address)
    ∷ (c.network_no_ip6, "interface: " ++ c.network_ip6address)
    ∷ (true, "")
    ∷ []

abbrev pub template_name : Kind → String
template_name unbound = "unbound.conf"
template_name dnsmasq = "dnsmasq.conf"

abbrev pub file_name : Kind → String
file_name unbound = "proxy-unbound.conf"
file_name dnsmasq = "proxy-dnsmasq.conf"

-- What precedes the domains where the system's proxy includes the file.
abbrev pub include_line : Kind → String
include_line unbound = "server:"
include_line dnsmasq = ""

abbrev pub missing_file : String → String
missing_file path = "Configuration file does not exist: " ++ path

abbrev pub invalid_include : String → String
invalid_include path = "Invalid system dns proxy include dir: " ++ path
