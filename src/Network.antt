-- ===== src/Network.antt =====
-- src/dbl/service/configurator and src/dbl/util/fs.cxx: the network interface that the service uses, and
-- where the programs are. The sockets' ioctl calls and stat() are parameters.
pub mod Refusals
use Prim.Native.String.{◌++◌}
use dbl_service.Prelude.{
  String, Bool, true, false, ◌||◌, ◌&&◌, not, List, [], ◌∷◌, ◌==◌, if◌then◌else◌, any,
}
use dbl_service.Fallible.{Result, ok, err, runtime_error}
use dbl_service.Fallible.Results.{◌>>=◌}
use dbl_service.DnsProxy
use dbl_service.DnsProxy.{Proxy}

-- The fields of config::Config that are read here.
pub record Config : Type 0 where
  pub network_ip4address : String
  pub network_ip6address : String
  pub network_interface : String
  pub dns_proxy : String
  pub dns_proxy_executable : String
  pub dns_proxy_pidfile : String

-- What SIOCGIFCONF gives, name by name, and whether the calls succeed.
pub record Network : Type 0 where
  pub socket_opens : Bool
  pub lists_interfaces : Bool
  pub interfaces : List (String × String)
  pub sets_address : Bool
  pub gets_flags : Bool

-- get_default_interface
abbrev pub default_interface : String
default_interface = "lo"

-- available_interfaces_[item->ifr_name].insert(address): the pairs of a name and an address
unfoldable pub run_network_discovery : Network → Result (List (String × String))
run_network_discovery net =
    if net.socket_opens
    then (if net.lists_interfaces
        then ok net.interfaces
        else err (runtime_error "run_network_discovery(): ioctl(SIOCGIFCONF) failed"))
    else err (runtime_error "run_network_discovery(): socket() failed")

-- Whether SIOCSIFFLAGS succeeds changes nothing, since `failed` is set after it in both cases.
unfoldable pub configure_interface : Network → Result (Unit {0})
configure_interface net =
    let failed = if net.sets_address then not net.gets_flags else true in
    let failed_then = if not failed then true else failed in
    if failed_then then err (runtime_error "Interface configuration failed") else ok tt

-- The interface that configure() settles on.
unfoldable pub choose_interface : Config → Result String
choose_interface c =
    if (c.network_ip4address == "127.0.0.1") || (c.network_ip6address == "::1")
    then ok default_interface
    else if c.network_interface == ""
    then err (
        runtime_error
          ("Create a dedicated interface to use with address: " ++ c.network_ip4address))
    else ok c.network_interface

-- available_interfaces_.count(interface), and available_interfaces_[interface].count(address)
unfoldable pub has_interface : List (String × String) → String → Bool
unfolding any
has_interface found interface = any (λ (name, address). name == interface) found

unfoldable pub has_address : List (String × String) → String → String → Bool
unfolding any
has_address found interface ip =
    any (λ (name, address). (name == interface) && (address == ip)) found

-- Unix::configure_dns_proxy; the base class does nothing more
unfoldable pub configure_dns_proxy : Config → Proxy → Proxy
unfolding DnsProxy.set_value
configure_dns_proxy c proxy = DnsProxy.set_value "PIDFILE" c.dns_proxy_pidfile proxy

abbrev pub require : Bool → String → Result (Unit {0})
require true message = ok tt
require false message = err (runtime_error message)

unfoldable pub configure : Config → Network → Proxy → Result Proxy
unfolding choose_interface run_network_discovery configure_interface has_interface has_address
    configure_dns_proxy
configure c net proxy = do
  interface ← choose_interface c
  found ← run_network_discovery net
  known ← require (has_interface found interface) ("Invalid interface: " ++ interface)
  ready ←
      if has_address found interface c.network_ip4address then ok tt else configure_interface net
  ok (configure_dns_proxy c proxy)

-- dbl::util::fs::find_executable; the parameter says that stat() finds the file and its owner may run it
abbrev pub directories : List String
directories =
    "/bin" ∷ "/sbin" ∷ "/usr/bin" ∷ "/usr/sbin" ∷ "/usr/local/bin" ∷ "/usr/local/sbin" ∷ []

unfoldable pub find_in : (String → Bool) → String → List String → String
find_in runs name [] = ""
find_in runs name (dir ∷ dirs) =
    let rest = find_in runs name dirs in
    let path = dir ++ "/" ++ name in if runs path then path else rest

unfoldable pub find_executable : (String → Bool) → String → String
unfolding find_in
find_executable runs name = find_in runs name directories

unfoldable pub get_proxy_executable_name : Config → Result String
get_proxy_executable_name c =
    if c.dns_proxy == "dnsmasq"
    then ok "dnsmasq"
    else if c.dns_proxy == "unbound"
    then ok "unbound"
    else err (runtime_error "Invalid dns proxy")

unfoldable pub find_proxy_executable : Config → (String → Bool) → Result String
unfolding get_proxy_executable_name find_executable
find_proxy_executable c runs = do
  executable ←
      if c.dns_proxy_executable == ""
      then (do name ← get_proxy_executable_name c; ok (find_executable runs name))
      else ok c.dns_proxy_executable
  if executable == ""
      then err (runtime_error "Unable to locate dns proxy software")
      else ok executable
