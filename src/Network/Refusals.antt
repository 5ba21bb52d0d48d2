-- ===== src/Network/Refusals.antt =====
-- When the configurator accepts the machine's interfaces.
use Prim.Native.String.{◌++◌}
use dbl_service.Prelude.{
  String, Bool, true, ◌||◌, ◌&&◌, List, [], ◌∷◌, ◌==◌, if◌then◌else◌, any, ◌≡◌, refl, arith,
  Bool-cases, inl, inr,
}
use dbl_service.Fallible.{ok, err, runtime_error}
use dbl_service.DnsProxy.{Proxy}
use dbl_service.Network.{
  Config, Network, run_network_discovery, configure_interface, choose_interface, has_interface,
  has_address, configure, configure_dns_proxy,
}

implied : (a b c d : Bool) → ((a && b) || c) ≡ true → (c ≡ true → d ≡ true) → (a || d) ≡ true
implied a b c d h k = ground (arith, h, k)

has_address-has_interface :
    (found : List (String × String)) (interface ip : String)
    → has_address found interface ip ≡ true
    → has_interface found interface ≡ true
unfolding has_address has_interface any
has_address-has_interface [] interface ip h = h
has_address-has_interface ((name, address) ∷ found) interface ip h =
    implied (name == interface) (address == ip) _ _ h (has_address-has_interface found interface ip)

configure_interface-fails :
    (net : Network) → configure_interface net ≡ err (runtime_error "Interface configuration failed")
unfolding configure_interface
configure_interface-fails net = ground arith

-- Where an interface is chosen and the interfaces of the machine can be listed, the configurator
-- accepts them exactly if the interface already has the IPv4 address, and then it gives the proxy the
-- name of its pid file; it refuses an interface without the address, whatever the calls that set the
-- address answer, and one that is not there.
pub configure-accepts :
    (c : Config) (net : Network) (proxy : Proxy) (interface : String)
    (found : List (String × String))
    → choose_interface c ≡ ok interface
    → run_network_discovery net ≡ ok found
    → configure c net proxy ≡ (
        if has_address found interface c.network_ip4address
        then ok (configure_dns_proxy c proxy)
        else if has_interface found interface
        then err (runtime_error "Interface configuration failed")
        else err (runtime_error ("Invalid interface: " ++ interface)))
unfolding configure
configure-accepts c net proxy interface found chosen listed =
    elim (Bool-cases (has_address found interface c.network_ip4address)) [
      | inl h ↦ simp (chosen, listed, h, has_address-has_interface found interface _ h) refl
      | inr h ↦ elim (Bool-cases (has_interface found interface)) [
        | inl k ↦ simp (chosen, listed, h, k, configure_interface-fails net) refl
        | inr k ↦ simp (chosen, listed, h, k) refl
      ]
    ]
