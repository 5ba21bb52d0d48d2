-- ===== src/Options/Proxies.antt =====
-- What the names that validate_options lets through are to the DNS proxy's factory, and to the configurator,
-- which does not put them into lower case.
use dbl_service.Prelude.{
  String, Bool, true, false, ◌||◌, not, if◌then◌else◌, ◌≡◌, refl, ◌==◌, Bool-cases, inl, inr, arith,
  eq_iff,
}
use dbl_service.Fallible.{Error, ok, err, runtime_error}
use dbl_service.DnsProxy
use dbl_service.DnsProxy.{Host, Proxy}
use dbl_service.Network
use dbl_service.Network.{get_proxy_executable_name}
use dbl_service.Options.{Variables, validate_options, get_text}

accepted :
    (a b : Bool)
    → (if not a
        then (if not b then err (runtime_error "Invalid dnsproxy software") else ok tt)
        else ok (tt {0}))
      ≡ ok tt
    → (a || b) ≡ true
accepted true b h = refl
accepted false true h = refl
accepted false false h = cc

one_of :
    {A : Type 0} (a b : Bool) (x y : A) (e : Error)
    → (b || a) ≡ true
    → (p : A) × ((if a then ok x else if b then ok y else err e) ≡ ok p)
one_of true b x y e h = (x, refl)
one_of false true x y e h = (y, refl)
one_of false false x y e h = ground (arith, h)

validated :
    (to_lower : String → String) (vm : Variables) (name : String)
    → get_text "dns-proxy" vm ≡ ok name
    → validate_options to_lower vm ≡ ok tt
    → ((to_lower name == "unbound") || (to_lower name == "dnsmasq")) ≡ true
unfolding validate_options
validated to_lower vm name e h =
    accepted (to_lower name == "unbound") (to_lower name == "dnsmasq") (rw e at h)

created :
    (host : Host) (config : DnsProxy.Config)
    → ((host.to_lower config.dns_proxy == "unbound")
        || (host.to_lower config.dns_proxy == "dnsmasq"))
      ≡ true
    → (p : Proxy) × (DnsProxy.create host config ≡ ok p)
unfolding DnsProxy.create
created host config h =
    one_of (host.to_lower config.dns_proxy == "dnsmasq")
      (host.to_lower config.dns_proxy == "unbound") _ _ _ h

named :
    (to_lower : String → String) (n : String)
    → to_lower "unbound" ≡ "unbound"
    → to_lower "dnsmasq" ≡ "dnsmasq"
    → ((to_lower n == "unbound") || (to_lower n == "dnsmasq")) ≡ true
    → (if n == "dnsmasq"
        then ok "dnsmasq"
        else if n == "unbound"
        then ok "unbound"
        else err (runtime_error "Invalid dns proxy"))
      ≡ (if to_lower n == n then ok n else err (runtime_error "Invalid dns proxy"))
named to_lower n u d h = elim (Bool-cases (n == "dnsmasq")) [
  | inl p ↦ rw ((eq_iff n "dnsmasq").0 p, d) refl
  | inr p ↦ elim (Bool-cases (n == "unbound")) [
    | inl q ↦ rw ((eq_iff n "unbound").0 q, u) refl
    | inr q ↦ elim (Bool-cases (to_lower n == n)) [
      | inl r ↦ let k = rw ((eq_iff (to_lower n) n).0 r, p, q) at h in cc
      | inr r ↦ rw (p, q, r) refl
    ]
  ]
]

-- Where the options are valid, there is a proxy for the name; but the configurator knows the name, without
-- which the system's proxy is not started, only if it is written in lower case.
pub validate_options-names :
    (host : Host) (vm : Variables) (config : DnsProxy.Config) (c : Network.Config)
    → host.to_lower "unbound" ≡ "unbound"
    → host.to_lower "dnsmasq" ≡ "dnsmasq"
    → get_text "dns-proxy" vm ≡ ok config.dns_proxy
    → c.dns_proxy ≡ config.dns_proxy
    → validate_options host.to_lower vm ≡ ok tt
    → ((p : Proxy) × (DnsProxy.create host config ≡ ok p))
      × (get_proxy_executable_name c ≡ (
          if host.to_lower c.dns_proxy == c.dns_proxy
          then ok c.dns_proxy
          else err (runtime_error "Invalid dns proxy")))
unfolding get_proxy_executable_name
validate_options-names host vm config c u d given same valid =
    let h = validated host.to_lower vm config.dns_proxy given valid in
    (created host config h, named host.to_lower c.dns_proxy u d (rw same h))
