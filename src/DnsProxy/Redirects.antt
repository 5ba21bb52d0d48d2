-- ===== src/DnsProxy/Redirects.antt =====
-- Which domains the generated configuration answers with the service's own address.
use dbl_service.Prelude.{
  ℕ, String, ◌≡◌, refl, Bool, true, false, ◌&&◌, ◌||◌, Option, none, some, List, [], ◌∷◌, ◌++◌,
  arith, any, contains, lookup, eqb, ◌==◌, eq_iff, eq_refl, ◌∙◌, Bool-cases, inl, inr,
}
use dbl_service.Fallible.{ok, pure, ◌>>=◌}
use dbl_service.Types.{Domain}
use dbl_service.Storage.{ListRow, Tables}
use dbl_service.Storage.Statements.{select_domains, select_blocked, select_whitelisted}
use dbl_service.Storage.Session.{healthy, statement}
use dbl_service.Storage.Integrity.{IsConsistent}
use dbl_service.Storage.Integrity.Queries.{has_domain, admitted, has_domain-join, has_domain-order}
use dbl_service.Manager.Domains
use dbl_service.Manager.Blocking.Lists.{
  blocks, allows, has_domain-select_blocked, has_domain-select_whitelisted,
}
use dbl_service.DnsProxy.{Config, Kind, ipv4, save_domain}
use dbl_service.DnsProxy.Lines.{lines_of, lines_each, lines_domains, generate_domains_config}

contains-append :
    (n : String) (xs ys : List String) → contains n (xs ++ ys) ≡ (contains n xs || contains n ys)
unfolding contains
contains-append n [] ys = refl
contains-append n (x ∷ xs) ys = ground (arith, contains-append n xs ys)

active-any :
    (on : ListRow → Bool) (i : ℕ) (ls : List ListRow)
    → ((l : ListRow) → on l ≡ true → l.active ≡ true)
    → any (λ l. on l && eqb l.id i) ls ≡ true
    → any (λ l. l.active && eqb l.id i) ls ≡ true
unfolding any
active-any on i [] f h = absurd (cc h)
active-any on i (l ∷ ls) f h = elim (Bool-cases (on l)) [
  | inl e ↦ ground (arith, e, f l e, active-any on i ls f)
  | inr e ↦ ground (arith, e, active-any on i ls f)
]

active-admitted :
    (on : ListRow → Bool) (ls : List ListRow) (o : Option ℕ)
    → ((l : ListRow) → on l ≡ true → l.active ≡ true)
    → admitted on ls o ≡ true
    → admitted (λ l. l.active) ls o ≡ true
active-admitted on ls none f h = h
active-admitted on ls (some i) f h = active-any on i ls f h

has_domain-select_domains :
    (n : String) (t : Tables)
    → IsConsistent t
    → has_domain n (select_domains 0 t) ≡ admitted (λ l. l.active) t.lists (lookup n t.domains)
unfolding select_domains
has_domain-select_domains n t h =
    has_domain-order n _ ∙ has_domain-join (λ l. l.active) n t.lists t.domains h.domains_keys

-- A name that is blocked or whitelisted is among all the domains of active lists.
listed :
    (n : String) (t : Tables)
    → IsConsistent t
    → (has_domain n (select_blocked t) || has_domain n (select_whitelisted t)) ≡ true
    → has_domain n (select_domains 0 t) ≡ true
listed n t h e =
    rw (has_domain-select_domains n t h) (elim (Bool-cases (has_domain n (select_blocked t))) [
      | inl b ↦
          active-admitted blocks t.lists (lookup n t.domains) (λ l a. ground arith)
            (rw⁻¹ (has_domain-select_blocked n t h) b)
      | inr b ↦
          active-admitted allows t.lists (lookup n t.domains) (λ l a. ground arith)
            (rw⁻¹ (has_domain-select_whitelisted n t h) (ground (arith, b, e)))
    ])

module _ (config : Config) (kind : Kind) (n : String) (on : config.network_no_ip4 ≡ false) where
  abbrev line : String
  line = save_domain kind ipv4 n config.network_ip4address

  lines_of-contains : contains line (lines_of config kind n) ≡ true
  unfolding contains
  lines_of-contains = simp on (ground (arith, eq_refl line))

  lines_domains-contains :
      (ds : List Domain)
      → has_domain n ds ≡ true
      → contains line (lines_domains config kind ds) ≡ true
  unfolding lines_domains any
  lines_domains-contains [] h = absurd (cc h)
  lines_domains-contains (d ∷ ds) h =
      rw (contains-append line (lines_of config kind d.name) (lines_domains config kind ds))
        (elim (Bool-cases (d.name == n)) [
          | inl e ↦
              let first : contains line (lines_of config kind d.name) ≡ true =
                rw ((eq_iff d.name n).0 e) lines_of-contains in
              rw first refl
          | inr e ↦
              let later = lines_domains-contains ds (ground (arith, h, e)) in ground (arith, later)
        ])

  -- Where IPv4 is in use and the database answers, the lines for the domains have the record of the
  -- service's address for each domain that get_blocked_domains returns, and also for each domain that
  -- get_all_whitelisted_domains returns: the proxy redirects whitelisted domains too.
  pub generate-redirects :
      (names : List String) (t : Tables)
      → IsConsistent t
      → (has_domain n (select_blocked t) || has_domain n (select_whitelisted t)) ≡ true
      → (lines : List String) × (generate_domains_config config kind names (healthy t)
          ≡ (ok lines, healthy t))
        × (contains (save_domain kind ipv4 n config.network_ip4address) lines ≡ true)
  unfolding generate_domains_config Domains.get ◌>>=◌ pure statement
  generate-redirects names t h e =
      let below = lines_domains config kind (select_domains 0 t) in
      let found = lines_domains-contains (select_domains 0 t) (listed n t h e) in
      (
        lines_each config kind names ++ below,
        refl,
        rw (contains-append line (lines_each config kind names) below) (ground (arith, found)),
      )
