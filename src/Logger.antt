-- ===== src/Logger.antt =====
-- src/dbl/logger/logger.cxx: how often the HTTP responder was asked for a domain. Reading
-- domains_seen_[domain] adds an entry that is false, which no later read tells from a missing one.
use dbl_service.Prelude.{
  ℕ, suc, String, ◌≡◌, refl, Bool, true, false, Option, none, some, [], ◌∷◌, arith, ◌==◌, eq_iff,
  if◌then◌else◌, Assoc, lookup, Option-cases, inl, inr,
}
use dbl_service.Fallible.{Exec, pure, try_catch, ◌>>◌}
use dbl_service.Storage.{Tables, Store}
use dbl_service.Storage.Session.{healthy, statement, update, transaction}

abbrev pub or_false : Option Bool → Bool
or_false none = false
or_false (some b) = b

-- INSERT OR IGNORE INTO stats_domains(name) values(?)
unfoldable pub insert_stat : String → Tables → Tables
insert_stat name t = elim (lookup name t.stats) [
  | some _ ↦ t
  | none ↦ record t { stats = (name, 0) ∷ t.stats }
]

unfoldable pub increase : String → Assoc ℕ → Assoc ℕ
increase name [] = []
increase name ((n, hits) ∷ m) = (n, if n == name then suc hits else hits) ∷ increase name m

-- UPDATE stats_domains SET hits = hits + 1 WHERE name = ?
unfoldable pub count_hit : String → Tables → Tables
unfolding increase
count_hit name t = record t { stats = increase name t.stats }

abbrev pub unless_seen : Bool → String → Exec Store Unit
unless_seen true domain = pure tt
unless_seen false domain = update (insert_stat domain)

unfoldable pub log_domain_hit : Assoc Bool → String → Exec Store Unit
unfolding transaction insert_stat count_hit
log_domain_hit domains_seen domain =
    try_catch
      (transaction
        do unless_seen (or_false (lookup domain domains_seen)) domain; update (count_hit domain))
      (λ _. pure tt)

-- The hits of a domain; no row stands for none.
abbrev pub hits : String → Tables → ℕ
hits n t = elim (lookup n t.stats) [ none ↦ 0 | some k ↦ k ]

lookup-increase :
    (n j : String) (m : Assoc ℕ)
    → lookup j (increase n m)
      ≡ elim (lookup j m) [ none ↦ none | some k ↦ some (if n == j then suc k else k) ]
unfolding lookup increase
lookup-increase n j [] = refl
lookup-increase n j ((i, k) ∷ m) =
    ground (arith, lookup-increase n j m, eq_iff i j, eq_iff n j, eq_iff i n)

hits-counted :
    (n m : String) (t : Tables)
    → hits m (count_hit n (insert_stat n t)) ≡ (if n == m then suc (hits m t) else hits m t)
unfolding insert_stat count_hit lookup
hits-counted n m t = elim (Option-cases (lookup n t.stats)) [
  | inr (k, e) ↦ ground (arith, e, lookup-increase n m t.stats, eq_iff n m)
  | inl e ↦ ground (arith, e, lookup-increase n m ((n, 0) ∷ t.stats), eq_iff n m)
]

kept :
    (n : String) (t : Tables)
    → ((count_hit n (insert_stat n t)).lists ≡ t.lists)
      × ((count_hit n (insert_stat n t)).settings ≡ t.settings)
      × ((count_hit n (insert_stat n t)).domains ≡ t.domains)
unfolding insert_stat count_hit
kept n t = ground arith

-- On a database that answers, and for a domain that is not marked as seen, log_domain_hit adds one to the
-- hits of that domain, whether it had a row or not, and leaves every other count, the settings, the lists
-- and the domains as they are.
pub log_domain_hit-counts :
    (domains_seen : Assoc Bool) (n m : String) (t : Tables)
    → or_false (lookup n domains_seen) ≡ false
    → (hits m (log_domain_hit domains_seen n (healthy t)).1.tables
        ≡ (if n == m then suc (hits m t) else hits m t))
      × ((log_domain_hit domains_seen n (healthy t)).1.tables.settings ≡ t.settings)
      × ((log_domain_hit domains_seen n (healthy t)).1.tables.lists ≡ t.lists)
      × ((log_domain_hit domains_seen n (healthy t)).1.tables.domains ≡ t.domains)
unfolding log_domain_hit transaction statement
log_domain_hit-counts domains_seen n m t h =
    let same = kept n t in rw h (hits-counted n m t, same.1, same.0, same.2)
