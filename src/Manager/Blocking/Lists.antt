-- ===== src/Manager/Blocking/Lists.antt =====
-- What block_domains and unblock_domains of src/dbl/manager/domain_manager.cxx do to the lists of blocked
-- and of whitelisted domains that the queries return.
use dbl_service.Prelude.{
  ℕ, String, ◌≡◌, refl, Bool, true, false, not, ◌&&◌, some, List, [], ◌∷◌, arith, if◌then◌else◌,
  any, contains, lookup, Bool-cases, inl, inr, ◌∙◌, ap, eqb, eqb_iff, eq_iff,
}
use dbl_service.Fallible.{Exec}
use dbl_service.Validator.{Resolution, is_valid}
use dbl_service.Storage.{Tables, ListRow, Store}
use dbl_service.Storage.Statements.{
  has_id, has_name, id_of, on_whitelist, insert_list, select_blocked, select_whitelisted,
}
use dbl_service.Storage.Session.{healthy}
use dbl_service.Storage.Integrity.{IsConsistent, DistinctLists}
use dbl_service.Storage.Integrity.Queries.{has_domain, admitted, has_domain-join, has_domain-order}
use dbl_service.Manager.Integrity.{block_domains-IsSound, unblock_domains-IsSound}
use dbl_service.Manager.Domains.{filter_valid}
use dbl_service.Manager.DomainLists.Creating.{created_id, id_of-none}
use dbl_service.Manager.Blocking.{block_names, unblock_names, block_domains, unblock_domains}
use dbl_service.Manager.Blocking.Effect.{blocked_entry, block_names-healthy, unblock_names-healthy}

-- The conditions of get_blocked_domains and get_all_whitelisted_domains on a list.
abbrev pub blocks : ListRow → Bool
blocks l = l.active && not l.is_whitelist

abbrev pub allows : ListRow → Bool
allows l = l.active && l.is_whitelist

pub has_domain-select_blocked :
    (n : String) (t : Tables)
    → IsConsistent t
    → has_domain n (select_blocked t) ≡ admitted blocks t.lists (lookup n t.domains)
unfolding select_blocked
has_domain-select_blocked n t h =
    has_domain-order n _ ∙ has_domain-join blocks n t.lists t.domains h.domains_keys

pub has_domain-select_whitelisted :
    (n : String) (t : Tables)
    → IsConsistent t
    → has_domain n (select_whitelisted t) ≡ admitted allows t.lists (lookup n t.domains)
unfolding select_whitelisted
has_domain-select_whitelisted n t h = has_domain-join allows n t.lists t.domains h.domains_keys

-- No list has an id that one list's row excludes.
pub absent-admitted :
    (on : ListRow → Bool) (i : ℕ) (ls : List ListRow)
    → has_id i ls ≡ false
    → any (λ l. on l && eqb l.id i) ls ≡ false
unfolding any
absent-admitted on i [] h = refl
absent-admitted on i (l ∷ ls) h = ground (arith, absent-admitted on i ls)

-- A list that allows its names does not block them.
allows-blocks :
    (i : ℕ) (ls : List ListRow)
    → DistinctLists ls
    → any (λ l. allows l && eqb l.id i) ls ≡ true
    → any (λ l. blocks l && eqb l.id i) ls ≡ false
unfolding any
allows-blocks i [] h a = refl
allows-blocks i (l ∷ ls) h a = ground (
  arith,
  allows-blocks i ls h.3,
  absent-admitted blocks i ls,
  absent-admitted allows i ls,
  eqb_iff l.id i,
  h.0,
)

module _ (getaddrinfo : String → Resolution) where
  -- A name that is given and that the resolver knows.
  abbrev pub accepted : String → List String → Bool
  accepted n ds = contains n ds && (is_valid getaddrinfo n).0

  pub contains-filter_valid :
      (n : String) (ds : List String) → contains n (filter_valid getaddrinfo ds) ≡ accepted n ds
  unfolding filter_valid contains
  contains-filter_valid n [] = refl
  contains-filter_valid n (d ∷ ds) = ground (arith, contains-filter_valid n ds, eq_iff d n)

-- The tables that an action leaves in a database that answers.
abbrev pub after : {A : Type 0} → Exec Store A → Tables → Tables
after m t = (m (healthy t)).1.tables

has_custom :
    (i : ℕ) (t : Tables) → id_of "CUSTOM" t.lists ≡ some i → has_name "CUSTOM" t.lists ≡ true
has_custom i t h = elim (Bool-cases (has_name "CUSTOM" t.lists)) [
  | inl e ↦ e
  | inr e ↦ absurd (cc (h, id_of-none "CUSTOM" t.lists e))
]

pub block_names-leaves :
    (ns : List String) (i : ℕ) (t : Tables)
    → id_of "CUSTOM" t.lists ≡ some i
    → ((after (block_names ns 0) t).lists ≡ t.lists)
      × ((m : String) → lookup m (after (block_names ns 0) t).domains ≡ blocked_entry ns i m t)
block_names-leaves [] i t h = unfold block_names contains in (refl, λ m. refl)
block_names-leaves (n ∷ ns) i t h =
    let (t', done, same, each) = block_names-healthy n ns t in
    let there = has_custom i t h in
    let kept : (insert_list "CUSTOM" "" "Custom list" true t).lists ≡ t.lists =
      unfold insert_list in rw there in
    let target : created_id "CUSTOM" t.lists ≡ i = rw (h, created_id) refl in
    (
      rw (done, after) (same ∙ kept),
      λ m. rw (done, after) (each m ∙ ap (λ k. blocked_entry (n ∷ ns) k m t) target),
    )

pub unblock_names-leaves :
    (ns : List String) (w : ℕ) (t : Tables)
    → id_of "WHITELIST" t.lists ≡ some w
    → ((after (unblock_names ns) t).lists ≡ t.lists)
      × ((m : String)
          → lookup m (after (unblock_names ns) t).domains
            ≡ (if contains m ns then some w else lookup m t.domains))
unblock_names-leaves [] w t h = unfold unblock_names contains in (refl, λ m. refl)
unblock_names-leaves (n ∷ ns) w t h =
    let (t', done, same, each) = unblock_names-healthy n ns w t h in
    (rw (done, after) same, λ m. rw (done, after) (each m))

module _ (getaddrinfo : String → Resolution) where
  -- block_domains(names) on a database that answers and has the list CUSTOM, active and no whitelist:
  -- afterwards the blocked domains are those of before and the given names that the resolver knows,
  -- except that a name on a whitelist stays as it was.
  pub block_domains-blocks :
      (ds : List String) (n : String) (i : ℕ) (t : Tables)
      → IsConsistent t
      → id_of "CUSTOM" t.lists ≡ some i
      → admitted blocks t.lists (some i) ≡ true
      → has_domain n (select_blocked (after (block_domains getaddrinfo ds 0) t)) ≡ (
          if accepted getaddrinfo n ds && not (on_whitelist n t)
          then true
          else has_domain n (select_blocked t))
  unfolding block_domains
  block_domains-blocks ds n i t h e a =
      let (same, each) = block_names-leaves (filter_valid getaddrinfo ds) i t e in
      let sound = (block_domains-IsSound getaddrinfo ds 0).holds (healthy t) h in
      rw
        (
          has_domain-select_blocked n (after (block_domains getaddrinfo ds 0) t) sound,
          has_domain-select_blocked n t h,
          same,
          each n,
          contains-filter_valid getaddrinfo n ds,
        )
        (ground (arith, a))

  -- unblock_domains(names) on a database that answers and has the list WHITELIST, active and a
  -- whitelist: afterwards the given names that the resolver knows are whitelisted and not blocked, and
  -- every other name is blocked or whitelisted as before.
  pub unblock_domains-allows :
      (ds : List String) (n : String) (w : ℕ) (t : Tables)
      → IsConsistent t
      → id_of "WHITELIST" t.lists ≡ some w
      → admitted allows t.lists (some w) ≡ true
      → (has_domain n (select_blocked (after (unblock_domains getaddrinfo ds) t))
          ≡ (if accepted getaddrinfo n ds then false else has_domain n (select_blocked t)))
        × (has_domain n (select_whitelisted (after (unblock_domains getaddrinfo ds) t))
            ≡ (if accepted getaddrinfo n ds then true else has_domain n (select_whitelisted t)))
  unfolding unblock_domains
  unblock_domains-allows ds n w t h e a =
      let (same, each) = unblock_names-leaves (filter_valid getaddrinfo ds) w t e in
      let t' = after (unblock_domains getaddrinfo ds) t in
      let sound : IsConsistent t' = (unblock_domains-IsSound getaddrinfo ds).holds (healthy t) h in
      let shut = allows-blocks w t.lists h.lists_keys a in
      (
        rw
            (
              has_domain-select_blocked n t' sound,
              has_domain-select_blocked n t h,
              same,
              each n,
              contains-filter_valid getaddrinfo n ds,
            )
            (ground (arith, shut)),
        rw
            (
              has_domain-select_whitelisted n t' sound,
              has_domain-select_whitelisted n t h,
              same,
              each n,
              contains-filter_valid getaddrinfo n ds,
            )
            (ground (arith, a)),
      )
