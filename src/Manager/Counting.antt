-- ===== src/Manager/Counting.antt =====
-- domain_manager.cxx, `count_blocked`: what its LEFT JOIN counts.
use dbl_service.Prelude.{
  ℕ, zero, suc, String, ◌≡◌, refl, Bool, false, not, List, [], ◌∷◌, arith, ◌≤◌, any, eqb, eqb_iff,
  length, Assoc, Bool-cases, inl, inr,
}
use dbl_service.Fallible.{ok}
use dbl_service.Storage.{ListRow, Tables}
use dbl_service.Storage.Statements.{has_id, matches, at_least_one, count_left_join}
use dbl_service.Storage.Session.{healthy, statement, transaction}
use dbl_service.Storage.Integrity.{IsConsistent, DistinctLists}
use dbl_service.Manager.Domains.{count_blocked}

-- A row of domains joins at most one list.
length-matches :
    (on : ListRow → Bool) (d : String) (i : ℕ) (ls : List ListRow)
    → DistinctLists ls
    → (length (matches on d i ls) ≤ 1) × (has_id i ls ≡ false → length (matches on d i ls) ≡ 0)
unfolding matches any
length-matches on d i [] h = (omega arith, λ e. refl)
length-matches on d i (l ∷ ls) h =
    let (few, zero_if) = length-matches on d i ls h.3 in
    elim (Bool-cases (eqb l.id i)) [
      | inr e ↦ (ground (arith, e, few), λ a. ground (arith, e, a, zero_if))
      | inl e ↦
          let absent : has_id i ls ≡ false = rw⁻¹ ((eqb_iff l.id i).0 e) h.0 in
          let none_later = zero_if absent in
          (ground (arith, e, none_later), λ a. ground (arith, e, a))
    ]

at_least_one-one : (n : ℕ) → n ≤ 1 → at_least_one n ≡ 1
at_least_one-one zero h = refl
at_least_one-one (suc n) h = omega (arith, h)

count_left_join-length :
    (ls : List ListRow) (ds : Assoc ℕ) → DistinctLists ls → count_left_join ls ds ≡ length ds
unfolding count_left_join
count_left_join-length ls [] h = refl
count_left_join-length ls ((d, i) ∷ ds) h =
    let one =
      at_least_one-one (length (matches (λ l. not l.is_whitelist) d i ls))
        (length-matches (λ l. not l.is_whitelist) d i ls h).0 in
    omega (arith, one, count_left_join-length ls ds h)

-- count_blocked() on a database that answers returns the number of all rows of the table of domains: the
-- whitelisted domains and those of inactive lists are counted too.
pub count_blocked-all :
    (t : Tables) → IsConsistent t → count_blocked (healthy t) ≡ (ok (length t.domains), healthy t)
unfolding count_blocked transaction statement
count_blocked-all t h = rw (count_left_join-length t.lists t.domains h.lists_keys) refl
