-- ===== src/Storage/Integrity/Queries.antt =====
-- What the joins of src/dbl/db/dml/queries.hxx find, row by name, in tables with unique keys.
use dbl_service.Prelude.{
  ℕ, String, ◌≡◌, refl, Bool, false, ◌&&◌, ◌||◌, Option, none, some, List, [], ◌∷◌, arith, any,
  any-append, Assoc, lookup, eqb, ◌==◌, eq_iff, ◌∙◌, ap,
}
use dbl_service.Types.{Domain}
use dbl_service.Storage.{ListRow}
use dbl_service.Storage.Statements.{matches, join, insert_by_name, order_by_name}
use dbl_service.Storage.Integrity.{DistinctKeys}

abbrev pub has_domain : String → List Domain → Bool
has_domain n ds = any (λ d. d.name == n) ds

-- The lists that a condition admits, at the id of a name.
abbrev pub admitted : (ListRow → Bool) → List ListRow → Option ℕ → Bool
admitted on ls none = false
admitted on ls (some i) = any (λ l. on l && eqb l.id i) ls

has_domain-insert_by_name :
    (n : String) (d : Domain) (ds : List Domain)
    → has_domain n (insert_by_name d ds) ≡ (d.name == n || has_domain n ds)
unfolding insert_by_name any
has_domain-insert_by_name n d [] = refl
has_domain-insert_by_name n d (e ∷ es) = ground (arith, has_domain-insert_by_name n d es)

pub has_domain-order :
    (n : String) (ds : List Domain) → has_domain n (order_by_name ds) ≡ has_domain n ds
unfolding order_by_name any
has_domain-order n [] = refl
has_domain-order n (d ∷ ds) =
    has_domain-insert_by_name n d (order_by_name ds)
    ∙ ap (λ b. d.name == n || b) (has_domain-order n ds)

has_domain-matches :
    (on : ListRow → Bool) (n d : String) (i : ℕ) (ls : List ListRow)
    → has_domain n (matches on d i ls) ≡ (d == n && any (λ l. on l && eqb l.id i) ls)
unfolding matches any
has_domain-matches on n d i [] = ground arith
has_domain-matches on n d i (l ∷ ls) = ground (arith, has_domain-matches on n d i ls)

-- A join has a row for a name exactly if the list of the name's id is admitted.
pub has_domain-join :
    (on : ListRow → Bool) (n : String) (ls : List ListRow) (ds : Assoc ℕ)
    → DistinctKeys ds
    → has_domain n (join on ls ds) ≡ admitted on ls (lookup n ds)
unfolding join lookup
has_domain-join on n ls [] h = unfold any in refl
has_domain-join on n ls ((d, i) ∷ ds) h =
    rw (any-append (λ e. e.name == n) (matches on d i ls) (join on ls ds))
      (ground (arith, has_domain-matches on n d i ls, has_domain-join on n ls ds h.1, eq_iff d n))
