-- ===== src/Storage/Integrity.antt =====
-- The constraints of src/dbl/db/ddl/ddl.hxx as an invariant of the tables: keys are unique, ids are
-- positive, and each domain belongs to a list that is there; and the sessions enforce foreign keys.
pub mod Queries
pub mod Rows
pub mod Transactions
pub mod Upkeep
use dbl_service.Prelude.{
  ℕ, zero, suc, String, ◌≡◌, refl, Bool, true, false, not, ◌&&◌, ◌||◌, Option, none, some, List, [],
  ◌∷◌, ◌++◌, arith, ◌<◌, if◌then◌else◌, any, any-append, select, contains, Assoc, lookup, put,
  without, lookup-put, lookup-without, eqb, eqb_iff, or-false, Bool-cases, inl, inr, ◌∙◌, map, ◌==◌,
  eq_iff,
}
use dbl_service.Storage.{ListRow, Tables}
use dbl_service.Storage.Statements.{has_id, has_name, insert_list, max_id, new_row, next_id}

module _ {ℓ} {V : Type ℓ} where
  -- Each key has one row.
  abbrev pub DistinctKeys : Assoc V → Type ℓ
  DistinctKeys [] = Unit
  DistinctKeys ((k, v) ∷ m) = (lookup k m ≡ none) × DistinctKeys m

  pub without-DistinctKeys :
      (k : String) (m : Assoc V) → DistinctKeys m → DistinctKeys (without k m)
  unfolding without
  without-DistinctKeys k [] h = tt
  without-DistinctKeys k ((j, v) ∷ m) h =
      ground (arith, without-DistinctKeys k m h.1, lookup-without k j m)

  pub put-DistinctKeys :
      (k : String) (v : V) (m : Assoc V) → DistinctKeys m → DistinctKeys (put k v m)
  unfolding put
  put-DistinctKeys k v m h =
      (ground (arith, lookup-without k k m, eq_iff k k), without-DistinctKeys k m h)

-- Each id and each name has one row, and ids start at 1.
abbrev pub DistinctLists : List ListRow → Type 0
DistinctLists [] = Unit
DistinctLists (l ∷ ls) =
    (has_id l.id ls ≡ false) × (has_name l.name ls ≡ false) × (0 < l.id) × DistinctLists ls

-- FOREIGN KEY(list_id) REFERENCES domain_lists(id)
abbrev pub Linked : List ListRow → Assoc ℕ → Type 0
Linked ls [] = Unit
Linked ls ((n, i) ∷ ds) = (has_id i ls ≡ true) × Linked ls ds

pub record IsConsistent (t : Tables) : Type 0 where
  pub settings_keys : DistinctKeys t.settings
  pub lists_keys : DistinctLists t.lists
  pub domains_keys : DistinctKeys t.domains
  pub domains_linked : Linked t.lists t.domains
  pub enforced : t.foreign_keys ≡ true
