-- ===== src/Manager/DomainLists/Creating.antt =====
-- domain_list_manager.cxx, `create`: which id it returns, and what it does to domain_lists.
use dbl_service.Prelude.{
  ℕ, zero, suc, String, ◌≡◌, refl, Bool, true, false, none, some, List, [], ◌∷◌, ◌++◌, arith, ◌==◌,
  eq_iff, eqb_refl, eqb_iff, any, Bool-cases, inl, inr,
}
use dbl_service.Fallible.{ok, pure}
use dbl_service.Types.{DomainList}
use dbl_service.Storage.{ListRow, Tables, Store}
use dbl_service.Storage.Statements.{
  has_id, has_name, id_of, find_list, next_id, insert_list, read_list, new_row,
}
use dbl_service.Storage.Session.{healthy, statement, transaction}
use dbl_service.Manager.DomainLists.{or_new, get, create, with_domains_of, or_custom}

-- The id of the list of this name if there is one, and the next free one if not.
abbrev pub created_id : String → List ListRow → ℕ
created_id n ls = elim (id_of n ls) [ none ↦ next_id ls | some i ↦ i ]

pub id_of-none : (n : String) (ls : List ListRow) → has_name n ls ≡ false → id_of n ls ≡ none
unfolding any id_of
id_of-none n [] h = refl
id_of-none n (l ∷ ls) h = ground (arith, id_of-none n ls)

pub id_of-some :
    (n : String) (ls : List ListRow)
    → has_name n ls ≡ true
    → (i : ℕ) × (id_of n ls ≡ some i) × (has_id i ls ≡ true) × ((or_new (find_list n ls)).id ≡ i)
unfolding any id_of find_list
id_of-some n [] h = absurd (cc h)
id_of-some n (l ∷ ls) h = elim (Bool-cases (l.name == n)) [
  | inl e ↦ (l.id, ground arith, ground (arith, eqb_refl l.id), ground arith)
  | inr e ↦
      let (i, a, b, c) = id_of-some n ls (ground arith) in
      (i, ground arith, ground arith, ground arith)
]

pub id_of-has_id :
    (n : String) (i : ℕ) (ls : List ListRow) → id_of n ls ≡ some i → has_id i ls ≡ true
unfolding any id_of
id_of-has_id n i [] h = absurd (cc h)
id_of-has_id n i (l ∷ ls) h = ground (arith, eqb_iff l.id i, id_of-has_id n i ls)

find_list-append :
    (n : String) (ls : List ListRow) (row : ListRow)
    → has_name n ls ≡ false
    → row.name ≡ n
    → find_list n (ls ++ row ∷ []) ≡ some (read_list row)
unfolding any find_list
find_list-append n [] row h e = ground (arith, eq_iff row.name n)
find_list-append n (l ∷ ls) row h e = ground (arith, find_list-append n ls row)

has_id-append : (ls : List ListRow) (row : ListRow) → has_id row.id (ls ++ row ∷ []) ≡ true
unfolding any
has_id-append [] row = ground (arith, eqb_refl row.id)
has_id-append (l ∷ ls) row = ground (arith, has_id-append ls row)

-- What create() leaves: the row that it found or made has the id that it returns.
pub insert_list-finds :
    (n u d : String) (c : Bool) (t : Tables)
    → ((or_new (find_list n (insert_list n u d c t).lists)).id ≡ created_id n t.lists)
      × (has_id (created_id n t.lists) (insert_list n u d c t).lists ≡ true)
insert_list-finds n u d c t = elim (Bool-cases (has_name n t.lists)) [
  | inl old ↦
      let (i, a, b, e) = id_of-some n t.lists old in
      unfold insert_list in (ground (arith, a, e), ground (arith, a, b))
  | inr new ↦
      let row = new_row n u d c t.lists in
      let found = find_list-append n t.lists row new refl in
      let absent = id_of-none n t.lists new in
      unfold insert_list in
      (ground (arith, found, absent, new), ground (arith, has_id-append t.lists row, absent, new))
]

with_domains_of-false :
    (l : DomainList) (i : ℕ) (s : Store) → with_domains_of l i false s ≡ (ok (some l), s)
unfolding pure
with_domains_of-false l zero s = refl
with_domains_of-false l (suc i) s = refl

-- get(name) on a database that answers.
pub get-healthy :
    (n : String) (t : Tables)
    → get n false (healthy t) ≡ (ok (some (or_new (find_list n t.lists))), healthy t)
get-healthy n t =
    let r = or_new (find_list n t.lists) in
    unfold get in rw (with_domains_of-false r r.id (healthy t))

-- create() on a database that answers: a list of this name is kept as it is, a new one is added, and
-- the id is that of the list of this name. No name stands for CUSTOM.
pub create-healthy :
    (n u d : String) (c : Bool) (t : Tables)
    → create n u d c (healthy t)
      ≡ (ok (created_id (or_custom n) t.lists), healthy (insert_list (or_custom n) u d c t))
unfolding create transaction statement
create-healthy n u d c t =
    rw (get-healthy (or_custom n) (insert_list (or_custom n) u d c t))
      (cc ((insert_list-finds (or_custom n) u d c t).0))

pub domains-insert_list :
    (l u d : String) (c : Bool) (t : Tables) → (insert_list l u d c t).domains ≡ t.domains
unfolding insert_list
domains-insert_list l u d c t = ground arith
