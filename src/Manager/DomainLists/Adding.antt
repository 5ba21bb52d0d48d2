-- ===== src/Manager/DomainLists/Adding.antt =====
-- domain_list_manager.cxx, `create`: the lists that can be read afterwards, by name.
use dbl_service.Prelude.{
  ℕ, String, ◌≡◌, refl, Bool, true, false, not, ◌&&◌, some, List, [], ◌∷◌, ◌++◌, arith, ◌==◌,
  eq_iff, any, if◌then◌else◌, Bool-cases, inl, inr,
}
use dbl_service.Fallible.{ok}
use dbl_service.Types.{DomainList}
use dbl_service.Storage.{ListRow, Tables}
use dbl_service.Storage.Statements.{
  has_id, has_name, id_of, find_list, next_id, insert_list, read_list, new_row,
}
use dbl_service.Storage.Session.{healthy}
use dbl_service.Storage.Integrity.Rows.{has_id-above_max}
use dbl_service.Manager.DomainLists.{create, or_custom}
use dbl_service.Manager.DomainLists.Creating.{created_id, id_of-none, id_of-some, create-healthy}

-- A list with these, which is active and was never updated, and whose domains are not read.
abbrev pub active_list : ℕ → String → String → String → Bool → DomainList
active_list id name url description custom = record {
  id = id;
  name = name;
  url = url;
  description = some description;
  active = true;
  custom = custom;
  mtime = 0;
  domains = [];
}

find_list-append :
    (m : String) (ls : List ListRow) (row : ListRow)
    → has_name row.name ls ≡ false
    → find_list m (ls ++ row ∷ [])
      ≡ (if row.name == m then some (read_list row) else find_list m ls)
unfolding any find_list
find_list-append m [] row h = refl
find_list-append m (l ∷ ls) row h =
    ground
      (arith, find_list-append m ls row, eq_iff l.name m, eq_iff row.name m, eq_iff l.name row.name)

id_of-append :
    (ls : List ListRow) (row : ListRow)
    → has_name row.name ls ≡ false
    → id_of row.name (ls ++ row ∷ []) ≡ some row.id
unfolding any id_of
id_of-append [] row h = ground (arith, eq_iff row.name row.name)
id_of-append (l ∷ ls) row h = ground (arith, id_of-append ls row)

-- What create() leaves, and the id that it returns.
record Creates (k u d : String) (c : Bool) (t : Tables) : Type 0 where
  given : id_of k (insert_list k u d c t).lists ≡ some (created_id k t.lists)
  fresh : has_id (created_id k t.lists) t.lists ≡ has_name k t.lists
  found :
      (m : String)
      → find_list m (insert_list k u d c t).lists ≡ (
          if (k == m) && not (has_name k t.lists)
          then some (active_list (created_id k t.lists) k u d c)
          else find_list m t.lists)
  same_domains : (insert_list k u d c t).domains ≡ t.domains
  same_settings : (insert_list k u d c t).settings ≡ t.settings

insert_list-Creates : (k u d : String) (c : Bool) (t : Tables) → Creates k u d c t
insert_list-Creates k u d c t = elim (Bool-cases (has_name k t.lists)) [
  | inl old ↦
      let (i, a, b, e) = id_of-some k t.lists old in
      record {
        given = unfold insert_list in ground (arith, a);
        fresh = ground (arith, a, b);
        found = λ m. unfold insert_list in ground arith;
        same_domains = unfold insert_list in ground arith;
        same_settings = unfold insert_list in ground arith;
      }
  | inr new ↦
      let row = new_row k u d c t.lists in
      let absent = id_of-none k t.lists new in
      let free = has_id-above_max (next_id t.lists) t.lists (omega arith) in
      record {
        given = unfold insert_list in ground (arith, absent, id_of-append t.lists row new);
        fresh = ground (arith, absent, free, new);
        found =
            λ m. unfold insert_list in ground (arith, absent, find_list-append m t.lists row new);
        same_domains = unfold insert_list in ground arith;
        same_settings = unfold insert_list in ground arith;
      }
]

-- create() on a database that answers, for no name in place of CUSTOM: it returns the id by which the list of this
-- name is found afterwards, an id that was in use before exactly if the name was. If the name was not, the list
-- is active and has what is given; all other lists, and a list of this name that was there, are found as
-- they were. Domains and settings stay.
pub create-adds :
    (n u d : String) (c : Bool) (t : Tables)
    → let k = or_custom n in
      (i : ℕ) × (t' : Tables) × (create n u d c (healthy t) ≡ (ok i, healthy t'))
      × (id_of k t'.lists ≡ some i)
      × (has_id i t.lists ≡ has_name k t.lists)
      × ((m : String)
          → find_list m t'.lists ≡ (
              if (k == m) && not (has_name k t.lists)
              then some (active_list i k u d c)
              else find_list m t.lists))
      × (t'.domains ≡ t.domains)
      × (t'.settings ≡ t.settings)
create-adds n u d c t =
    let w = insert_list-Creates (or_custom n) u d c t in
    (
      created_id (or_custom n) t.lists,
      insert_list (or_custom n) u d c t,
      create-healthy n u d c t,
      w.given,
      w.fresh,
      w.found,
      w.same_domains,
      w.same_settings,
    )
