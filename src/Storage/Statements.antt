-- ===== src/Storage/Statements.antt =====
-- The SQL statements of src/dbl/db/dml/queries.hxx, src/dbl/db/data/initial_data.hxx and of the
-- managers, each as a function on the tables.
use Prim.Native.Nat.{max}
use Prim.Native.String.{compare}
use text.Mathlib.Text.{is_le}
use dbl_service.Prelude.{
  ℕ, zero, suc, ◌+◌, String, Bool, true, false, not, ◌&&◌, ◌||◌, Option, none, some, List, [], ◌∷◌,
  ◌++◌, map, ◌==◌, eqb, if◌then◌else◌, length, any, select, Assoc, lookup, without, put,
}
use dbl_service.Fallible.{Result, ok, err, runtime_error}
use dbl_service.Types.{Domain, DomainList}
use dbl_service.Storage.{ListRow, Tables}

abbrev pub has_id : ℕ → List ListRow → Bool
has_id i ls = any (λ l. eqb l.id i) ls

abbrev pub has_name : String → List ListRow → Bool
has_name n ls = any (λ l. l.name == n) ls

-- SELECT id FROM domain_lists WHERE name = ?
unfoldable pub id_of : String → List ListRow → Option ℕ
id_of n [] = none
id_of n (l ∷ ls) = if l.name == n then some l.id else id_of n ls

unfoldable pub max_id : List ListRow → ℕ
max_id [] = 0
max_id (l ∷ ls) = max l.id (max_id ls)

-- INTEGER PRIMARY KEY: a row that gives no id gets one more than the largest.
abbrev pub next_id : List ListRow → ℕ
next_id ls = suc (max_id ls)

abbrev pub new_row : String → String → String → Bool → List ListRow → ListRow
new_row name url description custom ls = record {
  id = next_id ls;
  name = name;
  url = url;
  description = some description;
  active = true;
  custom = custom;
  is_whitelist = false;
  mtime = 0;
}

-- INSERT OR IGNORE INTO domain_lists(name, url, description, custom) VALUES(?, ?, ?, ?)
unfoldable pub insert_list : String → String → String → Bool → Tables → Tables
insert_list name url description custom t =
    if has_name name t.lists
    then t
    else record t { lists = t.lists ++ new_row name url description custom t.lists ∷ [] }

-- The foreign key on list_id, where foreign keys are enforced
abbrev pub satisfies_foreign_key : ℕ → Tables → Bool
satisfies_foreign_key i t = not t.foreign_keys || has_id i t.lists

-- INSERT OR REPLACE INTO domains(name, list_id) VALUES(?, ?), under the foreign key on list_id
unfoldable pub replace_domain : ℕ → String → Tables → Result (Unit {0} × Tables)
replace_domain list_id name t =
    if satisfies_foreign_key list_id t
    then ok (tt, record t { domains = put name list_id t.domains })
    else err (runtime_error "FOREIGN KEY constraint failed")

-- The same with (SELECT id FROM domain_lists WHERE name='WHITELIST') for list_id: a NULL id is refused.
unfoldable pub whitelist_domain : String → Tables → Result (Unit {0} × Tables)
unfolding replace_domain
whitelist_domain name t = elim (id_of "WHITELIST" t.lists) [
  | none ↦ err (runtime_error "NOT NULL constraint failed: domains.list_id")
  | some w ↦ replace_domain w name t
]

-- INSERT OR IGNORE INTO domains(name, list_id): OR IGNORE does not cover the foreign key.
unfoldable pub insert_domain : ℕ → String → Tables → Result (Unit {0} × Tables)
insert_domain list_id name t = elim (lookup name t.domains) [
  | some _ ↦ ok (tt, t)
  | none ↦
      if satisfies_foreign_key list_id t
      then ok (tt, record t { domains = (name, list_id) ∷ t.domains })
      else err (runtime_error "FOREIGN KEY constraint failed")
]

-- list_id IN(SELECT dl.id from domain_lists dl WHERE dl.is_whitelist = 1)
abbrev pub is_whitelist_id : ℕ → List ListRow → Bool
is_whitelist_id i ls = any (λ l. l.is_whitelist && eqb l.id i) ls

abbrev pub on_whitelist : String → Tables → Bool
on_whitelist name t = elim (lookup name t.domains) [
  | none ↦ false
  | some i ↦ is_whitelist_id i t.lists
]

-- DELETE FROM domains WHERE name = ? AND list_id NOT IN(...)
unfoldable pub delete_unless_whitelisted : String → Tables → Tables
delete_unless_whitelisted name t =
    if on_whitelist name t then t else record t { domains = without name t.domains }

-- ON DELETE CASCADE of domains.list_id, an action of the foreign key
unfoldable pub unlinked : String → List ListRow → Assoc ℕ → Assoc ℕ
unlinked name ls [] = []
unlinked name ls ((d, i) ∷ ds) =
    let rest = unlinked name ls ds in
    if any (λ l. l.name == name && eqb l.id i) ls then rest else (d, i) ∷ rest

-- DELETE FROM domain_lists where name = ?
unfoldable pub delete_list : String → Tables → Tables
delete_list name t = record t {
  lists = select (λ l. not (l.name == name)) t.lists;
  domains = if t.foreign_keys then unlinked name t.lists t.domains else t.domains;
}

-- UPDATE domain_lists SET active = ? WHERE name = ?
unfoldable pub set_active : Bool → String → Tables → Tables
set_active state name t = record t {
  lists = map (λ l. if l.name == name then record l { active = state } else l) t.lists;
}

-- UPDATE domain_lists SET mtime = strftime('%s','now') WHERE id = ?
unfoldable pub set_mtime : ℕ → ℕ → Tables → Tables
set_mtime now list_id t = record t {
  lists = map (λ l. if eqb l.id list_id then record l { mtime = now } else l) t.lists;
}

abbrev pub read_list : ListRow → DomainList
read_list l = record {
  id = l.id;
  name = l.name;
  url = l.url;
  description = l.description;
  active = l.active;
  custom = l.custom;
  mtime = l.mtime;
  domains = [];
}

-- get_domain_lists
unfoldable pub select_lists : Tables → List DomainList
select_lists t = map read_list t.lists

-- get_domain_lists WHERE name = ?, into one record
unfoldable pub find_list : String → List ListRow → Option DomainList
find_list name [] = none
find_list name (l ∷ ls) = if l.name == name then some (read_list l) else find_list name ls

-- The rows of domain_lists that one row of domains joins, on `dl.id = d.list_id` and a condition.
unfoldable pub matches : (ListRow → Bool) → String → ℕ → List ListRow → List Domain
matches on name i [] = []
matches on name i (l ∷ ls) =
    let rest = matches on name i ls in
    if on l && eqb l.id i
    then record { name = name; list_id = i; list_name = some l.name } ∷ rest
    else rest

unfoldable pub join : (ListRow → Bool) → List ListRow → Assoc ℕ → List Domain
unfolding matches
join on ls [] = []
join on ls ((d, i) ∷ ds) = matches on d i ls ++ join on ls ds

unfoldable pub insert_by_name : Domain → List Domain → List Domain
insert_by_name d [] = d ∷ []
insert_by_name d (e ∷ es) =
    let rest = insert_by_name d es in if is_le (compare d.name e.name) then d ∷ e ∷ es else e ∷ rest

-- ORDER BY d.name asc
unfoldable pub order_by_name : List Domain → List Domain
unfolding insert_by_name
order_by_name [] = []
order_by_name (d ∷ ds) = insert_by_name d (order_by_name ds)

-- get_domains ORDER BY d.name asc, with WHERE list_id = ? where the id is not 0
unfoldable pub select_domains : ℕ → Tables → List Domain
unfolding join order_by_name
select_domains list_id t =
    let rows = join (λ l. l.active) t.lists t.domains in
    order_by_name (if eqb list_id 0 then rows else select (λ d. eqb d.list_id list_id) rows)

-- get_domains WHERE d.name = ?, into one record
unfoldable pub find_domain : String → List Domain → Option Domain
find_domain name [] = none
find_domain name (d ∷ ds) = if d.name == name then some d else find_domain name ds

-- get_blocked_domains
unfoldable pub select_blocked : Tables → List Domain
unfolding join order_by_name
select_blocked t = order_by_name (join (λ l. l.active && not l.is_whitelist) t.lists t.domains)

-- get_all_whitelisted_domains
unfoldable pub select_whitelisted : Tables → List Domain
unfolding join
select_whitelisted t = join (λ l. l.active && l.is_whitelist) t.lists t.domains

-- SELECT count(*) FROM domain_lists WHERE active = 1
unfoldable pub count_active : Tables → ℕ
count_active t = length (select (λ l. l.active) t.lists)

-- A row of the left table that joins nothing counts once.
abbrev pub at_least_one : ℕ → ℕ
at_least_one zero = 1
at_least_one (suc n) = suc n

-- SELECT COUNT(*) FROM domains d LEFT JOIN domain_lists dl ON dl.is_whitelist = 0 AND dl.id = d.list_id
unfoldable pub count_left_join : List ListRow → Assoc ℕ → ℕ
unfolding matches
count_left_join ls [] = 0
count_left_join ls ((d, i) ∷ ds) =
    at_least_one (length (matches (λ l. not l.is_whitelist) d i ls)) + count_left_join ls ds
