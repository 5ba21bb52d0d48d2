-- ===== src/Manager/DomainLists.antt =====
-- src/dbl/manager/domain_list_manager.cxx
pub mod Creating
pub mod Adding
pub mod Removing
pub mod Importing
use dbl_service.Prelude.{
  ℕ, zero, suc, String, Bool, true, false, Option, none, some, List, [], ◌++◌, ◌==◌, if◌then◌else◌,
}
use dbl_service.Fallible.{null_pointer, Exec, pure, throw, try_catch, ◌>>=◌, ◌>>◌, for_each}
use dbl_service.Types.{DomainList, new_list}
use dbl_service.Storage.{Store}
use dbl_service.Storage.Statements.{
  insert_list, replace_domain, delete_list, set_active, set_mtime, select_lists, find_list,
  count_active,
}
use dbl_service.Storage.Session.{statement, query, update, transaction}
use dbl_service.Manager.Domains

abbrev pub or_new : Option DomainList → DomainList
or_new none = new_list
or_new (some l) = l

abbrev pub with_domains_of : DomainList → ℕ → Bool → Exec Store (Option DomainList)
with_domains_of l zero b = pure (some l)
with_domains_of l (suc id) false = pure (some l)
with_domains_of l (suc id) true = do
  ds ← Domains.get (suc id)
  pure (some (record l { domains = l.domains ++ ds }))

-- get(name, with_domains): a list of id 0 if there is no such row, a null pointer if the query fails
unfoldable pub get : String → Bool → Exec Store (Option DomainList)
unfolding ◌>>=◌ statement find_list Domains.get
get name with_domains =
    try_catch
      (do
        row ← query (λ t. find_list name t.lists)
        with_domains_of (or_new row) (or_new row).id with_domains)
      (λ _. pure none)

-- get()
unfoldable pub get_all : Exec Store (List DomainList)
unfolding ◌>>=◌ statement select_lists
get_all = try_catch (query select_lists) (λ _. pure [])

-- name.empty() ? "CUSTOM" : name
abbrev pub or_custom : String → String
or_custom name = if name == "" then "CUSTOM" else name

-- ptr->id
abbrev pub id_of_pointer : Option DomainList → Exec Store ℕ
id_of_pointer none = throw null_pointer
id_of_pointer (some l) = pure l.id

-- The id of the list, new or not; 0 if the database fails.
unfoldable pub create : String → String → String → Bool → Exec Store ℕ
unfolding transaction
create name url description custom =
    try_catch
      (do
        transaction (update (insert_list (or_custom name) url description custom))
        ptr ← get (or_custom name) false
        id_of_pointer ptr)
      (λ _. pure 0)

abbrev pub or_blank : Option String → String
or_blank none = ""
or_blank (some s) = s

-- import(lst, custom) at the time `now`
unfoldable pub import_list : ℕ → DomainList → Bool → Exec Store Bool
unfolding transaction create replace_domain set_mtime for_each
import_list now lst custom =
    try_catch
      (do
        list_id ← create lst.name lst.url (or_blank lst.description) custom
        transaction do
          for_each lst.domains (λ d. statement (replace_domain list_id d.name))
          update (set_mtime now list_id)
        pure true)
      (λ _. pure false)

unfoldable pub remove : String → Exec Store Bool
unfolding transaction delete_list
remove name = try_catch (do transaction (update (delete_list name)); pure true) (λ _. pure false)

unfoldable pub set_enabled : String → Bool → Exec Store Bool
unfolding transaction set_active
set_enabled name enabled =
    try_catch (do transaction (update (set_active enabled name)); pure true) (λ _. pure false)

unfoldable pub count : Exec Store ℕ
unfolding transaction count_active
count = try_catch (transaction (query count_active)) (λ _. pure 0)
