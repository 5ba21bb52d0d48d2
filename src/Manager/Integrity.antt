-- ===== src/Manager/Integrity.antt =====
-- Every operation of src/dbl/manager keeps the constraints of the tables, whichever statement fails.
use dbl_service.Prelude.{
  ℕ, zero, suc, String, Bool, true, false, Option, none, some, List, [], ◌∷◌, put, without,
}
use dbl_service.Fallible.{Exec, pure, try_catch, ◌>>◌, null_pointer}
use dbl_service.Fallible.Keeps.{
  Keeps, Keeps-pure, Keeps-throw, Keeps-try, Keeps-bind, Keeps-then, Keeps-for_each, keeps_rules,
}
use dbl_service.Types.{DomainList}
use dbl_service.Validator.{Resolution}
use dbl_service.Storage.{Store, Tables}
use dbl_service.Storage.Session.{transaction}
use dbl_service.Storage.Integrity.{IsConsistent, put-DistinctKeys, without-DistinctKeys}
use dbl_service.Storage.Integrity.Transactions.{
  IsSound, Keeps-statement, Keeps-query, Keeps-update, Keeps-transaction,
}
use dbl_service.Storage.Integrity.Upkeep.{
  insert_list-IsConsistent, replace_domain-Leaves, whitelist_domain-Leaves, insert_domain-Leaves,
  delete_unless_whitelisted-IsConsistent, delete_list-IsConsistent, set_active-IsConsistent,
  set_mtime-IsConsistent,
}
use dbl_service.Manager.Settings
use dbl_service.Manager.Domains
use dbl_service.Manager.Domains.{filter_valid}
use dbl_service.Manager.DomainLists
use dbl_service.Manager.DomainLists.{
  id_of_pointer, with_domains_of, create, import_list, set_enabled, or_custom, or_blank,
}
use dbl_service.Manager.Blocking.{
  target_list, block_valid, block_names, unblock_names, block_domains, unblock_domains,
}

ruleset store_rules = (keeps_rules, Keeps-query, Keeps-transaction)

put_setting-IsConsistent :
    (k v : String) (t : Tables)
    → IsConsistent t
    → IsConsistent (record t { settings = put k v t.settings })
put_setting-IsConsistent k v t c = record {
  settings_keys = put-DistinctKeys k v t.settings c.settings_keys;
  lists_keys = c.lists_keys;
  domains_keys = c.domains_keys;
  domains_linked = c.domains_linked;
  enforced = c.enforced;
}

remove_setting-IsConsistent :
    (k : String) (t : Tables)
    → IsConsistent t
    → IsConsistent (record t { settings = without k t.settings })
remove_setting-IsConsistent k t c = record {
  settings_keys = without-DistinctKeys k t.settings c.settings_keys;
  lists_keys = c.lists_keys;
  domains_keys = c.domains_keys;
  domains_linked = c.domains_linked;
  enforced = c.enforced;
}

-- try { one transaction; return true; } catch { return false; }
attempt-IsSound :
    (body : Exec Store Unit)
    → Keeps IsSound body
    → Keeps IsSound (try_catch (do transaction body; pure true) (λ _. pure false))
attempt-IsSound body k =
    Keeps-try IsSound (λ _. pure false) _
      (Keeps-then IsSound _ _ (Keeps-transaction body k) (Keeps-pure true)) (λ _. Keeps-pure false)

pub get-IsSound : (k d : String) → Keeps IsSound (Settings.get k d)
unfolding Settings.get
get-IsSound k d = search store_rules

pub set-IsSound : (k v : String) → Keeps IsSound (Settings.set k v)
unfolding Settings.set
set-IsSound k v = attempt-IsSound _ (Keeps-update _ (put_setting-IsConsistent k v))

pub remove-IsSound : (k : String) → Keeps IsSound (Settings.remove k)
unfolding Settings.remove
remove-IsSound k = attempt-IsSound _ (Keeps-update _ (remove_setting-IsConsistent k))

pub get_domains-IsSound : (i : ℕ) → Keeps IsSound (Domains.get i)
unfolding Domains.get
get_domains-IsSound i = search store_rules

pub get_by_name-IsSound : (n : String) → Keeps IsSound (Domains.get_by_name n)
unfolding Domains.get_by_name
get_by_name-IsSound n = search store_rules

pub get_blocked-IsSound : Keeps IsSound Domains.get_blocked
unfolding Domains.get_blocked
get_blocked-IsSound = search store_rules

pub get_whitelisted-IsSound : Keeps IsSound Domains.get_whitelisted
unfolding Domains.get_whitelisted
get_whitelisted-IsSound = search store_rules

with_domains_of-IsSound :
    (l : DomainList) (i : ℕ) (b : Bool) → Keeps IsSound (with_domains_of l i b)
with_domains_of-IsSound l zero b = Keeps-pure (some l)
with_domains_of-IsSound l (suc i) false = Keeps-pure (some l)
with_domains_of-IsSound l (suc i) true = search (keeps_rules, get_domains-IsSound)

pub get_list-IsSound : (n : String) (b : Bool) → Keeps IsSound (DomainLists.get n b)
unfolding DomainLists.get
get_list-IsSound n b = search (store_rules, with_domains_of-IsSound)

pub get_all-IsSound : Keeps IsSound DomainLists.get_all
unfolding DomainLists.get_all
get_all-IsSound = search store_rules

id_of_pointer-IsSound : (p : Option DomainList) → Keeps IsSound (id_of_pointer p)
id_of_pointer-IsSound none = Keeps-throw null_pointer
id_of_pointer-IsSound (some l) = Keeps-pure l.id

pub create-IsSound : (n u d : String) (c : Bool) → Keeps IsSound (create n u d c)
unfolding create
create-IsSound n u d c =
    Keeps-try IsSound _ _
      (Keeps-then IsSound _ _
        (Keeps-transaction _ (Keeps-update _ (insert_list-IsConsistent (or_custom n) u d c)))
        (Keeps-bind IsSound _ _ (get_list-IsSound (or_custom n) false) id_of_pointer-IsSound))
      (λ _. Keeps-pure 0)

pub import_list-IsSound :
    (now : ℕ) (l : DomainList) (b : Bool) → Keeps IsSound (import_list now l b)
unfolding import_list
import_list-IsSound now l b =
    Keeps-try IsSound _ _
      (Keeps-bind IsSound _ _ (create-IsSound l.name l.url (or_blank l.description) b) λ i.
        Keeps-then IsSound _ _
          (Keeps-transaction _ (
            Keeps-then IsSound _ _
              (Keeps-for_each IsSound _ l.domains
                (λ d. Keeps-statement _ (replace_domain-Leaves i d.name)))
              (Keeps-update _ (set_mtime-IsConsistent now i))))
          (Keeps-pure true))
      (λ _. Keeps-pure false)

pub remove_list-IsSound : (n : String) → Keeps IsSound (DomainLists.remove n)
unfolding DomainLists.remove
remove_list-IsSound n = attempt-IsSound _ (Keeps-update _ (delete_list-IsConsistent n))

pub set_enabled-IsSound : (n : String) (b : Bool) → Keeps IsSound (set_enabled n b)
unfolding set_enabled
set_enabled-IsSound n b = attempt-IsSound _ (Keeps-update _ (set_active-IsConsistent b n))

target_list-IsSound : (i : ℕ) → Keeps IsSound (target_list i)
target_list-IsSound zero = create-IsSound "CUSTOM" "" "Custom list" true
target_list-IsSound (suc i) = Keeps-pure (suc i)

block_valid-IsSound : (ns : List String) (i : ℕ) → Keeps IsSound (block_valid ns i)
unfolding block_valid
block_valid-IsSound ns i = attempt-IsSound _ (
    Keeps-then IsSound _ _
      (Keeps-for_each IsSound _ ns (λ n. Keeps-update _ (delete_unless_whitelisted-IsConsistent n)))
      (Keeps-for_each IsSound _ ns (λ n. Keeps-statement _ (insert_domain-Leaves i n))))

pub block_names-IsSound : (ns : List String) (i : ℕ) → Keeps IsSound (block_names ns i)
unfolding block_names
block_names-IsSound [] i = Keeps-pure false
block_names-IsSound (n ∷ ns) i =
    Keeps-bind IsSound _ _ (target_list-IsSound i) (block_valid-IsSound (n ∷ ns))

pub unblock_names-IsSound : (ns : List String) → Keeps IsSound (unblock_names ns)
unfolding unblock_names
unblock_names-IsSound [] = Keeps-pure false
unblock_names-IsSound (n ∷ ns) =
    attempt-IsSound _
      (Keeps-for_each IsSound _ (n ∷ ns) (λ m. Keeps-statement _ (whitelist_domain-Leaves m)))

module _ (getaddrinfo : String → Resolution) where
  pub block_domains-IsSound :
      (ns : List String) (i : ℕ) → Keeps IsSound (block_domains getaddrinfo ns i)
  unfolding block_domains
  block_domains-IsSound ns i = block_names-IsSound (filter_valid getaddrinfo ns) i

  pub unblock_domains-IsSound : (ns : List String) → Keeps IsSound (unblock_domains getaddrinfo ns)
  unfolding unblock_domains
  unblock_domains-IsSound ns = unblock_names-IsSound (filter_valid getaddrinfo ns)
