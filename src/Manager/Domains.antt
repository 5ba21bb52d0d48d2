-- ===== src/Manager/Domains.antt =====
-- src/dbl/manager/domain_manager.cxx, the queries
use dbl_service.Prelude.{ℕ, String, Option, none, some, List, [], ◌∷◌, if◌then◌else◌}
use dbl_service.Fallible.{Exec, pure, try_catch, ◌>>=◌}
use dbl_service.Types.{Domain, new_domain}
use dbl_service.Validator.{Resolution, is_valid}
use dbl_service.Storage.{Store}
use dbl_service.Storage.Statements.{
  join, find_domain, select_domains, select_blocked, select_whitelisted, count_left_join,
}
use dbl_service.Storage.Session.{statement, query, transaction}

-- get(list_id): 0 stands for every list
unfoldable pub get : ℕ → Exec Store (List Domain)
unfolding ◌>>=◌ statement select_domains
get list_id = try_catch (query (select_domains list_id)) (λ _. pure [])

abbrev pub or_new : Option Domain → Domain
or_new none = new_domain
or_new (some d) = d

-- get(name): a record with no name if there is no such row, a null pointer if the query fails
unfoldable pub get_by_name : String → Exec Store (Option Domain)
unfolding ◌>>=◌ statement find_domain join
get_by_name name =
    try_catch
      (do
        row ← query (λ t. find_domain name (join (λ l. l.active) t.lists t.domains))
        pure (some (or_new row)))
      (λ _. pure none)

unfoldable pub get_blocked : Exec Store (List Domain)
unfolding ◌>>=◌ statement select_blocked
get_blocked = try_catch (query select_blocked) (λ _. pure [])

unfoldable pub get_whitelisted : Exec Store (List Domain)
unfolding ◌>>=◌ statement select_whitelisted
get_whitelisted = try_catch (query select_whitelisted) (λ _. pure [])

unfoldable pub count_blocked : Exec Store ℕ
unfolding transaction count_left_join
count_blocked =
    try_catch (transaction (query (λ t. count_left_join t.lists t.domains))) (λ _. pure 0)

module _ (getaddrinfo : String → Resolution) where
  unfoldable pub filter_valid : List String → List String
  unfolding is_valid
  filter_valid [] = []
  filter_valid (d ∷ ds) =
      let rest = filter_valid ds in if (is_valid getaddrinfo d).0 then d ∷ rest else rest
