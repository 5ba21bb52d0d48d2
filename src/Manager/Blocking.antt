-- ===== src/Manager/Blocking.antt =====
-- src/dbl/manager/domain_manager.cxx, block_domains and unblock_domains
pub mod Effect
pub mod Lists
pub mod Promise
pub mod Refinement
use dbl_service.Prelude.{ℕ, zero, suc, String, Bool, true, false, List, [], ◌∷◌}
use dbl_service.Fallible.{Exec, pure, try_catch, ◌>>=◌, ◌>>◌, for_each}
use dbl_service.Validator.{Resolution}
use dbl_service.Storage.{Store}
use dbl_service.Storage.Statements.{delete_unless_whitelisted, insert_domain, whitelist_domain}
use dbl_service.Storage.Session.{statement, update, transaction}
use dbl_service.Manager.Domains.{filter_valid}
use dbl_service.Manager.DomainLists.{create}

-- The list that is given, or the list CUSTOM, which is created if need be.
abbrev pub target_list : ℕ → Exec Store ℕ
target_list zero = create "CUSTOM" "" "Custom list" true
target_list (suc id) = pure (suc id)

unfoldable pub block_valid : List String → ℕ → Exec Store Bool
unfolding transaction delete_unless_whitelisted insert_domain for_each
block_valid names list_id =
    try_catch
      (do
        transaction do
          for_each names (λ n. update (delete_unless_whitelisted n))
          for_each names (λ n. statement (insert_domain list_id n))
        pure true)
      (λ _. pure false)

unfoldable pub block_names : List String → ℕ → Exec Store Bool
unfolding block_valid
block_names [] list_id = pure false
block_names (n ∷ ns) list_id = do target ← target_list list_id; block_valid (n ∷ ns) target

unfoldable pub unblock_names : List String → Exec Store Bool
unfolding transaction whitelist_domain for_each
unblock_names [] = pure false
unblock_names (n ∷ ns) =
    try_catch (do transaction (for_each (n ∷ ns) (λ m. statement (whitelist_domain m))); pure true)
      (λ _. pure false)

module _ (getaddrinfo : String → Resolution) where
  unfoldable pub block_domains : List String → ℕ → Exec Store Bool
  unfolding block_names filter_valid
  block_domains domains list_id = block_names (filter_valid getaddrinfo domains) list_id

  unfoldable pub unblock_domains : List String → Exec Store Bool
  unfolding unblock_names filter_valid
  unblock_domains domains = unblock_names (filter_valid getaddrinfo domains)
